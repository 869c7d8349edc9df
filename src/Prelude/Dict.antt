-- ===== src/Prelude/Dict.antt =====
-- Dictionaries with numbers for keys, in the order of insertion.
use Prim.Native.Nat.{ℕ}
use mathlib.Core.Path.{◌≡◌, refl}
use mathlib.Core.Logic.{inl, inr}
use mathlib.Core.Bool.{Bool, false, ◌||◌}
use mathlib.Core.Option.{Option, none, some}
use mathlib.Core.List.{List, [], ◌∷◌, map}
use native.Mathlib.Omega.{arith}
use trelgream_self_userbot.Prelude.Tests.{◌==◌, if◌then◌else◌, is_some, Bool-cases}

module _ {A : Type 0} where
  -- `d.get(key)`
  unfoldable pub lookup : ℕ → List (ℕ × A) → Option A
  lookup k [] = none
  lookup k ((i, a) ∷ d) = if i == k then some a else lookup k d

  -- `key in d`
  unfoldable pub has : ℕ → List (ℕ × A) → Bool
  has k [] = false
  has k ((i, a) ∷ d) = i == k || has k d

  -- `d[key] = value`
  unfoldable pub put : ℕ → A → List (ℕ × A) → List (ℕ × A)
  put k a [] = (k, a) ∷ []
  put k a ((i, b) ∷ d) = let rest = put k a d in if i == k then (k, a) ∷ d else (i, b) ∷ rest

  -- `d.pop(key, None)`
  unfoldable pub remove : ℕ → List (ℕ × A) → List (ℕ × A)
  remove k [] = []
  remove k ((i, a) ∷ d) = let rest = remove k d in if i == k then rest else (i, a) ∷ rest

  -- `list(d)`
  abbrev pub keys : List (ℕ × A) → List ℕ
  keys d = map (λ e. e.0) d

  pub lookup-put :
      (k j : ℕ) (a : A) (d : List (ℕ × A))
      → lookup j (put k a d) ≡ (if k == j then some a else lookup j d)
  unfolding lookup put
  lookup-put k j a [] = refl
  lookup-put k j a ((i, b) ∷ d) = ground (arith, lookup-put k j a d)

  pub has-put : (k j : ℕ) (a : A) (d : List (ℕ × A)) → has j (put k a d) ≡ k == j || has j d
  unfolding has put
  has-put k j a [] = refl
  has-put k j a ((i, b) ∷ d) = ground (arith, has-put k j a d)

  pub has-remove :
      (k j : ℕ) (d : List (ℕ × A)) → has j (remove k d) ≡ (if k == j then false else has j d)
  unfolding has remove
  has-remove k j [] = ground arith
  has-remove k j ((i, b) ∷ d) = ground (arith, has-remove k j d)

  pub has-lookup : (k : ℕ) (d : List (ℕ × A)) → has k d ≡ is_some (lookup k d)
  unfolding has lookup
  has-lookup k [] = refl
  has-lookup k ((i, b) ∷ d) = ground (arith, has-lookup k d)

  -- a property of the values
  abbrev pub AllValues : (A → Type 0) → List (ℕ × A) → Type 0
  AllValues P [] = Unit {0}
  AllValues P ((i, a) ∷ d) = P a × AllValues P d

  pub AllValues-put :
      (P : A → Type 0) (k : ℕ) (a : A) (d : List (ℕ × A))
      → P a
      → AllValues P d
      → AllValues P (put k a d)
  unfolding put
  AllValues-put P k a [] p h = (p, tt)
  AllValues-put P k a ((i, b) ∷ d) p h = elim (Bool-cases (i == k)) [
    | inl e ↦ rw e (p, h.1)
    | inr e ↦ rw e (h.0, AllValues-put P k a d p h.1)
  ]

  pub AllValues-remove :
      (P : A → Type 0) (k : ℕ) (d : List (ℕ × A)) → AllValues P d → AllValues P (remove k d)
  unfolding remove
  AllValues-remove P k [] h = tt
  AllValues-remove P k ((i, b) ∷ d) h = elim (Bool-cases (i == k)) [
    | inl e ↦ rw e (AllValues-remove P k d h.1)
    | inr e ↦ rw e (h.0, AllValues-remove P k d h.1)
  ]
