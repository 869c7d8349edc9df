-- ===== src/Database/Table/Find.antt =====
-- What `find`, `select` and `change` do to one another.
use trelgream_self_userbot.Prelude.{
  ◌≡◌, refl, ap, Bool, true, false, none, some, List, [], ◌∷◌, ◌++◌, map, if◌then◌else◌, arith,
  Bool-cases, inl, inr,
}
use trelgream_self_userbot.Database.Table.{select, change, find}

module _ {Row : Type 0} where
  abbrev pub All : (Row → Type 0) → List Row → Type 0
  All P [] = Unit
  All P (r ∷ rs) = P r × All P rs

  pub find-append :
      (test : Row → Bool) (rs qs : List Row)
      → find test (rs ++ qs) ≡ (elim (find test rs) [ none ↦ find test qs | some r ↦ some r ])
  unfolding find
  find-append test [] qs = refl
  find-append test (r ∷ rs) qs = ground (arith, find-append test rs qs)

  pub find-holds :
      (test : Row → Bool) (rs : List Row) (r : Row) → find test rs ≡ some r → test r ≡ true
  unfolding find
  find-holds test [] r h = ground arith
  find-holds test (q ∷ rs) r h = elim (Bool-cases (test q)) [
    | inl e ↦ ground arith
    | inr e ↦ find-holds test rs r (ground arith)
  ]

  pub select-append :
      (test : Row → Bool) (rs qs : List Row)
      → select test (rs ++ qs) ≡ select test rs ++ select test qs
  unfolding select
  select-append test [] qs = refl
  select-append test (r ∷ rs) qs = ground (arith, select-append test rs qs)

  pub All-append : (P : Row → Type 0) (rs qs : List Row) → All P rs → All P qs → All P (rs ++ qs)
  All-append P [] qs h k = k
  All-append P (r ∷ rs) qs h k = (h.0, All-append P rs qs h.1 k)

  pub All-find :
      (P : Row → Type 0) (test : Row → Bool) (rs : List Row) (r : Row)
      → All P rs
      → find test rs ≡ some r
      → P r
  unfolding find
  All-find P test [] r h e = ground arith
  All-find P test (q ∷ rs) r h e = elim (Bool-cases (test q)) [
    | inl t ↦ subst_some h.0 (ground arith)
    | inr t ↦ All-find P test rs r h.1 (ground arith)
  ]
    where
      subst_some : P q → q ≡ r → P r
      subst_some p e = rw (← e) p

  -- what holds of every row that a change writes, and of every row that it leaves
  pub All-change :
      (P Q : Row → Type 0) (test : Row → Bool) (f : Row → Row) (rs : List Row)
      → ((r : Row) → P r → test r ≡ true → Q (f r))
      → ((r : Row) → P r → test r ≡ false → Q r)
      → All P rs
      → All Q (change test f rs)
  unfolding change
  All-change P Q test f [] hit miss h = tt
  All-change P Q test f (r ∷ rs) hit miss h = elim (Bool-cases (test r)) [
    | inl t ↦ rw t (hit r h.0 t, All-change P Q test f rs hit miss h.1)
    | inr t ↦ rw t (miss r h.0 t, All-change P Q test f rs hit miss h.1)
  ]

  -- a change that no row fits changes nothing
  pub select_none-change :
      (test : Row → Bool) (f : Row → Row) (rs : List Row)
      → select test rs ≡ []
      → change test f rs ≡ rs
  unfolding select change
  select_none-change test f [] h = refl
  select_none-change test f (r ∷ rs) h = ground (arith, select_none-change test f rs)

  -- the rows of another test stay, if the written rows fit it neither before nor after
  pub select-change_other :
      (p test : Row → Bool) (f : Row → Row) (rs : List Row)
      → ((r : Row) → test r ≡ true → (p r ≡ false) × (p (f r) ≡ false))
      → select p (change test f rs) ≡ select p rs
  unfolding select change
  select-change_other p test f [] h = refl
  select-change_other p test f (r ∷ rs) h = ground (arith, h r, select-change_other p test f rs h)

  pub All-both :
      (P Q R : Row → Type 0) (rs : List Row)
      → ((r : Row) → P r → Q r → R r)
      → All P rs
      → All Q rs
      → All R rs
  All-both P Q R [] both h k = tt
  All-both P Q R (r ∷ rs) both h k = (both r h.0 k.0, All-both P Q R rs both h.1 k.1)

  pub change-eq :
      (p q : Row → Bool) (f : Row → Row) (rs : List Row)
      → All (λ r. p r ≡ q r) rs
      → change p f rs ≡ change q f rs
  unfolding change
  change-eq p q f [] h = refl
  change-eq p q f (r ∷ rs) h = ground (arith, h.0, change-eq p q f rs h.1)

  -- the rows that a change takes out of its own test
  pub select-change_self :
      (test : Row → Bool) (f : Row → Row) (rs : List Row)
      → ((r : Row) → test (f r) ≡ false)
      → select test (change test f rs) ≡ []
  unfolding select change
  select-change_self test f [] out = refl
  select-change_self test f (r ∷ rs) out = ground (arith, out r, select-change_self test f rs out)

  pub change-map :
      (test : Row → Bool) (f : Row → Row) (rs : List Row)
      → change test f rs ≡ map (λ r. if test r then f r else r) rs
  unfolding change
  change-map test f [] = refl
  change-map test f (r ∷ rs) = ap (λ l. (if test r then f r else r) ∷ l) (change-map test f rs)

  pub change-append :
      (test : Row → Bool) (f : Row → Row) (rs qs : List Row)
      → change test f (rs ++ qs) ≡ change test f rs ++ change test f qs
  unfolding change
  change-append test f [] qs = refl
  change-append test f (r ∷ rs) qs =
      ap (λ l. (if test r then f r else r) ∷ l) (change-append test f rs qs)

  -- what no row fits is not found, and changes nothing
  pub find-none :
      (test : Row → Bool) (rs : List Row) → All (λ r. test r ≡ false) rs → find test rs ≡ none
  unfolding find
  find-none test [] h = refl
  find-none test (r ∷ rs) h = ground (arith, find-none test rs h.1)

  pub change_none :
      (test : Row → Bool) (f : Row → Row) (rs : List Row)
      → All (λ r. test r ≡ false) rs
      → change test f rs ≡ rs
  unfolding change
  change_none test f [] h = refl
  change_none test f (r ∷ rs) h = ground (arith, change_none test f rs h.1)

  pub All-map : (P Q : Row → Type 0) (rs : List Row) → ((r : Row) → P r → Q r) → All P rs → All Q rs
  All-map P Q [] f h = tt
  All-map P Q (r ∷ rs) f h = (f r h.0, All-map P Q rs f h.1)
