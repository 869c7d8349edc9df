-- ===== src/Database/Seed.antt =====
-- The rows that app/database/seed.py adds. The key of a row is unique; a row is added
-- unless there is one with its key.
mod Samples
pub mod Tables
pub mod Roles
use trelgream_self_userbot.Prelude.{
  ℕ, suc, ◌≡◌, refl, sym, ap, ◌∙◌, String, Bool, true, false, ◌||◌, Option, none, some, List, [],
  ◌∷◌, ◌++◌, map, any, str_eq, eq_refl, if◌then◌else◌, arith, Bool-cases, inl, inr,
}
use mathlib.Core.List.{append-nil, append_assoc}
use trelgream_self_userbot.Database.Json.{Json, null, bool, str, Fields, end, field}
use trelgream_self_userbot.Database.Table.{Table, insert}
use trelgream_self_userbot.Database.Table.Find.{All}
use trelgream_self_userbot.Database.Models.Billing.{Plan}
use trelgream_self_userbot.Database.Models.Modules.{Module}
use trelgream_self_userbot.Database.State.{Database}

module _ {A Row : Type 0} (key : A → String) (row : A → ℕ → Row) (key_of : Row → String) where
  -- `_exists(session, model, key=…)`
  abbrev pub exists : String → Table Row → Bool
  exists k t = any (λ r. str_eq (key_of r) k) t.rows

  abbrev pub seed_one : A → Table Row → Table Row
  seed_one a t = if exists (key a) t then t else insert (row a) t

  -- the query of a round sees the rows that the rounds before it added
  unfoldable pub seed_each : List A → Table Row → Table Row
  unfolding insert
  seed_each [] t = t
  seed_each (a ∷ items) t = seed_each items (seed_one a t)

  module _ (own : (a : A) (i : ℕ) → key_of (row a i) ≡ key a) where
    any-append :
        (test : Row → Bool) (rs : List Row) (r : Row)
        → any test (rs ++ r ∷ []) ≡ any test rs || test r
    any-append test [] r = ground arith
    any-append test (q ∷ rs) r = ground (arith, any-append test rs r)

    exists-seed_one :
        (k : String) (a : A) (t : Table Row) → exists k t ≡ true → exists k (seed_one a t) ≡ true
    unfolding insert
    exists-seed_one k a t h = elim (Bool-cases (exists (key a) t)) [
      | inl e ↦ rw e h
      | inr e ↦
          rw e (ground (arith, any-append (λ r. str_eq (key_of r) k) t.rows (row a t.next_id)))
    ]

    exists-own : (a : A) (t : Table Row) → exists (key a) (seed_one a t) ≡ true
    unfolding insert
    exists-own a t = elim (Bool-cases (exists (key a) t)) [
      | inl e ↦ rw e e
      | inr e ↦ rw e (
          any-append (λ r. str_eq (key_of r) (key a)) t.rows (row a t.next_id)
          ∙ rw (own a t.next_id, eq_refl (key a)) (ground arith))
    ]

    exists-seed_each :
        (k : String) (items : List A) (t : Table Row)
        → exists k t ≡ true
        → exists k (seed_each items t) ≡ true
    unfolding seed_each
    exists-seed_each k [] t h = h
    exists-seed_each k (a ∷ items) t h =
        exists-seed_each k items (seed_one a t) (exists-seed_one k a t h)

    pub each_exists :
        (items : List A) (t : Table Row)
        → All (λ a. exists (key a) (seed_each items t) ≡ true) items
    unfolding seed_each
    each_exists [] t = tt
    each_exists (a ∷ items) t = (
      exists-seed_each (key a) items (seed_one a t) (exists-own a t),
      each_exists items (seed_one a t),
    )

  seed_each-none :
      (items : List A) (t : Table Row)
      → All (λ a. exists (key a) t ≡ true) items
      → seed_each items t ≡ t
  unfolding seed_each
  seed_each-none [] t h = refl
  seed_each-none (a ∷ items) t h = rw h.0 (seed_each-none items t h.1)

  pub seed_each-seed_each :
      ((a : A) (i : ℕ) → key_of (row a i) ≡ key a)
      → (items : List A) (t : Table Row) → seed_each items (seed_each items t) ≡ seed_each items t
  seed_each-seed_each own items t =
      seed_each-none items (seed_each items t) (each_exists own items t)
