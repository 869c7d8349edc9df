-- ===== src/Database/Table.antt =====
-- A table: its rows in the order of insertion, and the next value of the sequence behind its
-- auto-incremented primary key (`int_pk` of app/database/base.py).
pub mod Find
pub mod Keyed
pub mod Order
pub mod Selected
use trelgream_self_userbot.Prelude.{
  ℕ, suc, ◌≡◌, Bool, Option, none, some, List, [], ◌∷◌, ◌++◌, ◌==◌, if◌then◌else◌,
}
use trelgream_self_userbot.Core.Errors.{multiple_results_found}
use trelgream_self_userbot.Core.Exec.{Result, ok, err}

pub record Table (Row : Type 0) : Type 0 where
  pub rows : List Row
  pub next_id : ℕ

module _ {Row : Type 0} where
  -- SELECT … WHERE
  unfoldable pub select : (Row → Bool) → List Row → List Row
  select test [] = []
  select test (r ∷ rs) = let rest = select test rs in if test r then r ∷ rest else rest

  -- UPDATE … WHERE, or an assignment to the attributes of the loaded rows that fit
  unfoldable pub change : (Row → Bool) → (Row → Row) → List Row → List Row
  change test f [] = []
  change test f (r ∷ rs) = (if test r then f r else r) ∷ change test f rs

  -- the first row that fits
  unfoldable pub find : (Row → Bool) → List Row → Option Row
  find test [] = none
  find test (r ∷ rs) = if test r then some r else find test rs

  -- `scalar_one_or_none()`: more than one row is an error
  unfoldable pub one_or_none : List Row → Result (Option Row)
  one_or_none [] = ok none
  one_or_none (r ∷ []) = ok (some r)
  one_or_none (r ∷ q ∷ rs) = err multiple_results_found

  -- `session.add(row); flush()`: the row gets the next key
  unfoldable pub insert : (ℕ → Row) → Table Row → Table Row
  insert row t = record { rows = t.rows ++ row t.next_id ∷ []; next_id = suc t.next_id }
