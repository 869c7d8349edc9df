-- ===== src/Database/Table/Keyed.antt =====
-- Tables whose keys are distinct and lie below the sequence, as the primary key keeps them.
use trelgream_self_userbot.Prelude.{
  ℕ, suc, ◌<◌, ◌≡◌, ◌≢◌, refl, Bool, none, some, List, [], ◌∷◌, ◌++◌, ◌==◌, if◌then◌else◌, arith,
}
use mathlib.Core.Option
use trelgream_self_userbot.Database.Table.{Table, change, find, insert}
use trelgream_self_userbot.Database.Table.Find.{All, All-append, All-change, find-append}

module _ {Row : Type 0} (key : Row → ℕ) where
  -- `session.get(model, i)`, and WHERE model.id = i
  abbrev pub by_id : ℕ → Row → Bool
  by_id i r = key r == i

  abbrev pub AllBelow : ℕ → List Row → Type 0
  AllBelow n rs = All (λ r. key r < n) rs

  abbrev pub Distinct : List Row → Type 0
  Distinct [] = Unit
  Distinct (r ∷ rs) = All (λ q. key q ≢ key r) rs × Distinct rs

  pub record IsKeyed (t : Table Row) : Type 0 where
    pub below : AllBelow t.next_id t.rows
    pub distinct : Distinct t.rows

  find-AllBelow : (i : ℕ) (rs : List Row) → AllBelow i rs → find (by_id i) rs ≡ none
  unfolding find
  find-AllBelow i [] h = refl
  find-AllBelow i (r ∷ rs) h = ground (arith, find-AllBelow i rs h.1)

  -- the new row is found under its key
  pub find-insert_new :
      (row : ℕ → Row) (t : Table Row)
      → ((i : ℕ) → key (row i) ≡ i)
      → IsKeyed t
      → find (by_id t.next_id) (insert row t).rows ≡ some (row t.next_id)
  unfolding insert find
  find-insert_new row t own h =
      rw (find-append (by_id t.next_id) t.rows (row t.next_id ∷ []))
        (ground (arith, find-AllBelow t.next_id t.rows h.below, own t.next_id))

  -- the rows that were there are found as before
  pub find-insert_old :
      (row : ℕ → Row) (t : Table Row) (i : ℕ) (r : Row)
      → find (by_id i) t.rows ≡ some r
      → find (by_id i) (insert row t).rows ≡ some r
  unfolding insert
  find-insert_old row t i r h =
      rw (find-append (by_id i) t.rows (row t.next_id ∷ [])) (ground arith)

  AllBelow-suc : (n : ℕ) (rs : List Row) → AllBelow n rs → AllBelow (suc n) rs
  AllBelow-suc n [] h = tt
  AllBelow-suc n (r ∷ rs) h = (omega arith, AllBelow-suc n rs h.1)

  AllBelow-ne :
      (k : Row) (rs : List Row) → AllBelow (key k) rs → Distinct rs → Distinct (rs ++ k ∷ [])
  AllBelow-ne k [] h d = (tt, tt)
  AllBelow-ne k (r ∷ rs) h d =
      (All-append (λ q. key q ≢ key r) rs (k ∷ []) d.0 (omega arith, tt), AllBelow-ne k rs h.1 d.1)

  pub insert-IsKeyed :
      (row : ℕ → Row) (t : Table Row)
      → ((i : ℕ) → key (row i) ≡ i)
      → IsKeyed t
      → IsKeyed (insert row t)
  unfolding insert
  insert-IsKeyed row t own h = record {
    below =
        All-append (λ r. key r < suc t.next_id) t.rows (row t.next_id ∷ [])
          (AllBelow-suc t.next_id t.rows h.below) (omega (arith, own t.next_id), tt);
    distinct = AllBelow-ne (row t.next_id) t.rows (rw (own t.next_id) h.below) h.distinct;
  }

  module _ (test : Row → Bool) (f : Row → Row) (keeps : (r : Row) → key (f r) ≡ key r) where
    Distinct-change : (rs : List Row) → Distinct rs → Distinct (change test f rs)
    unfolding change
    Distinct-change [] d = tt
    Distinct-change (r ∷ rs) d = (
      All-change (λ q. key q ≢ key r) (λ q. key q ≢ key (if test r then f r else r)) test f rs
          (λ q h t. λ e. h (same q e)) (λ q h t. λ e. h (other e)) d.0,
      Distinct-change rs d.1,
    )
      where
        head : key (if test r then f r else r) ≡ key r
        head = ground (arith, keeps r)

        same : (q : Row) → key (f q) ≡ key (if test r then f r else r) → key q ≡ key r
        same q e = ground (arith, keeps q, keeps r)

        other : {q : Row} → key q ≡ key (if test r then f r else r) → key q ≡ key r
        other e = ground (arith, keeps r)

    pub change-IsKeyed :
        (t : Table Row) → IsKeyed t → IsKeyed (record t { rows = change test f t.rows })
    change-IsKeyed t h = record {
      below =
          All-change (λ r. key r < t.next_id) (λ r. key r < t.next_id) test f t.rows
            (λ r b e. rw (keeps r) b) (λ r b e. b) h.below;
      distinct = Distinct-change t.rows h.distinct;
    }

    -- a row is found after a change if it was before, changed if it fits the test
    pub find-change :
        (i : ℕ) (rs : List Row)
        → find (by_id i) (change test f rs)
          ≡ (elim (find (by_id i) rs) [ none ↦ none | some r ↦ some (if test r then f r else r) ])
    unfolding find change
    find-change i [] = refl
    find-change i (r ∷ rs) = ground (arith, keeps r, find-change i rs)

  pub find-change_key :
      (i : ℕ) (f : Row → Row) (j : ℕ) (rs : List Row)
      → ((r : Row) → key (f r) ≡ key r)
      → find (by_id j) (change (by_id i) f rs)
        ≡ (if j == i then Option.map f (find (by_id j) rs) else find (by_id j) rs)
  unfolding find change
  find-change_key i f j [] keeps = ground arith
  find-change_key i f j (r ∷ rs) keeps = ground (arith, keeps r, find-change_key i f j rs keeps)

  -- the row that a change by key writes, seen under every key
  pub find-change_found :
      (i : ℕ) (f : Row → Row) (rs : List Row) (r : Row)
      → ((q : Row) → key (f q) ≡ key q)
      → find (by_id i) rs ≡ some r
      → (j : ℕ)
      → find (by_id j) (change (by_id i) f rs) ≡ (if j == i then some (f r) else find (by_id j) rs)
  find-change_found i f rs r keeps h j = ground (arith, find-change_key i f j rs keeps)
