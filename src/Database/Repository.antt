-- ===== src/Database/Repository.antt =====
-- app/database/repository.py: `BaseRepository`, with its tenant isolation.
use trelgream_self_userbot.Prelude.{
  ℕ, ltb, Bool, true, false, ◌&&◌, Option, none, some, List, ◌==◌, if◌then◌else◌, take, drop, ◌≡◌,
  ◌∙◌, Option-cases, inl, inr,
}
use trelgream_self_userbot.Core.Errors.{attribute_error, not_found, tenant_violation}
use trelgream_self_userbot.Core.Exec.{ok, err, Exec, pure, raise, ◌>>=◌}
use trelgream_self_userbot.Database.Table.{Table, select, change, find, insert}
use trelgream_self_userbot.Database.Table.Keyed.{by_id}
use trelgream_self_userbot.Database.Table.Order.{order_by}
use trelgream_self_userbot.Database.State.{Database}

-- What a repository class names: its model, with the table that it is mapped to, whether the model has
-- the tenant column, and the column of a row, `none` where there is no such column or it is NULL.
pub record Model (Row : Type 0) : Type 0 where
  pub id : Row → ℕ
  pub has_tenant : Bool
  pub tenant : Row → Option ℕ
  pub table : Database → Table Row
  pub with_table : Table Row → Database → Database
  pub table-with_table : (t : Table Row) (db : Database) → table (with_table t db) ≡ t

module _ {Row : Type 0} (model : Model Row) where
  abbrev pub rows_of : Database → List Row
  rows_of db = (model.table db).rows

  -- an assignment to the attributes of the rows that fit, in the session
  abbrev pub change_rows : (Row → Bool) → (Row → Row) → Database → Database
  change_rows test f db =
      let t = model.table db in
      model.with_table (record { rows = change test f t.rows; next_id = t.next_id }) db

  unfoldable pub get_row : ℕ → Exec Database (Option Row)
  get_row i db = (ok (find (by_id model.id i) (rows_of db)), db)

  unfoldable pub found : Option Row → Exec Database Row
  found none = raise not_found
  found (some row) = pure row

  unfoldable pub get_or_raise : ℕ → Exec Database Row
  unfolding get_row found
  get_or_raise i = do row ← get_row i; found row

  unfoldable pub is_owned : Row → ℕ → Exec Database Bool
  is_owned row tenant_id = elim (model.tenant row) [
    | none ↦ raise tenant_violation
    | some owner ↦ pure (owner == tenant_id)
  ]

  unfoldable pub get_for_tenant : ℕ → ℕ → Exec Database Row
  unfolding get_or_raise is_owned
  get_for_tenant i tenant_id = do
    row ← get_or_raise i
    owned ← is_owned row tenant_id
    if owned then pure row else raise not_found

  abbrev pub newest_first : Row → Row → Bool
  newest_first r q = ltb (model.id q) (model.id r)

  abbrev pub owned_by : ℕ → Row → Bool
  owned_by tenant_id row = elim (model.tenant row) [
    | none ↦ false
    | some owner ↦ owner == tenant_id
  ]

  -- `filters` is the conjunction of the keyword filters; the column is an attribute of the model
  unfoldable pub list_for_tenant : ℕ → (limit offset : ℕ) → (Row → Bool) → Exec Database (List Row)
  list_for_tenant tenant_id limit offset filters db = (
    if model.has_tenant
        then ok (
            take limit (
              drop offset (
                order_by newest_first
                  (select (λ row. owned_by tenant_id row && filters row) (rows_of db)))))
        else err attribute_error,
    db,
  )

  unfoldable pub add : (ℕ → Row) → Exec Database Row
  add row db =
      (ok (row (model.table db).next_id), model.with_table (insert row (model.table db)) db)

  unfoldable pub delete : Row → Exec Database (Unit {0})
  delete row db =
      let t = model.table db in
      (
        ok tt,
        model.with_table
            (record {
              rows = select (λ q. if model.id q == model.id row then false else true) t.rows;
              next_id = t.next_id;
            })
            db,
      )

  unfoldable pub assert_tenant : ℕ → ℕ → Exec Database Row
  unfolding get_for_tenant
  assert_tenant i tenant_id = get_for_tenant i tenant_id

  pub get_or_raise-eq-ok :
      (i : ℕ) (db : Database) {row : Row} {db' : Database}
      → get_or_raise i db ≡ (ok row, db')
      → (find (by_id model.id i) (rows_of db) ≡ some row) × (db' ≡ db)
  unfolding get_or_raise
  get_or_raise-eq-ok i db h = elim (Option-cases (find (by_id model.id i) (rows_of db))) [
    | inl e ↦ cc (rw e at h)
    | inr (row, e) ↦ let k = rw e at h in (e ∙ cc k, cc k)
  ]
