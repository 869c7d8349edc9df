-- ===== src/Database/Tenancy.antt =====
-- The tenant isolation of `BaseRepository`.
use trelgream_self_userbot.Prelude.{
  ℕ, ◌≤◌, ◌≡◌, refl, Bool, true, false, ◌&&◌, Option, none, some, List, [], ◌∷◌, ◌==◌,
  if◌then◌else◌, arith, length, take, drop, Bool-cases, Option-cases, inl, inr, ==_iff,
}
use trelgream_self_userbot.Core.Errors.{attribute_error, not_found, tenant_violation}
use trelgream_self_userbot.Core.Exec.{ok, err}
use trelgream_self_userbot.Database.Table.{select, find}
use trelgream_self_userbot.Database.Table.Find.{All}
use trelgream_self_userbot.Database.Table.Keyed.{by_id}
use trelgream_self_userbot.Database.Table.Order.{order_by, All-order_by}
use trelgream_self_userbot.Database.State.{Database}
use trelgream_self_userbot.Database.Repository.{
  Model, rows_of, owned_by, newest_first, get_for_tenant, is_owned, list_for_tenant,
}

module _ {Row : Type 0} (P : Row → Type 0) where
  pub All-take : (n : ℕ) (rs : List Row) → All P rs → All P (take n rs)
  All-take ℕ.zero rs h = tt
  All-take (ℕ.suc n) [] h = tt
  All-take (ℕ.suc n) (r ∷ rs) h = (h.0, All-take n rs h.1)

  All-drop : (n : ℕ) (rs : List Row) → All P rs → All P (drop n rs)
  All-drop ℕ.zero rs h = h
  All-drop (ℕ.suc n) [] h = tt
  All-drop (ℕ.suc n) (r ∷ rs) h = All-drop n rs h.1

module _ {Row : Type 0} where
  pub All-select :
      (P : Row → Type 0) (test : Row → Bool) (rs : List Row)
      → ((r : Row) → test r ≡ true → P r)
      → All P (select test rs)
  unfolding select
  All-select P test [] h = tt
  All-select P test (r ∷ rs) h = elim (Bool-cases (test r)) [
    | inl t ↦ rw t (h r t, All-select P test rs h)
    | inr t ↦ rw t (All-select P test rs h)
  ]

  length-take-le : (n : ℕ) (rs : List Row) → length (take n rs) ≤ n
  length-take-le ℕ.zero rs = omega arith
  length-take-le (ℕ.suc n) [] = omega arith
  length-take-le (ℕ.suc n) (r ∷ rs) = omega (arith, length-take-le n rs)

module _ {Row : Type 0} (model : Model Row) (tenant_id : ℕ) (db : Database) where
  missing :
      (i : ℕ)
      → find (by_id model.id i) (rows_of model db) ≡ none
      → get_for_tenant model i tenant_id db ≡ (err not_found, db)
  unfolding get_for_tenant
  missing i e = rw e

  -- A row is handed only to its tenant: another tenant gets the same NotFoundError as for a key that
  -- no row has, so the error does not tell whether the row exists. A row with no tenant raises
  -- TenantViolationError. Nothing is written.
  pub get_for_tenant_lem :
      (i j : ℕ) (row : Row) (owner : Option ℕ)
      → find (by_id model.id i) (rows_of model db) ≡ some row
      → find (by_id model.id j) (rows_of model db) ≡ none
      → model.tenant row ≡ owner
      → (get_for_tenant model j tenant_id db ≡ (err not_found, db))
        × (get_for_tenant model i tenant_id db ≡ (elim owner [
          | none ↦ (err tenant_violation, db)
          | some o ↦ if o == tenant_id then (ok row, db) else get_for_tenant model j tenant_id db
        ]))
  unfolding get_for_tenant
  get_for_tenant_lem i j row none found absent own = (missing j absent, rw (found, own, is_owned))
  get_for_tenant_lem i j row (some o) found absent own = elim (Bool-cases (o == tenant_id)) [
    | inl e ↦ (missing j absent, rw (found, own, is_owned, e))
    | inr e ↦ (missing j absent, rw (found, own, is_owned, e, absent))
  ]

  owned-tenant : (r : Row) → owned_by model tenant_id r ≡ true → model.tenant r ≡ some tenant_id
  owned-tenant r h = elim (Option-cases (model.tenant r)) [
    | inl e ↦ cc (rw (e, owned_by) at h)
    | inr (o, e) ↦ cc (e, (==_iff o tenant_id).0 (rw (e, owned_by) at h))
  ]

  and-true : (a b : Bool) → (a && b) ≡ true → a ≡ true
  and-true true b h = refl
  and-true false b h = h

  -- A listing of a model with the tenant column returns only rows of the tenant that asks, whatever the
  -- filters, and no more of them than the limit. For a model without the column it raises
  -- AttributeError. Nothing is written.
  pub list_for_tenant_lem :
      (limit offset : ℕ) (filters : Row → Bool)
      → (rows : List Row) × (list_for_tenant model tenant_id limit offset filters db
          ≡ (if model.has_tenant then ok rows else err attribute_error, db))
        × All (λ r. model.tenant r ≡ some tenant_id) rows
        × (length rows ≤ limit)
  unfolding list_for_tenant
  list_for_tenant_lem limit offset filters =
      let own : Row → Type 0 = λ r. model.tenant r ≡ some tenant_id in
      let chosen = select (λ r. owned_by model tenant_id r && filters r) (rows_of model db) in
      let page = drop offset (order_by (newest_first model) chosen) in
      (
        take limit page,
        refl,
        All-take own limit page (
            All-drop own offset _ (
              All-order_by (newest_first model) own chosen (
                All-select own _ (rows_of model db)
                  (λ r h. owned-tenant r (and-true (owned_by model tenant_id r) (filters r) h))))),
        length-take-le limit page,
      )
