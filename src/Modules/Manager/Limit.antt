-- ===== src/Modules/Manager/Limit.antt =====
-- The limit of the plan on the modules that a user has enabled.
use trelgream_self_userbot.Prelude.{
  ℕ, suc, ◌≤◌, ◌<◌, ◌≡◌, ◌≢◌, refl, sym, ap, true, false, Option, none, some, List, [], ◌∷◌, ◌++◌,
  ◌==◌, ==_iff, subst, leb, length, arith, Bool-cases, inl, inr,
}
use trelgream_self_userbot.Core.Errors.{conflict}
use trelgream_self_userbot.Core.Exec.{Result, ok, err, continue}
use trelgream_self_userbot.Database.Table.{select, change, insert, one_or_none}
use trelgream_self_userbot.Database.Table.Find.{All}
use trelgream_self_userbot.Database.Table.Keyed.{by_id, IsKeyed, Distinct}
use trelgream_self_userbot.Database.Models.Billing.{Plan, Subscription}
use trelgream_self_userbot.Database.Models.Modules.{UserModule}
use trelgream_self_userbot.Database.State.{Database}
use trelgream_self_userbot.Billing.Repositories.{active_for_user, active_of}
use trelgream_self_userbot.Modules.Manager.{
  enable, enable_instance, enabled_count, is_enabled_for, check_limit, plan_of, with_enabled,
  instance_of, is_of,
}

abbrev pub count : ℕ → List UserModule → ℕ
count user_id rows = length (select (is_enabled_for user_id) rows)

module _ (user_id : ℕ) where
  -- no row has the key
  count-change_none :
      (i : ℕ) (rows : List UserModule)
      → All (λ u. u.id ≢ i) rows
      → count user_id (change (by_id (λ u. u.id) i) (with_enabled true) rows) ≡ count user_id rows
  unfolding select change
  count-change_none i [] h = refl
  count-change_none i (u ∷ rows) h = ground (arith, h.0, count-change_none i rows h.1)

  -- to enable the row of a key adds at most one
  count-change :
      (i : ℕ) (rows : List UserModule)
      → Distinct (λ u. u.id) rows
      → count user_id (change (by_id (λ u. u.id) i) (with_enabled true) rows)
        ≤ suc (count user_id rows)
  unfolding select change
  count-change i [] d = omega arith
  count-change i (u ∷ rows) d = elim (Bool-cases (u.id == i)) [
    | inl e ↦
        let same : u.id ≡ i = (==_iff u.id i).0 e in
        ground (arith, e, count-change_none i rows (subst (λ k. All (λ q. q.id ≢ k) rows) same d.0))
    | inr e ↦ ground (arith, e, count-change i rows d.1)
  ]

  count-append :
      (rows : List UserModule) (u : UserModule)
      → count user_id (rows ++ u ∷ []) ≤ suc (count user_id rows)
  unfolding select
  count-append [] u = ground arith
  count-append (r ∷ rows) u = ground (arith, count-append rows u)

module _ (user_id module_id : ℕ) (db : Database) (keyed : IsKeyed (λ u. u.id) db.user_modules) where
  enable_instance-count :
      (um : Option UserModule)
      → enabled_count user_id (enable_instance user_id module_id um db).1
        ≤ suc (enabled_count user_id db)
  unfolding enable_instance enabled_count insert
  enable_instance-count none = count-append user_id db.user_modules.rows _
  enable_instance-count (some u) = count-change user_id u.id db.user_modules.rows keyed.distinct

  abbrev after_lookup : Result (Option UserModule) → Database
  after_lookup (ok um) = (enable_instance user_id module_id um db).1
  after_lookup (err e) = db

  after_lookup-count :
      (r : Result (Option UserModule)) (limit : ℕ)
      → enabled_count user_id db < limit
      → enabled_count user_id (after_lookup r) ≤ limit
  after_lookup-count (ok um) limit h = omega (arith, enable_instance-count um)
  after_lookup-count (err e) limit h = omega arith

  enabled_state :
      (r : Result (Option UserModule))
      → (continue r (enable_instance user_id module_id) db).1 ≡ after_lookup r
  enabled_state (ok um) = refl
  enabled_state (err e) = refl

  module _ (active : Option Subscription) (plan : Plan)
      (subscribed : active_for_user user_id db ≡ (ok active, db))
      (of_plan : plan_of active db ≡ some plan) where
    found : one_or_none (select (active_of user_id) db.subscriptions.rows) ≡ ok active
    unfolding active_for_user
    found = ap (λ p. p.0) subscribed

    refused :
        leb plan.max_modules (enabled_count user_id db) ≡ true
        → enable user_id module_id db ≡ (err conflict, db)
    unfolding enable check_limit
    refused full = rw (found, of_plan, full)

    admitted :
        leb plan.max_modules (enabled_count user_id db) ≡ false
        → (enable user_id module_id db).1
          ≡ after_lookup (one_or_none (select (is_of user_id module_id) db.user_modules.rows))
    unfolding enable check_limit instance_of
    admitted room = rw (found, of_plan, room) (enabled_state _)

    -- Let the user have an active subscription with a plan. If no more modules of the user are enabled
    -- than the plan allows, then this is so after `enable` too, whether it returns or raises.
    pub enable_within :
        enabled_count user_id db ≤ plan.max_modules
        → enabled_count user_id (enable user_id module_id db).1 ≤ plan.max_modules
    enable_within within = elim (Bool-cases (leb plan.max_modules (enabled_count user_id db))) [
      | inl full ↦
          subst (λ p. enabled_count user_id p.1 ≤ plan.max_modules) (sym (refused full)) within
      | inr room ↦
          subst (λ d. enabled_count user_id d ≤ plan.max_modules) (sym (admitted room))
            (after_lookup-count _ plan.max_modules (ground arith))
    ]
