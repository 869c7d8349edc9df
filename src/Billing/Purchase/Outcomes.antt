-- ===== src/Billing/Purchase/Outcomes.antt =====
-- Every outcome of a purchase: refused with nothing written, or sold.
use trelgream_self_userbot.Prelude.{
  ℕ, ◌≡◌, refl, ap, true, false, Option, none, some, [], ◌∷◌, ◌⊎◌, inl, inr, Bool-cases,
  Option-cases,
}
use trelgream_self_userbot.Core.Errors.{Exception, conflict, not_found}
use trelgream_self_userbot.Core.Exec.{Result, ok, err}
use trelgream_self_userbot.Database.Table.{select, insert, one_or_none}
use trelgream_self_userbot.Database.Table.Find.{All-append}
use trelgream_self_userbot.Database.Table.Keyed.{insert-IsKeyed}
use trelgream_self_userbot.Database.Models.Billing.{Plan, Subscription, Payment}
use trelgream_self_userbot.Database.State.{Database}
use trelgream_self_userbot.Database.Repository.{get_or_raise}
use trelgream_self_userbot.Billing.Repositories.{active_for_user, active_of}
use trelgream_self_userbot.Billing.Reference.{reference_of}
use trelgream_self_userbot.Billing.Service.{purchase, new_subscription}
use trelgream_self_userbot.Billing.Approval.{plan_at}
use trelgream_self_userbot.Billing.Purchase.{HasReferences, sold, purchase_lem}

-- The purchase is refused with `e`, and nothing is written.
abbrev Refused : (user_id plan_id : ℕ) → Database → Exception → Type 0
Refused user_id plan_id db e = purchase user_id plan_id db ≡ (err e, db)

-- The purchase is made.
record Sold (user_id plan_id : ℕ) (db : Database) : Type 0 where
  plan : Plan
  found : plan_at plan_id db ≡ some plan
  result : purchase user_id plan_id db ≡ (
    ok (sold user_id plan db.subscriptions.next_id db.payments.next_id),
    record db {
      subscriptions = insert (new_subscription user_id plan.id) db.subscriptions;
      payments = insert (sold user_id plan db.subscriptions.next_id) db.payments;
    },
  )

module _ (user_id plan_id : ℕ) (db : Database) where
  unknown_plan : plan_at plan_id db ≡ none → Refused user_id plan_id db not_found
  unfolding purchase get_or_raise
  unknown_plan e = rw e

  module _ (plan : Plan) (found : plan_at plan_id db ≡ some plan) where
    off_sale : plan.is_active ≡ false → Refused user_id plan_id db conflict
    unfolding purchase get_or_raise
    off_sale e = rw (found, e)

    module _ (on_sale : plan.is_active ≡ true) where
      subscribed :
          (s : Subscription)
          → active_for_user user_id db ≡ (ok (some s), db)
          → Refused user_id plan_id db conflict
      unfolding purchase get_or_raise
      subscribed s e = rw (found, on_sale, e)

      lookup_fails :
          (e : Exception) → active_for_user user_id db ≡ (err e, db) → Refused user_id plan_id db e
      unfolding purchase get_or_raise
      lookup_fails e h = rw (found, on_sale, h)

      active_cases :
          (r : Result (Option Subscription))
          → active_for_user user_id db ≡ (r, db)
          → HasReferences db.payments
          → ((e : Exception) × Refused user_id plan_id db e) ⊎ Sold user_id plan_id db
      active_cases (err e) h valid = inl (e, lookup_fails e h)
      active_cases (ok (some s)) h valid = inl (conflict, subscribed s h)
      active_cases (ok none) h valid = inr (record {
        plan = plan;
        found = found;
        result = purchase_lem user_id plan_id plan db found valid on_sale h;
      })

  active_for_user-eq :
      active_for_user user_id db
      ≡ (one_or_none (select (active_of user_id) db.subscriptions.rows), db)
  unfolding active_for_user
  active_for_user-eq = refl

  purchase_cases :
      HasReferences db.payments
      → ((e : Exception) × Refused user_id plan_id db e) ⊎ Sold user_id plan_id db
  purchase_cases valid = elim (Option-cases (plan_at plan_id db)) [
    | inl e ↦ inl (not_found, unknown_plan e)
    | inr (plan, found) ↦ elim (Bool-cases plan.is_active) [
      | inr e ↦ inl (conflict, off_sale plan found e)
      | inl e ↦ active_cases plan found e _ active_for_user-eq valid
    ]
  ]

  -- In a database whose payments have the references of their ids, a purchase leaves them so, and a
  -- purchase that raises has written nothing at all.
  pub purchase-HasReferences :
      (valid : HasReferences db.payments)
      → HasReferences (purchase user_id plan_id db).1.payments
        × (((purchase user_id plan_id db).1 ≡ db)
            ⊎ ((p : Payment) × ((purchase user_id plan_id db).0 ≡ ok p)))
  purchase-HasReferences valid = elim (purchase_cases valid) [
    | inl (e, refused) ↦ (rw refused valid, inl (ap (λ r. r.1) refused))
    | inr s ↦
        let plan = s.plan in
        let row = sold user_id plan db.subscriptions.next_id in
        (
          rw s.result (record {
            keyed = insert-IsKeyed (λ p. p.id) row db.payments (λ i. refl) valid.keyed;
            referenced_by_id =
                unfold insert in
                All-append (λ p. p.reference ≡ reference_of p.id) db.payments.rows
                  (row db.payments.next_id ∷ []) valid.referenced_by_id (refl, tt);
          }),
          inr (row db.payments.next_id, ap (λ r. r.0) s.result),
        )
  ]
