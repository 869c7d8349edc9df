-- ===== src/Billing/Purchase.antt =====
-- What a purchase adds to the database, and when it is refused.
pub mod Outcomes
use trelgream_self_userbot.Prelude.{
  ℕ, suc, ◌<◌, String, ◌≡◌, ◌≢◌, refl, sym, ap, ◌∙◌, Bool, true, false, not, Option, none, some,
  List, [], ◌∷◌, ◌++◌, ◌==◌, if◌then◌else◌, arith, Bool-cases, inl, inr, is_some, ==_iff, ==_refl,
}
use trelgream_self_userbot.Prelude.Text.{text_eq, text_eq_iff}
use trelgream_self_userbot.Core.Errors.{Exception, conflict, not_found, integrity_error}
use trelgream_self_userbot.Core.Exec.{Result, ok, err}
use trelgream_self_userbot.Database.Table.{Table, select, change, find, insert}
use trelgream_self_userbot.Database.Table.Find.{
  All, All-both, All-map, All-append, find-none, change_none, change-append,
}
use trelgream_self_userbot.Database.Table.Keyed.{by_id, IsKeyed, insert-IsKeyed, change-IsKeyed}
use trelgream_self_userbot.Database.Models.Billing.{
  Plan, Subscription, SubscriptionStatus, Payment, PaymentStatus,
}
use trelgream_self_userbot.Database.State.{Database}
use trelgream_self_userbot.Database.Repository.{get_or_raise, add}
use trelgream_self_userbot.Billing.Repositories.{active_for_user}
use trelgream_self_userbot.Billing.Reference.{
  reference_of, placeholder, reference_of-injective, reference_of-ne-placeholder,
}
use trelgream_self_userbot.Billing.Service.{
  purchase, create_payment, reference_is_free, referenced, new_subscription, new_payment,
}
use trelgream_self_userbot.Billing.Approval.{plan_at}

-- The payments have distinct keys, and each has the reference of its key.
pub record HasReferences (payments : Table Payment) : Type 0 where
  pub keyed : IsKeyed (λ p. p.id) payments
  pub referenced_by_id : All (λ p. p.reference ≡ reference_of p.id) payments.rows

-- the payment of a purchase
abbrev pub sold : (user_id : ℕ) (plan : Plan) (subscription_id id : ℕ) → Payment
sold user_id plan subscription_id id = record {
  id = id;
  reference = reference_of id;
  user_id = user_id;
  plan_id = plan.id;
  subscription_id = some subscription_id;
  amount = plan.price;
  status = PaymentStatus.pending;
  method = "card";
  reviewed_by = none;
  reviewed_at = none;
  reject_reason = none;
}

-- a subscription that waits for its payment
abbrev pub awaiting_payment : (user_id plan_id id : ℕ) → Subscription
awaiting_payment user_id plan_id id = record {
  id = id;
  user_id = user_id;
  plan_id = plan_id;
  status = SubscriptionStatus.pending;
  started_at = none;
  expires_at = none;
}

text_eq_ne : (s t : List ℕ) → s ≢ t → text_eq s t ≡ false
text_eq_ne s t ne = ground (arith, text_eq_iff s t)

module _ (payments : Table Payment) (valid : HasReferences payments) where
  placeholder_is_free : All (λ p. referenced placeholder p ≡ false) payments.rows
  placeholder_is_free =
      All-map (λ p. p.reference ≡ reference_of p.id) (λ p. referenced placeholder p ≡ false)
        payments.rows
        (λ p own.
          text_eq_ne p.reference placeholder
            (λ e. cc (reference_of-ne-placeholder p.id, own, e, text_eq_refl)))
        valid.referenced_by_id
    where
      text_eq_refl : text_eq placeholder placeholder ≡ true
      text_eq_refl = (text_eq_iff placeholder placeholder).1 refl

  next_is_free : All (λ p. referenced (reference_of payments.next_id) p ≡ false) payments.rows
  next_is_free =
      All-both (λ p. p.reference ≡ reference_of p.id) (λ p. p.id < payments.next_id)
        (λ p. referenced (reference_of payments.next_id) p ≡ false) payments.rows
        (λ p own below.
          text_eq_ne p.reference (reference_of payments.next_id) (λ e.
            absurd (omega (arith, reference_of-injective p.id payments.next_id (sym own ∙ e)))))
        valid.referenced_by_id valid.keyed.below

  next_is_new : All (λ p. by_id (λ q. q.id) payments.next_id p ≡ false) payments.rows
  next_is_new =
      All-map (λ p. p.id < payments.next_id) (λ p. by_id (λ q. q.id) payments.next_id p ≡ false)
        payments.rows (λ p below. ground arith) valid.keyed.below

  abbrev stored : List Payment → Payment → List Payment
  stored rows p = rows ++ p ∷ []

  abbrev renamed : Payment → Payment
  renamed p = record p { reference = reference_of payments.next_id }

  module _ (p : Payment) (own : p.id ≡ payments.next_id) (unnamed : p.reference ≡ placeholder) where
    renamed_is_free :
        find (referenced (reference_of payments.next_id)) (stored payments.rows p) ≡ none
    renamed_is_free = find-none _ _ (
        All-append (λ q. referenced (reference_of payments.next_id) q ≡ false) payments.rows
          (p ∷ []) next_is_free
          (
            cc (
              ap (λ t. text_eq t (reference_of payments.next_id)) unnamed,
              reference_of-ne-placeholder payments.next_id,
            ),
            tt,
          ))

    renamed_one : change (by_id (λ q. q.id) payments.next_id) renamed (p ∷ []) ≡ renamed p ∷ []
    unfolding change
    renamed_one = ground (arith, own)

    renamed_only :
        change (by_id (λ q. q.id) payments.next_id) renamed (stored payments.rows p)
        ≡ stored payments.rows (renamed p)
    renamed_only =
        let test = by_id (λ (q : Payment). q.id) payments.next_id in
        change-append test renamed payments.rows (p ∷ [])
        ∙ ap (λ l. l ++ change test renamed (p ∷ []))
            (change_none test renamed payments.rows next_is_new)
        ∙ ap (λ l. payments.rows ++ l) renamed_one

module _ (user_id plan_id : ℕ) (plan : Plan) (db : Database)
    (found : plan_at plan_id db ≡ some plan) where
  module _ (valid : HasReferences db.payments) (on_sale : plan.is_active ≡ true)
      (free : active_for_user user_id db ≡ (ok none, db)) where
    abbrev payment : Payment
    payment = sold user_id plan db.subscriptions.next_id db.payments.next_id

    abbrev after : Database
    after = record db {
      subscriptions = insert (awaiting_payment user_id plan.id) db.subscriptions;
      payments = insert (sold user_id plan db.subscriptions.next_id) db.payments;
    }

    -- Let every payment have the reference of its id, and the ids be distinct and below the next one. A
    -- user with no active subscription who buys a plan on sale gets one pending subscription to it and
    -- one pending payment for it: the payment has the plan's price, names the subscription, and
    -- its reference is that of its id. Nothing else changes, and no uniqueness check fails.
    pub purchase_lem : purchase user_id plan_id db ≡ (ok payment, after)
    unfolding purchase get_or_raise create_payment reference_is_free add insert
    purchase_lem =
        let p = new_payment user_id plan db.subscriptions.next_id db.payments.next_id in
        rw (
          found,
          on_sale,
          free,
          find-none _ _ (placeholder_is_free db.payments valid),
          renamed_is_free db.payments valid p refl refl,
          renamed_only db.payments valid p refl refl,
        )
