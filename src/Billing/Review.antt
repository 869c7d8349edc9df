-- ===== src/Billing/Review.antt =====
-- A payment is reviewed once, and what two approvals for one user lead to.
use trelgream_self_userbot.Prelude.{
  ℕ, ◌+◌, ◌*◌, ◌<◌, String, ◌≡◌, sym, ap, subst, ◌∙◌, true, false, none, some, arith, ltb, ltb→lt,
  ==_iff, Bool-cases, Option-cases, inl, inr,
}
use trelgream_self_userbot.Core.Errors.{not_found, overflow_error, conflict}
use trelgream_self_userbot.Core.Exec.{Result, ok, err}
use trelgream_self_userbot.Core.Time.{day, end_of_time, later}
use trelgream_self_userbot.Database.Table.{find}
use trelgream_self_userbot.Database.Table.Find.{find-holds}
use trelgream_self_userbot.Database.Table.Keyed.{by_id}
use trelgream_self_userbot.Database.Models.Billing.{
  Plan, Subscription, Payment, PaymentStatus, is_pending,
}
use trelgream_self_userbot.Database.State.{Database}
use trelgream_self_userbot.Database.Repository.{get_or_raise}
use trelgream_self_userbot.Billing.Service.{approve_payment, approved, get_linked}
use trelgream_self_userbot.Billing.Approval.{
  payment_at, subscription_at, plan_at, IsApproved, approve_payment_lem,
}

-- The rows that an approval has read when it succeeds.
record Reviewed (i now : ℕ) (db : Database) : Type 0 where
  p : Payment
  plan : Plan
  sid : ℕ
  s : Subscription
  found_payment : payment_at i db ≡ some p
  under_review : p.status ≡ PaymentStatus.pending
  found_plan : plan_at p.plan_id db ≡ some plan
  linked : p.subscription_id ≡ some sid
  found_subscription : subscription_at sid db ≡ some s
  in_time : now + plan.duration_days * day < end_of_time

pub is_pending-eq : (st : PaymentStatus) → is_pending st ≡ true → st ≡ PaymentStatus.pending
is_pending-eq st h = ground arith

module _ (i admin_id : ℕ) (admin_role : String) (now ts : ℕ) (db : Database) where
  abbrev outcome : Result Payment
  outcome = (approve_payment i admin_id admin_role now ts db).0

  unknown_payment : payment_at i db ≡ none → outcome ≡ err not_found
  unfolding approve_payment get_or_raise find
  unknown_payment e = rw e

  module _ (p : Payment) (found : payment_at i db ≡ some p) where
    reviewed_before : is_pending p.status ≡ false → outcome ≡ err conflict
    unfolding approve_payment get_or_raise find
    reviewed_before e = rw (found, e)

    module _ (under_review : is_pending p.status ≡ true) where
      unknown_plan : plan_at p.plan_id db ≡ none → outcome ≡ err not_found
      unfolding approve_payment get_or_raise find
      unknown_plan e = rw (found, under_review, e)

      module _ (plan : Plan) (found_plan : plan_at p.plan_id db ≡ some plan) where
        unlinked : p.subscription_id ≡ none → outcome ≡ err not_found
        unfolding approve_payment get_or_raise get_linked find
        unlinked e = rw (found, under_review, found_plan, e)

        module _ (sid : ℕ) (linked : p.subscription_id ≡ some sid) where
          unknown_subscription : subscription_at sid db ≡ none → outcome ≡ err not_found
          unfolding approve_payment get_or_raise get_linked find
          unknown_subscription e = rw (found, under_review, found_plan, linked, e)

          too_long :
              (s : Subscription)
              → subscription_at sid db ≡ some s
              → ltb (now + plan.duration_days * day) end_of_time ≡ false
              → outcome ≡ err overflow_error
          unfolding approve_payment get_or_raise get_linked later find
          too_long s e f = rw (found, under_review, found_plan, linked, e, f)

  module _ {q : Payment} (success : outcome ≡ ok q) where
    Reviewed-of_time :
        (p : Payment) (plan : Plan) (sid : ℕ) (s : Subscription)
        → payment_at i db ≡ some p
        → is_pending p.status ≡ true
        → plan_at p.plan_id db ≡ some plan
        → p.subscription_id ≡ some sid
        → subscription_at sid db ≡ some s
        → Reviewed i now db
    Reviewed-of_time p plan sid s e₁ e₂ e₃ e₄ e₅ =
        elim (Bool-cases (ltb (now + plan.duration_days * day) end_of_time)) [
          | inr e ↦ cc (too_long p e₁ e₂ plan e₃ sid e₄ s e₅ e, success)
          | inl e ↦ record {
            p = p;
            plan = plan;
            sid = sid;
            s = s;
            found_payment = e₁;
            under_review = is_pending-eq p.status e₂;
            found_plan = e₃;
            linked = e₄;
            found_subscription = e₅;
            in_time = ltb→lt _ _ e;
          }
        ]

    Reviewed-of_plan :
        (p : Payment) (plan : Plan)
        → payment_at i db ≡ some p
        → is_pending p.status ≡ true
        → plan_at p.plan_id db ≡ some plan
        → Reviewed i now db
    Reviewed-of_plan p plan e₁ e₂ e₃ = elim (Option-cases p.subscription_id) [
      | inl e ↦ cc (unlinked p e₁ e₂ plan e₃ e, success)
      | inr (sid, e₄) ↦ elim (Option-cases (subscription_at sid db)) [
        | inl e ↦ cc (unknown_subscription p e₁ e₂ plan e₃ sid e₄ e, success)
        | inr (s, e₅) ↦ Reviewed-of_time p plan sid s e₁ e₂ e₃ e₄ e₅
      ]
    ]

    approve_payment-Reviewed : Reviewed i now db
    approve_payment-Reviewed = elim (Option-cases (payment_at i db)) [
      | inl e ↦ cc (unknown_payment e, success)
      | inr (p, e₁) ↦ elim (Bool-cases (is_pending p.status)) [
        | inr e ↦ cc (reviewed_before p e₁ e, success)
        | inl e₂ ↦ elim (Option-cases (plan_at p.plan_id db)) [
          | inl e ↦ cc (unknown_plan p e₁ e₂ e, success)
          | inr (plan, e₃) ↦ Reviewed-of_plan p plan e₁ e₂ e₃
        ]
      ]
    ]

-- An approval that succeeds had a payment under review, with its plan and its subscription, and
-- leaves the database as `IsApproved` says.
pub approve_payment-IsApproved :
    (i admin_id : ℕ) (admin_role : String) (now ts : ℕ) (db : Database) {q : Payment}
    {db' : Database}
    → approve_payment i admin_id admin_role now ts db ≡ (ok q, db')
    → (p : Payment) × (plan : Plan) × (s : Subscription) × (p.status ≡ PaymentStatus.pending)
      × (payment_at i db ≡ some p)
      × (p.subscription_id ≡ some s.id)
      × (subscription_at s.id db ≡ some s)
      × IsApproved i admin_id admin_role now ts p plan s db db'
approve_payment-IsApproved i a role now ts db success =
    let r = approve_payment-Reviewed i a role now ts db (ap (λ o. o.0) success) in
    let (db₁, run, approved) =
      approve_payment_lem i r.sid a role now ts r.p r.plan r.s db r.found_payment r.under_review
        r.found_plan r.linked r.found_subscription r.in_time in
    let same : db₁ ≡ _ = ap (λ o. o.1) (sym run ∙ success) in
    let key : r.sid ≡ r.s.id = sym (
      (==_iff r.s.id r.sid).0
        (find-holds (by_id (λ q. q.id) r.sid) db.subscriptions.rows r.s r.found_subscription)) in
    (
      r.p,
      r.plan,
      r.s,
      r.under_review,
      r.found_payment,
      r.linked ∙ ap some key,
      subst (λ k. subscription_at k db ≡ some r.s) key r.found_subscription,
      subst (λ d. IsApproved i a role now ts r.p r.plan r.s db d) same approved,
    )
