-- ===== src/Billing/Approval.antt =====
-- What an approval and a rejection do to a payment that is under review.
use trelgream_self_userbot.Prelude.{
  ℕ, ◌+◌, ◌*◌, ◌<◌, String, ◌≡◌, refl, sym, subst, ◌∙◌, Option, some, ◌==◌, if◌then◌else◌, arith,
  lt→ltb, ==_iff, ==_refl,
}
use trelgream_self_userbot.Core.Exec.{ok}
use trelgream_self_userbot.Core.Time.{day, end_of_time, later}
use trelgream_self_userbot.Security.{record_audit}
use trelgream_self_userbot.Database.Table.{change, find, insert}
use trelgream_self_userbot.Database.Table.Find.{find-holds}
use trelgream_self_userbot.Database.Table.Keyed.{by_id, find-change_found}
use trelgream_self_userbot.Database.Models.Billing.{
  Plan, Subscription, SubscriptionStatus, Payment, PaymentStatus,
}
use trelgream_self_userbot.Database.Models.Userbots.{stopped}
use trelgream_self_userbot.Database.Models.Audit.{AuditLog}
use trelgream_self_userbot.Database.State.{Database}
use trelgream_self_userbot.Database.Repository.{get_or_raise}
use trelgream_self_userbot.Userbots.Status.{with_status, change-with_status}
use trelgream_self_userbot.Billing.Service.{
  approve_payment, approved, activated, change_payment, change_subscription, set_userbot_status,
  get_linked,
}

abbrev pub payment_at : ℕ → Database → Option Payment
payment_at i db = find (by_id (λ p. p.id) i) db.payments.rows

abbrev pub subscription_at : ℕ → Database → Option Subscription
subscription_at i db = find (by_id (λ s. s.id) i) db.subscriptions.rows

abbrev pub plan_at : ℕ → Database → Option Plan
plan_at i db = find (by_id (λ p. p.id) i) db.plans.rows

abbrev pub review_log :
    (action : String) (admin_id : ℕ) (admin_role : String) (ts : ℕ) → Payment → ℕ → AuditLog
review_log action admin_id admin_role ts p i = record {
  id = i;
  ts = ts;
  actor_id = some admin_id;
  actor_role = some admin_role;
  action = action;
  target_type = some "PAYMENT";
  target_id = some p.reference;
  result = "SUCCESS";
}

-- The database after payment `i`, which is `p`, has been approved for subscription `s` under `plan`.
pub record IsApproved (i admin_id : ℕ) (admin_role : String) (now ts : ℕ) (p : Payment)
    (plan : Plan) (s : Subscription) (db db' : Database) : Type 0 where
  pub payments :
      (j : ℕ)
      → payment_at j db' ≡ (if j == i then some (approved admin_id now p) else payment_at j db)
  pub subscriptions :
      (j : ℕ)
      → subscription_at j db' ≡ (
          if j == s.id
          then some (activated plan.id now (now + plan.duration_days * day) s)
          else subscription_at j db)
  pub userbots : db'.userbots.rows ≡ with_status s.user_id stopped db.userbots.rows
  pub audit :
      db'.audit_logs ≡ insert (review_log "APPROVE_PAYMENT" admin_id admin_role ts p) db.audit_logs
  pub plans : db'.plans ≡ db.plans

module _ (i sid admin_id : ℕ) (admin_role : String) (now ts : ℕ) (p : Payment) (plan : Plan)
    (s : Subscription) (db : Database) (found_payment : payment_at i db ≡ some p)
    (under_review : p.status ≡ PaymentStatus.pending)
    (found_plan : plan_at p.plan_id db ≡ some plan) (linked : p.subscription_id ≡ some sid)
    (found_subscription : subscription_at sid db ≡ some s)
    (in_time : now + plan.duration_days * day < end_of_time) where
  abbrev expires : ℕ
  expires = now + plan.duration_days * day

  abbrev after : Database
  after =
      let db₁ = change_payment p.id (approved admin_id now) db in
      let db₂ =
        change_subscription s.id
          (λ r. record r {
            plan_id = plan.id;
            status = SubscriptionStatus.active;
            started_at = some now;
          })
          db₁ in
      let db₃ = change_subscription s.id (λ r. record r { expires_at = some expires }) db₂ in
      let db₄ = set_userbot_status s.user_id stopped db₃ in
      (record_audit ts (some admin_id) (some admin_role) "APPROVE_PAYMENT" (some "PAYMENT")
        (some p.reference) "SUCCESS" db₄).1

  run : approve_payment i admin_id admin_role now ts db ≡ (ok (approved admin_id now p), after)
  unfolding approve_payment get_or_raise get_linked later record_audit
  run = rw (found_payment, under_review, found_plan, linked, found_subscription, lt→ltb _ _ in_time)

  key_of_payment : p.id ≡ i
  key_of_payment =
      (==_iff p.id i).0 (find-holds (by_id (λ q. q.id) i) db.payments.rows p found_payment)

  key_of_subscription : s.id ≡ sid
  key_of_subscription =
      (==_iff s.id sid).0
        (find-holds (by_id (λ q. q.id) sid) db.subscriptions.rows s found_subscription)

  payments_after :
      (j : ℕ)
      → payment_at j after ≡ (if j == i then some (approved admin_id now p) else payment_at j db)
  unfolding record_audit
  payments_after j =
      let rows = db.payments.rows in
      let here : payment_at p.id db ≡ some p =
        subst (λ k. payment_at k db ≡ some p) (sym key_of_payment) found_payment in
      ground (
        arith,
        key_of_payment,
        find-change_found (λ q. q.id) p.id (approved admin_id now) rows p (λ q. refl) here j,
      )

  subscriptions_after :
      (j : ℕ)
      → subscription_at j after
        ≡ (if j == s.id then some (activated plan.id now expires s) else subscription_at j db)
  unfolding record_audit
  subscriptions_after j =
      let begin : Subscription → Subscription = λ r. record r {
        plan_id = plan.id;
        status = SubscriptionStatus.active;
        started_at = some now;
      } in
      let finish : Subscription → Subscription = λ r. record r { expires_at = some expires } in
      let rows = db.subscriptions.rows in
      let here : subscription_at s.id db ≡ some s =
        subst (λ k. subscription_at k db ≡ some s) (sym key_of_subscription) found_subscription in
      let began = find-change_found (λ q. q.id) s.id begin rows s (λ q. refl) here in
      ground (
        arith,
        began j,
        began s.id,
        find-change_found (λ q. q.id) s.id finish (change (by_id (λ q. q.id) s.id) begin rows)
            (begin s) (λ q. refl) (began s.id ∙ rw (==_refl s.id)) j,
      )

  userbots_after : after.userbots.rows ≡ with_status s.user_id stopped db.userbots.rows
  unfolding record_audit
  userbots_after = change-with_status s.user_id stopped db.userbots.rows

  -- Let the days of the plan end before the last instant of datetime. A payment under review whose
  -- plan and subscription exist is then approved: the payment is marked as approved by the admin, its
  -- subscription is active from now for the days of the plan, the userbots of the subscriber are all
  -- STOPPED, and the audit log has one more row. Every other payment, subscription and userbot, and
  -- every plan, is as before.
  pub approve_payment_lem :
      (db' : Database) × (approve_payment i admin_id admin_role now ts db
        ≡ (ok (approved admin_id now p), db'))
      × IsApproved i admin_id admin_role now ts p plan s db db'
  unfolding record_audit
  approve_payment_lem = (
    after,
    run,
    record {
      payments = payments_after;
      subscriptions = subscriptions_after;
      userbots = userbots_after;
      audit = refl;
      plans = refl;
    },
  )
