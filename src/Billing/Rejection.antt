-- ===== src/Billing/Rejection.antt =====
-- What a rejection does to a payment that is under review.
use mathlib.Core.Option
use trelgream_self_userbot.Prelude.{
  ℕ, String, ◌≡◌, refl, sym, subst, Bool, false, Option, none, some, ◌==◌, if◌then◌else◌, arith,
  ==_iff,
}
use trelgream_self_userbot.Core.Exec.{ok}
use trelgream_self_userbot.Security.{record_audit}
use trelgream_self_userbot.Database.Table.{insert}
use trelgream_self_userbot.Database.Table.Find.{find-holds}
use trelgream_self_userbot.Database.Table.Keyed.{by_id, find-change_found, find-change_key}
use trelgream_self_userbot.Database.Models.Billing.{
  Subscription, SubscriptionStatus, Payment, PaymentStatus, awaits,
}
use trelgream_self_userbot.Database.State.{Database}
use trelgream_self_userbot.Database.Repository.{get_or_raise}
use trelgream_self_userbot.Billing.Service.{
  reject_payment, rejected, cancel_pending, change_payment,
}
use trelgream_self_userbot.Billing.Approval.{payment_at, subscription_at, review_log}

abbrev is_linked : Option ℕ → ℕ → Bool
is_linked none j = false
is_linked (some i) j = j == i

abbrev cancelled : Subscription → Subscription
cancelled s = if awaits s.status then record s { status = SubscriptionStatus.cancelled } else s

-- The database after payment `i`, which is `p`, has been rejected.
pub record IsRejected (i admin_id : ℕ) (admin_role : String) (reason : Option String) (now ts : ℕ)
    (p : Payment) (db db' : Database) : Type 0 where
  pub payments :
      (j : ℕ)
      → payment_at j db'
        ≡ (if j == i then some (rejected admin_id now reason p) else payment_at j db)
  pub subscriptions :
      (j : ℕ)
      → subscription_at j db' ≡ (
          if is_linked p.subscription_id j
          then Option.map cancelled (subscription_at j db)
          else subscription_at j db)
  pub userbots : db'.userbots ≡ db.userbots
  pub audit :
      db'.audit_logs ≡ insert (review_log "REJECT_PAYMENT" admin_id admin_role ts p) db.audit_logs
  pub plans : db'.plans ≡ db.plans

subscriptions-cancel_pending :
    (o : Option ℕ) (j : ℕ) (db : Database)
    → subscription_at j (cancel_pending o db) ≡ (
        if is_linked o j then Option.map cancelled (subscription_at j db) else subscription_at j db)
unfolding cancel_pending
subscriptions-cancel_pending none j db = refl
subscriptions-cancel_pending (some i) j db =
    find-change_key (λ q. q.id) i cancelled j db.subscriptions.rows (λ q. ground arith)

-- what `cancel_pending` leaves alone
record SameButSubscriptions (db db' : Database) : Type 0 where
  payments : db'.payments ≡ db.payments
  userbots : db'.userbots ≡ db.userbots
  plans : db'.plans ≡ db.plans
  audit : db'.audit_logs ≡ db.audit_logs

cancel_pending-same : (o : Option ℕ) (db : Database) → SameButSubscriptions db (cancel_pending o db)
unfolding cancel_pending
cancel_pending-same none db = record {
  payments = refl;
  userbots = refl;
  plans = refl;
  audit = refl;
}
cancel_pending-same (some i) db = record {
  payments = refl;
  userbots = refl;
  plans = refl;
  audit = refl;
}

module _ (i admin_id : ℕ) (admin_role : String) (reason : Option String) (now ts : ℕ) (p : Payment)
    (db : Database) (found : payment_at i db ≡ some p)
    (under_review : p.status ≡ PaymentStatus.pending) where
  abbrev marked : Database
  marked = change_payment p.id (rejected admin_id now reason) db

  abbrev settled : Database
  settled = cancel_pending p.subscription_id marked

  abbrev after : Database
  after =
      (record_audit ts (some admin_id) (some admin_role) "REJECT_PAYMENT" (some "PAYMENT")
        (some p.reference) "SUCCESS" settled).1

  run :
      reject_payment i admin_id admin_role reason now ts db
      ≡ (ok (rejected admin_id now reason p), after)
  unfolding reject_payment get_or_raise record_audit
  run = rw (found, under_review)

  payments_after :
      (j : ℕ)
      → payment_at j after
        ≡ (if j == i then some (rejected admin_id now reason p) else payment_at j db)
  unfolding record_audit
  payments_after j =
      let rows = db.payments.rows in
      let key : p.id ≡ i = (==_iff p.id i).0 (find-holds (by_id (λ q. q.id) i) rows p found) in
      let here : payment_at p.id db ≡ some p =
        subst (λ k. payment_at k db ≡ some p) (sym key) found in
      ground (
        arith,
        (cancel_pending-same p.subscription_id marked).payments,
        find-change_found (λ q. q.id) p.id (rejected admin_id now reason) rows p (λ q. refl) here j,
      )

  -- A payment under review is rejected: it is marked with the admin and the reason, its subscription
  -- is cancelled if it still awaits the payment, and the audit log has one more row. Every other
  -- payment and subscription, and every userbot and plan, is as before.
  pub reject_payment_lem :
      (db' : Database) × (reject_payment i admin_id admin_role reason now ts db
        ≡ (ok (rejected admin_id now reason p), db'))
      × IsRejected i admin_id admin_role reason now ts p db db'
  unfolding record_audit
  reject_payment_lem =
      let same = cancel_pending-same p.subscription_id marked in
      (
        after,
        run,
        record {
          payments = payments_after;
          subscriptions = λ j. subscriptions-cancel_pending p.subscription_id j marked;
          userbots = same.userbots;
          audit = rw same.audit;
          plans = same.plans;
        },
      )
