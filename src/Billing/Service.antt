-- ===== src/Billing/Service.antt =====
-- app/billing/service.py: `BillingService`. `now` is what `_now()` returns in the call, and `ts` the
-- later instant that `record_audit` reads.
use trelgream_self_userbot.Prelude.{
  ℕ, ◌*◌, String, Bool, not, ◌&&◌, Option, none, some, List, ◌==◌, if◌then◌else◌, length, is_some,
}
use trelgream_self_userbot.Prelude.Text.{Text, text_eq}
use trelgream_self_userbot.Core.Errors.{conflict, not_found, integrity_error}
use trelgream_self_userbot.Core.Exec.{ok, Exec, pure, raise, modify, require, ◌>>=◌, ◌>>◌, lift}
use trelgream_self_userbot.Core.Time.{day, later}
use trelgream_self_userbot.Security.{record_audit}
use trelgream_self_userbot.Database.Table.{find}
use trelgream_self_userbot.Database.Table.Keyed.{by_id}
use trelgream_self_userbot.Database.Models.Billing.{
  Plan, Subscription, SubscriptionStatus, Payment, PaymentStatus, PaymentReceipt, is_pending,
  awaits,
}
use trelgream_self_userbot.Database.Models.Userbots.{
  Userbot, UserbotStatus, same_status, stopped, suspended,
}
use trelgream_self_userbot.Database.State.{Database}
use trelgream_self_userbot.Database.Repository.{change_rows, get_or_raise, add}
use trelgream_self_userbot.Billing.Repositories.{
  plan_model, subscription_model, payment_model, receipt_model, active_for_user, list_active,
  list_expired_active, list_pending,
}
use trelgream_self_userbot.Billing.Reference.{reference_of, placeholder}
use trelgream_self_userbot.Userbots.Model.{userbot_model}

unfoldable pub list_plans : Exec Database (List Plan)
unfolding list_active
list_plans db = (ok (list_active db), db)

unfoldable pub get_plan : ℕ → Exec Database Plan
unfolding get_or_raise
get_plan plan_id = get_or_raise plan_model plan_id

-- the unique constraint on `payments.reference`, checked at each flush of a payment
abbrev pub referenced : Text → Payment → Bool
referenced reference p = text_eq p.reference reference

unfoldable pub reference_is_free : Text → Exec Database (Unit {0})
reference_is_free reference db =
    require (not (is_some (find (referenced reference) db.payments.rows))) integrity_error db

abbrev pub new_subscription : (user_id plan_id id : ℕ) → Subscription
new_subscription user_id plan_id id = record {
  id = id;
  user_id = user_id;
  plan_id = plan_id;
  status = SubscriptionStatus.pending;
  started_at = none;
  expires_at = none;
}

abbrev pub new_payment : (user_id : ℕ) (plan : Plan) (subscription_id id : ℕ) → Payment
new_payment user_id plan subscription_id id = record {
  id = id;
  reference = placeholder;
  user_id = user_id;
  plan_id = plan.id;
  subscription_id = some subscription_id;
  amount = plan.price;
  status = PaymentStatus.pending;
  method = "card";
  reviewed_by = none;
  reviewed_at = none;
  reject_reason = none;
}

-- the two writes of `purchase`: the payment is stored under a placeholder, and then renamed
unfoldable pub create_payment : ℕ → Plan → ℕ → Exec Database Payment
unfolding add reference_is_free
create_payment user_id plan subscription_id = do
  reference_is_free placeholder
  payment ← add payment_model (new_payment user_id plan subscription_id)
  reference_is_free (reference_of payment.id)
  modify (
      change_rows payment_model (by_id (λ p. p.id) payment.id)
        (λ p. record p { reference = reference_of payment.id }))
  pure (record payment { reference = reference_of payment.id })

unfoldable pub purchase : (user_id plan_id : ℕ) → Exec Database Payment
purchase user_id plan_id = do
  plan ← get_or_raise plan_model plan_id
  require plan.is_active conflict
  active ← active_for_user user_id
  require (not (is_some active)) conflict
  subscription ← add subscription_model (new_subscription user_id plan.id)
  create_payment user_id plan subscription.id

unfoldable pub add_receipt :
    (payment_id : ℕ) (storage_key : String) (file_name mime_type : Option String) (size : ℕ)
    → Exec Database PaymentReceipt
unfolding get_or_raise add
add_receipt payment_id storage_key file_name mime_type size = do
  payment ← get_or_raise payment_model payment_id
  require (is_pending payment.status) conflict
  add receipt_model λ i. record {
    id = i;
    payment_id = payment.id;
    storage_key = storage_key;
    file_name = file_name;
    mime_type = mime_type;
    size = size;
  }

-- `UPDATE userbots SET status = … WHERE user_id = … AND status != …`
abbrev pub needs_status : ℕ → UserbotStatus → Userbot → Bool
needs_status user_id status b = b.user_id == user_id && not (same_status b.status status)

abbrev pub set_userbot_status : ℕ → UserbotStatus → Database → Database
set_userbot_status user_id status =
    change_rows userbot_model (needs_status user_id status) (λ b. record b { status = status })

abbrev pub change_payment : ℕ → (Payment → Payment) → Database → Database
change_payment i f = change_rows payment_model (by_id (λ p. p.id) i) f

abbrev pub change_subscription : ℕ → (Subscription → Subscription) → Database → Database
change_subscription i f = change_rows subscription_model (by_id (λ s. s.id) i) f

-- `session.get(Subscription, None)` finds nothing
unfoldable pub get_linked : Option ℕ → Exec Database Subscription
unfolding get_or_raise
get_linked none = raise not_found
get_linked (some i) = get_or_raise subscription_model i

abbrev pub approved : (admin_id now : ℕ) → Payment → Payment
approved admin_id now p = record p {
  status = PaymentStatus.approved;
  reviewed_by = some admin_id;
  reviewed_at = some now;
}

abbrev pub activated : (plan_id now expires : ℕ) → Subscription → Subscription
activated plan_id now expires s = record s {
  plan_id = plan_id;
  status = SubscriptionStatus.active;
  started_at = some now;
  expires_at = some expires;
}

unfoldable pub approve_payment :
    (payment_id admin_id : ℕ) (admin_role : String) (now ts : ℕ) → Exec Database Payment
approve_payment payment_id admin_id admin_role now ts = do
  payment ← get_or_raise payment_model payment_id
  require (is_pending payment.status) conflict
  plan ← get_or_raise plan_model payment.plan_id
  modify (change_payment payment.id (approved admin_id now))
  subscription ← get_linked payment.subscription_id
  modify (
      change_subscription subscription.id (λ s. record s {
        plan_id = plan.id;
        status = SubscriptionStatus.active;
        started_at = some now;
      }))
  expires ← lift (later now (plan.duration_days * day))
  modify (change_subscription subscription.id (λ s. record s { expires_at = some expires }))
  modify (set_userbot_status subscription.user_id stopped)
  record_audit ts (some admin_id) (some admin_role) "APPROVE_PAYMENT" (some "PAYMENT")
      (some payment.reference) "SUCCESS"
  pure (approved admin_id now payment)

abbrev pub rejected : (admin_id now : ℕ) (reason : Option String) → Payment → Payment
rejected admin_id now reason p = record p {
  status = PaymentStatus.rejected;
  reviewed_by = some admin_id;
  reviewed_at = some now;
  reject_reason = reason;
}

-- `if payment.subscription_id is not None: …`
unfoldable pub cancel_pending : Option ℕ → Database → Database
cancel_pending none db = db
cancel_pending (some i) db =
    change_subscription i
      (λ s. if awaits s.status then record s { status = SubscriptionStatus.cancelled } else s) db

unfoldable pub reject_payment :
    (payment_id admin_id : ℕ) (admin_role : String) (reason : Option String) (now ts : ℕ)
    → Exec Database Payment
reject_payment payment_id admin_id admin_role reason now ts = do
  payment ← get_or_raise payment_model payment_id
  require (is_pending payment.status) conflict
  modify (change_payment payment.id (rejected admin_id now reason))
  modify (cancel_pending payment.subscription_id)
  record_audit ts (some admin_id) (some admin_role) "REJECT_PAYMENT" (some "PAYMENT")
      (some payment.reference) "SUCCESS"
  pure (rejected admin_id now reason payment)

-- the loop over the due subscriptions: `sub` is written through the session, by its key
unfoldable pub expire_each : List Subscription → Database → Database
expire_each List.[] db = db
expire_each (List.◌∷◌ s due) db = expire_each due (
    set_userbot_status s.user_id suspended
      (change_subscription s.id (λ r. record r { status = SubscriptionStatus.expired }) db))

unfoldable pub expire_due_subscriptions : ℕ → Exec Database ℕ
unfolding list_expired_active expire_each
expire_due_subscriptions now db =
    let due = list_expired_active now db in (ok (length due), expire_each due db)

unfoldable pub pending_payments : ℕ → Exec Database (List Payment)
unfolding list_pending
pending_payments limit db = (ok (list_pending limit db), db)
