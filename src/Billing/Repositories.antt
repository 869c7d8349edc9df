-- ===== src/Billing/Repositories.antt =====
-- app/billing/repositories.py
use trelgream_self_userbot.Prelude.{
  ℕ, String, Bool, false, ◌&&◌, ◌||◌, Option, none, some, List, ◌==◌, ltb, str_eq, take, refl, true,
}
use trelgream_self_userbot.Prelude.Text.{Text, text_eq}
use trelgream_self_userbot.Core.Exec.{Exec}
use trelgream_self_userbot.Database.Table.{select, one_or_none}
use trelgream_self_userbot.Database.Table.Order.{order_by}
use trelgream_self_userbot.Database.Models.Billing.{
  Plan, Subscription, Payment, PaymentReceipt, is_active, is_pending,
}
use trelgream_self_userbot.Database.State.{Database}
use trelgream_self_userbot.Database.Repository.{Model}

abbrev pub plan_model : Model Plan
plan_model = record {
  id = λ r. r.id;
  has_tenant = false;
  tenant = λ r. none;
  table = λ db. db.plans;
  with_table = λ t db. record db { plans = t };
  table-with_table = λ t db. refl;
}

abbrev pub subscription_model : Model Subscription
subscription_model = record {
  id = λ r. r.id;
  has_tenant = true;
  tenant = λ r. some r.user_id;
  table = λ db. db.subscriptions;
  with_table = λ t db. record db { subscriptions = t };
  table-with_table = λ t db. refl;
}

abbrev pub payment_model : Model Payment
payment_model = record {
  id = λ r. r.id;
  has_tenant = true;
  tenant = λ r. some r.user_id;
  table = λ db. db.payments;
  with_table = λ t db. record db { payments = t };
  table-with_table = λ t db. refl;
}

abbrev pub receipt_model : Model PaymentReceipt
receipt_model = record {
  id = λ r. r.id;
  has_tenant = false;
  tenant = λ r. none;
  table = λ db. db.receipts;
  with_table = λ t db. record db { receipts = t };
  table-with_table = λ t db. refl;
}

-- PlanRepository
unfoldable pub get_by_key : String → Exec Database (Option Plan)
get_by_key key db = (one_or_none (select (λ p. str_eq p.key key) db.plans.rows), db)

abbrev by_sort_order : Plan → Plan → Bool
by_sort_order p q = ltb p.sort_order q.sort_order || p.sort_order == q.sort_order && ltb p.id q.id

unfoldable pub list_active : Database → List Plan
list_active db = order_by by_sort_order (select (λ p. p.is_active) db.plans.rows)

-- SubscriptionRepository
abbrev pub active_of : ℕ → Subscription → Bool
active_of user_id s = s.user_id == user_id && is_active s.status

-- the order of the rows does not matter to `scalar_one_or_none`
unfoldable pub active_for_user : ℕ → Exec Database (Option Subscription)
active_for_user user_id db = (one_or_none (select (active_of user_id) db.subscriptions.rows), db)

abbrev pub passed : ℕ → Option ℕ → Bool
passed now none = false
passed now (some t) = ltb t now

abbrev pub expired_active : ℕ → Subscription → Bool
expired_active now s = is_active s.status && passed now s.expires_at

unfoldable pub list_expired_active : ℕ → Database → List Subscription
list_expired_active now db = select (expired_active now) db.subscriptions.rows

-- PaymentRepository
unfoldable pub get_by_reference : Text → Exec Database (Option Payment)
get_by_reference reference db =
    (one_or_none (select (λ p. text_eq p.reference reference) db.payments.rows), db)

abbrev oldest_first : Payment → Payment → Bool
oldest_first p q = ltb p.id q.id

unfoldable pub list_pending : ℕ → Database → List Payment
list_pending limit db =
    take limit (order_by oldest_first (select (λ p. is_pending p.status) db.payments.rows))
