-- ===== src/Database/Models/Billing.antt =====
-- app/database/models/billing.py
use trelgream_self_userbot.Prelude.{ℕ, String, Bool, true, false, Option}
use trelgream_self_userbot.Prelude.Text.{Text}

-- the part of `plans` that the services read; `price` is in toman
pub record Plan : Type 0 where
  pub id : ℕ
  pub key : String
  pub name : String
  pub price : ℕ
  pub duration_days : ℕ
  pub max_userbots : ℕ
  pub max_modules : ℕ
  pub max_automation_rules : ℕ
  pub max_scheduled_tasks : ℕ
  pub is_active : Bool
  pub sort_order : ℕ

pub data SubscriptionStatus : Type 0 where
  pending active expired suspended cancelled : SubscriptionStatus

pub record Subscription : Type 0 where
  pub id : ℕ
  pub user_id : ℕ
  pub plan_id : ℕ
  pub status : SubscriptionStatus
  pub started_at : Option ℕ
  pub expires_at : Option ℕ

pub data PaymentStatus : Type 0 where
  pending approved rejected : PaymentStatus

pub record Payment : Type 0 where
  pub id : ℕ
  pub reference : Text
  pub user_id : ℕ
  pub plan_id : ℕ
  pub subscription_id : Option ℕ
  pub amount : ℕ
  pub status : PaymentStatus
  pub method : String
  pub reviewed_by : Option ℕ
  pub reviewed_at : Option ℕ
  pub reject_reason : Option String

pub record PaymentReceipt : Type 0 where
  pub id : ℕ
  pub payment_id : ℕ
  pub storage_key : String
  pub file_name : Option String
  pub mime_type : Option String
  pub size : ℕ

-- `status == "pending"` and the like, on each column
abbrev pub is_pending : PaymentStatus → Bool
is_pending PaymentStatus.pending = true
is_pending PaymentStatus.approved = false
is_pending PaymentStatus.rejected = false

abbrev pub is_active : SubscriptionStatus → Bool
is_active SubscriptionStatus.active = true
is_active SubscriptionStatus.pending = false
is_active SubscriptionStatus.expired = false
is_active SubscriptionStatus.suspended = false
is_active SubscriptionStatus.cancelled = false

abbrev pub awaits : SubscriptionStatus → Bool
awaits SubscriptionStatus.pending = true
awaits SubscriptionStatus.active = false
awaits SubscriptionStatus.expired = false
awaits SubscriptionStatus.suspended = false
awaits SubscriptionStatus.cancelled = false
