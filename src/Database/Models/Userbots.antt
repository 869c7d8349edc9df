-- ===== src/Database/Models/Userbots.antt =====
-- app/database/models/userbots.py, telegram.py and workers.py
use trelgream_self_userbot.Prelude.{ℕ, String, Bool, Option, ◌==◌}

-- the lifecycle of a userbot
pub data UserbotStatus : Type 0 where
  created authenticating authorized starting running : UserbotStatus
  stopping stopped error recovering suspended : UserbotStatus

-- equality of statuses is that of their places in the list above
abbrev pub place : UserbotStatus → ℕ
place created = 0
place authenticating = 1
place authorized = 2
place starting = 3
place running = 4
place stopping = 5
place stopped = 6
place error = 7
place recovering = 8
place suspended = 9

abbrev pub same_status : UserbotStatus → UserbotStatus → Bool
same_status a b = place a == place b

pub record Userbot : Type 0 where
  pub id : ℕ
  pub user_id : ℕ
  pub telegram_account_id : ℕ
  pub name : Option String
  pub status : UserbotStatus
  pub current_worker_id : Option ℕ
  pub last_heartbeat_at : Option ℕ
  pub error_message : Option String

pub record TelegramAccount : Type 0 where
  pub id : ℕ
  pub user_id : ℕ
  pub phone : String
  pub is_authorized : Bool
  pub auth_state : String
  pub last_code_sent_at : Option ℕ

pub record TelegramSession : Type 0 where
  pub id : ℕ
  pub telegram_account_id : ℕ
  pub encrypted_session : String
  pub is_active : Bool
  pub revoked_at : Option ℕ
  pub device_model : Option String
  pub device_app : Option String
  pub ip_hint : Option String

-- `load` is a count of tasks
pub record Worker : Type 0 where
  pub id : ℕ
  pub name : String
  pub host : String
  pub pid : Option ℕ
  pub status : String
  pub load : ℕ
  pub capacity : ℕ
  pub started_at : Option ℕ
  pub last_heartbeat_at : Option ℕ
