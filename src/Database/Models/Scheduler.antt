-- ===== src/Database/Models/Scheduler.antt =====
-- app/database/models/scheduler.py
use trelgream_self_userbot.Prelude.{ℕ, String, Bool, true, false, Option}
use trelgream_self_userbot.Database.Json.{Fields}

pub data TaskStatus : Type 0 where
  pending running success failed cancelled : TaskStatus

pub record ScheduledTask : Type 0 where
  pub id : ℕ
  pub user_id : ℕ
  pub type : String
  pub payload : Option Fields
  pub run_at : Option ℕ
  pub repeat_rule : Option String
  pub status : TaskStatus
  pub last_run_at : Option ℕ
  pub next_run_at : Option ℕ
  pub retry_count : ℕ
  pub max_retries : ℕ

abbrev pub is_pending : TaskStatus → Bool
is_pending pending = true
is_pending _ = false
