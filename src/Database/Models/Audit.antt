-- ===== src/Database/Models/Audit.antt =====
-- app/database/models/audit.py: the table of sensitive operations
use trelgream_self_userbot.Prelude.{ℕ, String, Option}
use trelgream_self_userbot.Prelude.Text.{Text}

pub record AuditLog : Type 0 where
  pub id : ℕ
  pub ts : ℕ
  pub actor_id : Option ℕ
  pub actor_role : Option String
  pub action : String
  pub target_type : Option String
  pub target_id : Option Text
  pub result : String
