-- ===== src/Database/Models/Users.antt =====
-- app/database/models/users.py
use trelgream_self_userbot.Prelude.{ℕ, String, Bool, Option}

pub record User : Type 0 where
  pub id : ℕ
  pub telegram_id : ℕ
  pub username : Option String
  pub first_name : Option String
  pub last_name : Option String
  pub phone : Option String
  pub is_active : Bool
  pub is_suspended : Bool
  pub last_active_at : Option ℕ
