-- ===== src/Database/Models/Admins.antt =====
-- app/database/models/admins.py
use trelgream_self_userbot.Prelude.{ℕ, String, Bool, Option}

pub record Admin : Type 0 where
  pub id : ℕ
  pub telegram_id : String
  pub name : Option String
  pub is_active : Bool

pub record Role : Type 0 where
  pub id : ℕ
  pub name : String
  pub description : Option String

pub record Permission : Type 0 where
  pub id : ℕ
  pub code : String
  pub description : Option String

pub record RolePermission : Type 0 where
  pub role_id : ℕ
  pub permission_id : ℕ

pub record AdminRole : Type 0 where
  pub admin_id : ℕ
  pub role_id : ℕ
