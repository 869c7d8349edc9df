-- ===== src/Database/Models/Modules.antt =====
-- app/database/models/modules.py
use trelgream_self_userbot.Prelude.{ℕ, String, Bool, Option}
use trelgream_self_userbot.Database.Json.{Json, Fields}

pub record Module : Type 0 where
  pub id : ℕ
  pub key : String
  pub name : String
  pub category : String
  pub version : String
  pub description : Option String
  pub is_core : Bool
  pub is_available : Bool
  pub default_enabled : Bool
  pub meta : Option Fields

pub record UserModule : Type 0 where
  pub id : ℕ
  pub user_id : ℕ
  pub module_id : ℕ
  pub enabled : Bool

pub record ModuleSetting : Type 0 where
  pub id : ℕ
  pub user_module_id : ℕ
  pub key : String
  pub value : Json
