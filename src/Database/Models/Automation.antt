-- ===== src/Database/Models/Automation.antt =====
-- app/database/models/automation.py. The conditions and the actions of a rule are read with it, in
-- the order of the relationship.
use trelgream_self_userbot.Prelude.{ℕ, String, Bool, Option, List}
use trelgream_self_userbot.Database.Json.{Json, Fields}

pub record AutomationCondition : Type 0 where
  pub field : String
  pub operator : String
  pub value : Json
  pub logic : Option String

pub record AutomationAction : Type 0 where
  pub action_type : String
  pub payload : Option Fields
  pub sort_order : ℕ

pub record AutomationRule : Type 0 where
  pub id : ℕ
  pub user_id : ℕ
  pub name : String
  pub trigger_type : String
  pub enabled : Bool
  pub priority : ℕ
  pub conditions : List AutomationCondition
  pub actions : List AutomationAction
