-- ===== src/Database/State.antt =====
-- The state that a database session reads and writes: all tables that the services use.
use trelgream_self_userbot.Prelude.{List}
use trelgream_self_userbot.Database.Table.{Table}
use trelgream_self_userbot.Database.Models.Users.{User}
use trelgream_self_userbot.Database.Models.Admins.{
  Admin, Role, Permission, RolePermission, AdminRole,
}
use trelgream_self_userbot.Database.Models.Billing.{Plan, Subscription, Payment, PaymentReceipt}
use trelgream_self_userbot.Database.Models.Userbots.{
  Userbot, TelegramAccount, TelegramSession, Worker,
}
use trelgream_self_userbot.Database.Models.Modules.{Module, UserModule, ModuleSetting}
use trelgream_self_userbot.Database.Models.Scheduler.{ScheduledTask}
use trelgream_self_userbot.Database.Models.Automation.{AutomationRule}
use trelgream_self_userbot.Database.Models.Audit.{AuditLog}

pub record Database : Type 0 where
  pub users : Table User
  pub plans : Table Plan
  pub subscriptions : Table Subscription
  pub payments : Table Payment
  pub receipts : Table PaymentReceipt
  pub userbots : Table Userbot
  pub accounts : Table TelegramAccount
  pub sessions : Table TelegramSession
  pub workers : Table Worker
  pub modules : Table Module
  pub user_modules : Table UserModule
  pub module_settings : Table ModuleSetting
  pub scheduled_tasks : Table ScheduledTask
  pub automation_rules : Table AutomationRule
  pub audit_logs : Table AuditLog
  pub admins : Table Admin
  pub roles : Table Role
  pub permissions : Table Permission
  pub role_permissions : List RolePermission
  pub admin_roles : List AdminRole
