-- ===== src/Database/Empty.antt =====
-- A database with no rows, from which the tests start.
use trelgream_self_userbot.Prelude.{[]}
use trelgream_self_userbot.Database.Table.{Table}
use trelgream_self_userbot.Database.State.{Database}

abbrev pub no_rows : {Row : Type 0} → Table Row
no_rows = record { rows = []; next_id = 1 }

abbrev pub empty_database : Database
empty_database = record {
  users = no_rows;
  plans = no_rows;
  subscriptions = no_rows;
  payments = no_rows;
  receipts = no_rows;
  userbots = no_rows;
  accounts = no_rows;
  sessions = no_rows;
  workers = no_rows;
  modules = no_rows;
  user_modules = no_rows;
  module_settings = no_rows;
  scheduled_tasks = no_rows;
  automation_rules = no_rows;
  audit_logs = no_rows;
  admins = no_rows;
  roles = no_rows;
  permissions = no_rows;
  role_permissions = [];
  admin_roles = [];
}
