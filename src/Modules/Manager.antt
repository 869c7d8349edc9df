-- ===== src/Modules/Manager.antt =====
-- app/modules/manager.py: `ModuleManager`.
pub mod Limit
use trelgream_self_userbot.Prelude.{
  ℕ, String, Bool, true, false, not, ◌&&◌, Option, none, some, List, [], ◌∷◌, ◌==◌, leb, str_eq,
  length, if◌then◌else◌, refl,
}
use trelgream_self_userbot.Core.Errors.{conflict, not_found, permission_denied}
use trelgream_self_userbot.Core.Exec.{
  Exec, ok, pure, raise, get, modify, require, lift, ◌>>=◌, ◌>>◌,
}
use trelgream_self_userbot.Database.Json.{Json, Fields, end, set_field}
use trelgream_self_userbot.Database.Table.{select, find, one_or_none}
use trelgream_self_userbot.Database.Table.Keyed.{by_id}
use trelgream_self_userbot.Database.Models.Billing.{Plan, Subscription}
use trelgream_self_userbot.Database.Models.Modules.{Module, UserModule, ModuleSetting}
use trelgream_self_userbot.Database.State.{Database}
use trelgream_self_userbot.Database.Repository.{Model, add, change_rows}
use trelgream_self_userbot.Billing.Repositories.{active_for_user}

abbrev pub module_model : Model Module
module_model = record {
  id = λ r. r.id;
  has_tenant = false;
  tenant = λ r. none;
  table = λ db. db.modules;
  with_table = λ t db. record db { modules = t };
  table-with_table = λ t db. refl;
}

abbrev pub user_module_model : Model UserModule
user_module_model = record {
  id = λ r. r.id;
  has_tenant = true;
  tenant = λ r. some r.user_id;
  table = λ db. db.user_modules;
  with_table = λ t db. record db { user_modules = t };
  table-with_table = λ t db. refl;
}

abbrev pub setting_model : Model ModuleSetting
setting_model = record {
  id = λ r. r.id;
  has_tenant = false;
  tenant = λ r. none;
  table = λ db. db.module_settings;
  with_table = λ t db. record db { module_settings = t };
  table-with_table = λ t db. refl;
}

-- `**meta` sets further columns of a row that has their defaults
abbrev pub new_module : (key name category : String) (meta : Module → Module) → ℕ → Module
new_module key name category meta i = meta (record {
  id = i;
  key = key;
  name = name;
  category = category;
  version = "1.0.0";
  description = none;
  is_core = false;
  is_available = true;
  default_enabled = false;
  meta = none;
})

abbrev pub or_create : (ℕ → Module) → Option Module → Exec Database Module
or_create row none = add module_model row
or_create row (some m) = pure m

unfoldable pub get_or_create_module :
    (key name category : String) (meta : Module → Module) → Exec Database Module
unfolding add
get_or_create_module key name category meta = do
  db ← get
  existing ← lift (one_or_none (select (λ m. str_eq m.key key) db.modules.rows))
  or_create (new_module key name category meta) existing

abbrev pub is_of : (user_id module_id : ℕ) → UserModule → Bool
is_of user_id module_id u = u.user_id == user_id && u.module_id == module_id

-- `select(UserModule).where(…)`, `scalar_one_or_none()`
unfoldable pub instance_of : (user_id module_id : ℕ) → Exec Database (Option UserModule)
instance_of user_id module_id db =
    (one_or_none (select (is_of user_id module_id) db.user_modules.rows), db)

abbrev pub is_enabled_for : ℕ → UserModule → Bool
is_enabled_for user_id u = u.user_id == user_id && u.enabled

unfoldable pub enabled_count : ℕ → Database → ℕ
enabled_count user_id db = length (select (is_enabled_for user_id) db.user_modules.rows)

-- `active.plan`
abbrev pub plan_of : Option Subscription → Database → Option Plan
plan_of none db = none
plan_of (some s) db = find (by_id (λ p. p.id) s.plan_id) db.plans.rows

abbrev pub check_plan : ℕ → Option Plan → Exec Database (Unit {0})
check_plan user_id none = raise permission_denied
check_plan user_id (some plan) = do
  db ← get
  require (not (leb plan.max_modules (enabled_count user_id db))) conflict

unfoldable pub check_limit : ℕ → Exec Database (Unit {0})
unfolding active_for_user enabled_count
check_limit user_id = do
  active ← active_for_user user_id
  db ← get
  check_plan user_id (plan_of active db)

abbrev pub with_enabled : Bool → UserModule → UserModule
with_enabled b u = record u { enabled = b }

abbrev pub set_enabled : Bool → UserModule → Exec Database UserModule
set_enabled b u = do
  modify (change_rows user_module_model (by_id (λ r. r.id) u.id) (with_enabled b))
  pure (with_enabled b u)

unfoldable pub enable_instance :
    (user_id module_id : ℕ) → Option UserModule → Exec Database UserModule
unfolding add
enable_instance user_id module_id none =
    add user_module_model
      λ i. record { id = i; user_id = user_id; module_id = module_id; enabled = true }
enable_instance user_id module_id (some u) = set_enabled true u

unfoldable pub enable : (user_id module_id : ℕ) → Exec Database UserModule
unfolding check_limit instance_of enable_instance
enable user_id module_id = do
  check_limit user_id
  um ← instance_of user_id module_id
  enable_instance user_id module_id um

abbrev pub disable_instance : Option UserModule → Exec Database UserModule
disable_instance none = raise not_found
disable_instance (some u) = set_enabled false u

unfoldable pub disable : (user_id module_id : ℕ) → Exec Database UserModule
unfolding instance_of
disable user_id module_id = do um ← instance_of user_id module_id; disable_instance um

abbrev pub is_setting : ℕ → String → ModuleSetting → Bool
is_setting um_id key s = s.user_module_id == um_id && str_eq s.key key

abbrev pub store :
    (um_id : ℕ) (key : String) (value : Json) → Option ModuleSetting → Exec Database ModuleSetting
store um_id key value none =
    add setting_model λ i. record { id = i; user_module_id = um_id; key = key; value = value }
store um_id key value (some s) = do
  modify (change_rows setting_model (by_id (λ r. r.id) s.id) (λ r. record r { value = value }))
  pure (record s { value = value })

abbrev pub store_enabled :
    (key : String) (value : Json) → Option UserModule → Exec Database ModuleSetting
store_enabled key value none = raise conflict
store_enabled key value (some u) = do
  require u.enabled conflict
  db ← get
  setting ← lift (one_or_none (select (is_setting u.id key) db.module_settings.rows))
  store u.id key value setting

unfoldable pub set_setting :
    (user_id module_id : ℕ) (key : String) (value : Json) → Exec Database ModuleSetting
unfolding instance_of add
set_setting user_id module_id key value = do
  um ← instance_of user_id module_id
  store_enabled key value um

-- the dictionary, in which a later row replaces an earlier one of the same key
abbrev pub collect : List ModuleSetting → Fields → Fields
collect [] d = d
collect (s ∷ rows) d = collect rows (set_field s.key s.value d)

-- the inner join keeps the settings whose user module is that of the user and the module
abbrev pub belongs : (user_id module_id : ℕ) → Option UserModule → Bool
belongs user_id module_id none = false
belongs user_id module_id (some u) = is_of user_id module_id u

unfoldable pub settings_for : (user_id module_id : ℕ) → Exec Database Fields
unfolding find set_field
settings_for user_id module_id db = (
  ok (
      collect
        (select
          (λ s.
            belongs user_id module_id
              (find (by_id (λ u. u.id) s.user_module_id) db.user_modules.rows))
          db.module_settings.rows)
        end),
  db,
)
