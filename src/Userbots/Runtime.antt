-- ===== src/Userbots/Runtime.antt =====
-- app/userbots/runtime.py: `UserbotRuntime`. Texts for people are left out, and what the panel shows is
-- a value. `ModuleClass` stands for the classes of the modules.
use trelgream_self_userbot.Prelude.{
  ℕ, ◌+◌, String, Bool, true, false, not, ◌&&◌, Option, none, some, List, [], ◌∷◌, ◌++◌, ◌==◌,
  str_eq, ltb, any, map, length, is_some, if◌then◌else◌,
}
use trelgream_self_userbot.Prelude.Int.{ℤ, pos, negsuc}
use trelgream_self_userbot.Prelude.Text.{Text, codes, starts_with, text_eq, decimal}
use trelgream_self_userbot.Core.Errors.{Exception, value_error, session_error, integrity_error}
use trelgream_self_userbot.Core.Exec.{
  Result, ok, err, Exec, pure, raise, get, modify, lift, require, ◌>>=◌, ◌>>◌,
}
use trelgream_self_userbot.Core.Messages.{Raw}
use trelgream_self_userbot.Database.Json.{Json}
use trelgream_self_userbot.Database.Table.{select}
use trelgream_self_userbot.Database.Table.Order.{order_by}
use trelgream_self_userbot.Database.Models.Modules.{Module, UserModule}
use trelgream_self_userbot.Database.Models.Billing.{Plan}
use trelgream_self_userbot.Database.State.{Database}
use trelgream_self_userbot.Billing.Repositories.{active_for_user}
use trelgream_self_userbot.Modules.Manager.{
  enable, disable, check_limit, instance_of, is_enabled_for, enabled_count, plan_of,
}
use trelgream_self_userbot.Modules.Registry.{ModuleMetadata, lookup, all}
use trelgream_self_userbot.Workers.Commands
pub mod Panel
pub mod Handlers
mod Samples

-- the committed database, and the list of the command bus
pub record World : Type 0 where
  pub database : Database
  pub commands : List Raw

pub record Stats : Type 0 where
  pub plan : Option String
  pub modules : ℕ
  pub rules : ℕ
  pub tasks : ℕ

abbrev name_of : Option Plan → Option String
name_of none = none
name_of (some p) = some p.name

unfoldable pub load_stats : (user_id : ℕ) → Exec Database Stats
unfolding active_for_user enabled_count select
load_stats user_id = do
  sub ← active_for_user user_id
  db ← get
  pure (record {
    plan = name_of (plan_of sub db);
    modules = enabled_count user_id db;
    rules = length (select (λ r. r.user_id == user_id) db.automation_rules.rows);
    tasks = length (select (λ t. t.user_id == user_id) db.scheduled_tasks.rows);
  })

-- a button of a module: not implemented, or one that turns it on or off
pub data Button : Type 0 where
  ni : (module_id : ℕ) → Button
  toggle : (module_id : ℕ) (enabled : Bool) → Button

-- the bytes that it sends back
abbrev pub button_data : Button → Text
button_data (ni module_id) = codes "ub_ni:" ++ decimal module_id
button_data (toggle module_id enabled) = codes "ub_toggle:" ++ decimal module_id

-- what `_handle_panel_callback` shows
pub data Shown : Type 0 where
  nothing : Shown
  refused : Shown
  categories : List (String × ℕ) → Shown
  panel : Stats → Shown
  category : List Button → Shown
  toggled : Bool → Shown
  stats : Stats → Shown
  help : Shown
  central : Shown
  not_implemented : Shown

abbrev pub category_names : List String
category_names =
    "message" ∷ "groups" ∷ "channels" ∷ "automation" ∷ "media" ∷ "search" ∷ "entertainment"
    ∷ "market" ∷ "plugins" ∷ "system" ∷ "analytics" ∷ "security" ∷ "integrations" ∷ "advanced" ∷ []

-- `s.split(":", 1)[1]` of a text with a colon
abbrev pub after_colon : Text → Text
after_colon [] = []
after_colon (c ∷ s) = let rest = after_colon s in if c == 58 then s else rest

-- a session that is not committed
abbrev pub reading : {A : Type 0} → Exec Database A → Exec World A
reading f w = ((f w.database).0, w)

-- a session that is committed if no exception comes
abbrev pub committed : {A : Type 0} → Result A → Database → World → Result A × World
committed (ok a) db w = (ok a, record w { database = db })
committed (err e) db w = (err e, w)

abbrev pub committing : {A : Type 0} → Exec Database A → Exec World A
committing f w = let (r, db) = f w.database in committed r db w

module _ {ModuleClass : Type 0} (metadata : ModuleClass → ModuleMetadata)
    (registry : List (String × ModuleClass)) where
  abbrev pub count_of : String → ℕ
  count_of cat = length (select (λ cls. str_eq (metadata cls).category cat) (all metadata registry))

  abbrev pub counted : List String → List (String × ℕ)
  counted [] = []
  counted (cat ∷ names) =
      let rest = counted names in if count_of cat == 0 then rest else (cat, count_of cat) ∷ rest

  unfoldable pub show_categories : List (String × ℕ)
  unfolding select all
  show_categories = counted category_names

  abbrev pub is_not_implemented : Option ModuleClass → Bool
  is_not_implemented none = false
  is_not_implemented (some cls) = (metadata cls).not_implemented

  abbrev pub button_of : List UserModule → Module → Button
  button_of enabled m =
      if is_not_implemented (lookup metadata m.key registry)
      then ni m.id
      else toggle m.id (any (λ u. u.module_id == m.id) enabled)

  abbrev pub earlier_module : Module → Module → Bool
  earlier_module m n = ltb m.id n.id

  unfoldable pub show_category : (user_id : ℕ) → (cat : String) → Database → List Button
  unfolding select order_by lookup
  show_category user_id cat db =
      let modules = order_by earlier_module (select (λ m. str_eq m.category cat) db.modules.rows) in
      let enabled = select (is_enabled_for user_id) db.user_modules.rows in
      map (button_of enabled) modules

abbrev pub is_on : Option UserModule → Bool
is_on none = false
is_on (some um) = um.enabled

-- the user module turned on or off, and which
unfoldable pub switch : (user_id module_id : ℕ) → Exec Database Bool
unfolding enable disable instance_of
switch user_id module_id = do
  um ← instance_of user_id module_id
  if is_on um
      then disable user_id module_id >> pure false
      else enable user_id module_id >> pure true

-- `command_bus.send("restart", …)`, if there is a bus
abbrev pub request_restart : (send : Option (List Raw → List Raw)) → Exec World (Unit {0})
request_restart none = pure tt
request_restart (some send) = modify (λ w. record w { commands = send w.commands })

unfoldable pub toggle_module :
    (send : Option (List Raw → List Raw)) (user_id module_id : ℕ) → Exec World Bool
unfolding switch
toggle_module send user_id module_id = do
  enabled ← committing (switch user_id module_id)
  request_restart send
  pure enabled

-- No module has a negative number: there is no row of it to turn off, and the one that `enable` adds is
-- refused by the database.
unfoldable pub toggle_negative : (user_id : ℕ) → Exec World Bool
unfolding check_limit
toggle_negative user_id = committing (check_limit user_id >> raise integrity_error)

-- the clients' user, an update's user, and `int(text)`
module _ {ModuleClass : Type 0} (metadata : ModuleClass → ModuleMetadata)
    (registry : List (String × ModuleClass)) (parse : Text → Option ℤ)
    (send : Option (List Raw → List Raw)) (user_id : ℕ) (category_of : Text → String) where
  abbrev pub toggle_parsed : Option ℤ → Exec World Shown
  toggle_parsed none = raise value_error
  toggle_parsed (some (pos module_id)) =
      toggle_module send user_id module_id >>= (λ b. pure (toggled b))
  toggle_parsed (some (negsuc n)) = toggle_negative user_id >>= (λ b. pure (toggled b))

  -- the branches on `data`
  unfoldable pub press : (pressed : Text) → Exec World Shown
  unfolding show_categories show_category load_stats toggle_module toggle_negative text_eq
      starts_with
  press pressed =
      if text_eq pressed (codes "ub_modules")
      then pure (categories (show_categories metadata registry))
      else if text_eq pressed (codes "ub_back")
      then reading (load_stats user_id >>= (λ s. pure (panel s)))
      else if starts_with (codes "ub_cat:") pressed
      then reading (λ db. (
        ok (
            category
              (show_category metadata registry user_id (category_of (after_colon pressed)) db)),
        db,
      ))
      else if starts_with (codes "ub_toggle:") pressed
      then toggle_parsed (parse (after_colon pressed))
      else if text_eq pressed (codes "ub_stats")
      then reading (load_stats user_id >>= (λ s. pure (stats s)))
      else if text_eq pressed (codes "ub_help")
      then pure help
      else if text_eq pressed (codes "ub_central")
      then pure central
      else if starts_with (codes "ub_ni:") pressed
      then pure not_implemented
      else pure nothing

  -- an exception of `get_me` ends the handler; only the owner of the account goes on
  unfoldable pub handle_panel_callback :
      (me : Result ℕ) (query_user_id : ℕ) (pressed : Text) → Exec World Shown
  unfolding press
  handle_panel_callback (err e) query_user_id pressed = pure nothing
  handle_panel_callback (ok me) query_user_id pressed =
      if query_user_id == me then press pressed else pure refused
