-- ===== src/Userbots/Runtime/Samples.antt =====
-- A user whose plan allows two modules, and presses on the panel.
use trelgream_self_userbot.Prelude.{
  ℕ, ◌≤◌, ◌≡◌, refl, Bool, true, false, Option, none, some, [], ◌∷◌, ◌++◌, if◌then◌else◌, arith,
}
use trelgream_self_userbot.Prelude.Int.{ℤ, pos, negsuc}
use trelgream_self_userbot.Prelude.Text.{Text, codes, text_eq}
use trelgream_self_userbot.Core.Exec.{ok}
use trelgream_self_userbot.Core.Messages.{malformed}
use trelgream_self_userbot.Database.Table.{select, find, one_or_none, change}
use trelgream_self_userbot.Database.Table.Keyed.{IsKeyed}
use trelgream_self_userbot.Database.Models.Billing.{Plan, Subscription, SubscriptionStatus}
use trelgream_self_userbot.Database.Models.Modules.{UserModule}
use trelgream_self_userbot.Database.State.{Database}
use trelgream_self_userbot.Database.Empty.{empty_database}
use trelgream_self_userbot.Billing.Repositories.{active_for_user}
use trelgream_self_userbot.Modules.Manager.{enabled_count, plan_of}
use trelgream_self_userbot.Modules.Registry.{ModuleMetadata}
use trelgream_self_userbot.Userbots.Runtime
use trelgream_self_userbot.Userbots.Runtime.Panel.{handle_panel_callback_lem}
use trelgream_self_userbot.Userbots.Runtime.Handlers

abbrev plan : Plan
plan = record {
  id = 1;
  key = "small";
  name = "Small";
  price = 10;
  duration_days = 30;
  max_userbots = 1;
  max_modules = 2;
  max_automation_rules = 5;
  max_scheduled_tasks = 5;
  is_active = true;
  sort_order = 0;
}

abbrev subscription : Subscription
subscription = record {
  id = 1;
  user_id = 7;
  plan_id = 1;
  status = SubscriptionStatus.active;
  started_at = some 0;
  expires_at = none;
}

abbrev user_module : (id module_id : ℕ) → Bool → UserModule
user_module id module_id b = record { id = id; user_id = 7; module_id = module_id; enabled = b }

abbrev database : Database
database = record empty_database {
  plans = record { rows = plan ∷ []; next_id = 2 };
  subscriptions = record { rows = subscription ∷ []; next_id = 2 };
  user_modules = record { rows = user_module 1 1 true ∷ user_module 2 2 false ∷ []; next_id = 3 };
}

abbrev world : Runtime.World
world = record { database = database; commands = [] }

subscribed : active_for_user 7 database ≡ (ok (some subscription), database)
unfolding active_for_user one_or_none select
subscribed = refl

of_plan : plan_of (some subscription) database ≡ some plan
unfolding find
of_plan = refl

within : enabled_count 7 database ≤ 2
unfolding enabled_count select
within = omega arith

database-IsKeyed : IsKeyed (λ u. u.id) database.user_modules
database-IsKeyed = omega arith

abbrev parse : Text → Option ℤ
parse t =
    if text_eq t (codes "2")
    then some (pos 2)
    else if text_eq t (codes "-1")
    then some (negsuc 0)
    else none

abbrev metadata : ModuleMetadata → ModuleMetadata
metadata m = m

abbrev after_press : ℕ → Text → Runtime.World
after_press query_user_id pressed =
    (Runtime.handle_panel_callback metadata [] parse (some (λ q. q ++ malformed ∷ [])) 7
      (λ t. "groups") (ok 100) query_user_id pressed world).1

handle_panel_callback_lem_example :
    enabled_count 7 (after_press 100 (codes "ub_toggle:2")).database ≤ 2
handle_panel_callback_lem_example =
    (handle_panel_callback_lem 7 plan (some (λ q. q ++ malformed ∷ [])) world database-IsKeyed
      (some subscription) subscribed of_plan within metadata [] parse (λ t. "groups") (ok 100) 100
      (codes "ub_toggle:2")).0

-- the second module is on, and a restart is asked for
second_on : enabled_count 7 (after_press 100 (codes "ub_toggle:2")).database ≡ 2
unfolding enabled_count Runtime.handle_panel_callback one_or_none find change
second_on = refl

-- a negative number changes nothing
negative_toggle : after_press 100 (codes "ub_toggle:-1") ≡ world
unfolding Runtime.handle_panel_callback one_or_none find change
negative_toggle = refl

-- a handler of a command also hears the messages of the user's own
heard :
    Handlers.registrations "mute" (
      record {
        func = "on_mute";
        event_type = "new_message";
        pattern = some "^/mute";
        incoming = true;
        outgoing = false;
      }
      ∷ [])
    ≡ record {
      owner = some "mute";
      func = "on_mute";
      builder = Handlers.new_message;
      incoming = some true;
      outgoing = some true;
      pattern = some "^/mute";
    }
      ∷ []
unfolding Handlers.registrations
heard = refl
