-- ===== src/Modules/Samples.antt =====
-- A user with room for two modules, and a registry of two classes.
use trelgream_self_userbot.Prelude.{
  ℕ, ◌≤◌, ◌≡◌, refl, String, Bool, true, false, none, some, [], ◌∷◌, arith,
}
use trelgream_self_userbot.Core.Errors.{value_error}
use trelgream_self_userbot.Core.Exec.{err, ok}
use trelgream_self_userbot.Database.Table.{select, find, one_or_none, change}
use trelgream_self_userbot.Database.Table.Keyed.{IsKeyed}
use trelgream_self_userbot.Database.Models.Billing.{Plan, Subscription, SubscriptionStatus}
use trelgream_self_userbot.Database.Models.Modules.{UserModule}
use trelgream_self_userbot.Database.State.{Database}
use trelgream_self_userbot.Database.Empty.{empty_database}
use trelgream_self_userbot.Billing.Repositories.{active_for_user}
use trelgream_self_userbot.Modules.Manager.{enable, enabled_count, plan_of}
use trelgream_self_userbot.Modules.Manager.Limit.{enable_within}
use trelgream_self_userbot.Modules.Registry.{ModuleMetadata, discover, lookup}
use trelgream_self_userbot.Modules.Registry.Discovery.{entry, discover_lem}

abbrev small_plan : Plan
small_plan = record {
  id = 1;
  key = "small";
  name = "Small";
  price = 10;
  duration_days = 30;
  max_userbots = 1;
  max_modules = 2;
  max_automation_rules = 5;
  max_scheduled_tasks = 5;
  is_active = true;
  sort_order = 0;
}

abbrev subscription : Subscription
subscription = record {
  id = 1;
  user_id = 7;
  plan_id = 1;
  status = SubscriptionStatus.active;
  started_at = some 0;
  expires_at = none;
}

abbrev user_module : (id module_id : ℕ) → Bool → UserModule
user_module id module_id b = record { id = id; user_id = 7; module_id = module_id; enabled = b }

abbrev subscribed : Database
subscribed = record empty_database {
  plans = record { rows = small_plan ∷ []; next_id = 2 };
  subscriptions = record { rows = subscription ∷ []; next_id = 2 };
  user_modules = record { rows = user_module 1 1 true ∷ user_module 2 2 false ∷ []; next_id = 3 };
}

active_seven : active_for_user 7 subscribed ≡ (ok (some subscription), subscribed)
unfolding active_for_user one_or_none select
active_seven = refl

plan_seven : plan_of (some subscription) subscribed ≡ some small_plan
unfolding find
plan_seven = refl

one_enabled : enabled_count 7 subscribed ≤ 2
unfolding enabled_count select
one_enabled = omega arith

subscribed-IsKeyed : IsKeyed (λ u. u.id) subscribed.user_modules
subscribed-IsKeyed = omega arith

enable_within_example : enabled_count 7 (enable 7 2 subscribed).1 ≤ 2
enable_within_example =
    enable_within 7 2 subscribed subscribed-IsKeyed (some subscription) small_plan active_seven
      plan_seven one_enabled

-- the second module is enabled, and the third is refused
both_enabled : enabled_count 7 (enable 7 2 subscribed).1 ≡ 2
unfolding enable enabled_count select find one_or_none change
both_enabled = refl

abbrev metadata_of : String → ModuleMetadata
metadata_of key = record {
  key = key;
  name = key;
  category = "general";
  version = "1.0.0";
  description = "";
  permission = none;
  default_enabled = false;
  is_core = false;
  not_implemented = false;
}

-- a second class of a key that is registered
discover_lem_example :
    (discover metadata_of ("notes" ∷ "afk" ∷ []) (entry metadata_of "afk" ∷ [])).0 ≡ err value_error
discover_lem_example =
    (discover_lem metadata_of ("notes" ∷ "afk" ∷ []) (entry metadata_of "afk" ∷ [])).0

-- and two classes of new keys
both_found :
    lookup metadata_of "notes" (discover metadata_of ("afk" ∷ "notes" ∷ []) []).1 ≡ some "notes"
unfolding discover lookup
both_found = refl
