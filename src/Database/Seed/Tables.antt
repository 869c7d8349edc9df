-- ===== src/Database/Seed/Tables.antt =====
-- `PLANS`, `seed_plans` and `seed_modules` of app/database/seed.py.
use trelgream_self_userbot.Prelude.{ℕ, ◌≡◌, refl, String, true, Option, none, some, List, [], ◌∷◌}
use trelgream_self_userbot.Database.Json.{Json, null, bool, str, end, field}
use trelgream_self_userbot.Database.Table.Find.{All}
use trelgream_self_userbot.Database.Models.Billing.{Plan}
use trelgream_self_userbot.Database.Models.Modules.{Module}
use trelgream_self_userbot.Database.State.{Database}
use trelgream_self_userbot.Database.Seed.{seed_each, exists, each_exists, seed_each-seed_each}
use trelgream_self_userbot.Modules.Registry.{ModuleMetadata}
use trelgream_self_userbot.Modules.Manager.{new_module}

pub record NewPlan : Type 0 where
  pub key : String
  pub name : String
  pub price : ℕ
  pub duration_days : ℕ
  pub max_userbots : ℕ
  pub max_modules : ℕ
  pub max_automation_rules : ℕ
  pub max_scheduled_tasks : ℕ
  pub sort_order : ℕ

-- `Plan(**plan)`
abbrev pub plan_row : NewPlan → ℕ → Plan
plan_row p i = record {
  id = i;
  key = p.key;
  name = p.name;
  price = p.price;
  duration_days = p.duration_days;
  max_userbots = p.max_userbots;
  max_modules = p.max_modules;
  max_automation_rules = p.max_automation_rules;
  max_scheduled_tasks = p.max_scheduled_tasks;
  is_active = true;
  sort_order = p.sort_order;
}

-- the Persian names are transliterated, and the descriptions, which repeat them, are left out
abbrev pub plans : List NewPlan
plans =
    record {
      key = "basic";
      name = "30 roozeh";
      price = 200000;
      duration_days = 30;
      max_userbots = 1;
      max_modules = 10;
      max_automation_rules = 5;
      max_scheduled_tasks = 5;
      sort_order = 1;
    }
    ∷ record {
      key = "pro";
      name = "60 roozeh";
      price = 500000;
      duration_days = 60;
      max_userbots = 2;
      max_modules = 50;
      max_automation_rules = 50;
      max_scheduled_tasks = 50;
      sort_order = 2;
    }
    ∷ record {
      key = "premium";
      name = "90 roozeh";
      price = 1200000;
      duration_days = 90;
      max_userbots = 5;
      max_modules = 129;
      max_automation_rules = 200;
      max_scheduled_tasks = 200;
      sort_order = 3;
    }
    ∷ record {
      key = "business";
      name = "360 roozeh";
      price = 3000000;
      duration_days = 360;
      max_userbots = 20;
      max_modules = 200;
      max_automation_rules = 1000;
      max_scheduled_tasks = 1000;
      sort_order = 4;
    }
    ∷ []

unfoldable pub seed_plans : Database → Database
unfolding seed_each
seed_plans db = record db { plans = seed_each (λ p. p.key) plan_row (λ r. r.key) plans db.plans }

abbrev pub optional_str : Option String → Json
optional_str none = null
optional_str (some s) = str s

abbrev pub module_row : ModuleMetadata → ℕ → Module
module_row m = new_module m.key m.name m.category λ row. record row {
  version = m.version;
  description = some m.description;
  is_core = m.is_core;
  default_enabled = m.default_enabled;
  meta = some (
      field "permission" (optional_str m.permission)
        (field "not_implemented" (bool m.not_implemented) end));
}

-- `registered` is `registry.metadata_list()`
unfoldable pub seed_modules : (registered : List ModuleMetadata) → Database → Database
unfolding seed_each
seed_modules registered db = record db {
  modules = seed_each (λ m. m.key) module_row (λ r. r.key) registered db.modules;
}

-- The seeding of the plans and of the modules is idempotent, and after it every plan of the list and
-- every registered module is in its table.
pub seed_lem :
    (registered : List ModuleMetadata) (db : Database)
    → (let db' = seed_modules registered (seed_plans db) in
        (seed_modules registered (seed_plans db') ≡ db')
        × All (λ p. exists (λ q. q.key) plan_row (λ r. r.key) p.key db'.plans ≡ true) plans
        × All
            (λ m. exists (λ n. n.key) module_row (λ r. r.key) m.key db'.modules ≡ true)
            registered)
unfolding seed_plans seed_modules
seed_lem registered db =
    let same_plans =
      seed_each-seed_each (λ p. p.key) plan_row (λ r. r.key) (λ p i. refl) plans db.plans in
    let same_modules =
      seed_each-seed_each (λ m. m.key) module_row (λ r. r.key) (λ m i. refl) registered
        db.modules in
    (
      λ i. record db { plans = same_plans i; modules = same_modules i },
      each_exists (λ p. p.key) plan_row (λ r. r.key) (λ p i. refl) plans db.plans,
      each_exists (λ m. m.key) module_row (λ r. r.key) (λ m i. refl) registered db.modules,
    )
