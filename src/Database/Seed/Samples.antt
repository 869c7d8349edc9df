-- ===== src/Database/Seed/Samples.antt =====
-- Two seedings of an empty database.
use trelgream_self_userbot.Prelude.{◌≡◌, true, false, none, [], ◌∷◌}
use trelgream_self_userbot.Database.Table.Find.{All}
use trelgream_self_userbot.Database.State.{Database}
use trelgream_self_userbot.Database.Empty.{empty_database}
use trelgream_self_userbot.Database.Seed.{exists}
use trelgream_self_userbot.Database.Seed.Tables.{
  plans, plan_row, module_row, seed_plans, seed_modules, seed_lem,
}
use trelgream_self_userbot.Modules.Registry.{ModuleMetadata}

abbrev notes : ModuleMetadata
notes = record {
  key = "notes";
  name = "notes";
  category = "general";
  version = "1.0.0";
  description = "";
  permission = none;
  default_enabled = false;
  is_core = false;
  not_implemented = false;
}

abbrev seeded : Database
seeded = seed_modules (notes ∷ []) (seed_plans empty_database)

seed_lem_example :
    (seed_modules (notes ∷ []) (seed_plans seeded) ≡ seeded)
    × All (λ p. exists (λ q. q.key) plan_row (λ r. r.key) p.key seeded.plans ≡ true) plans
    × All
        (λ m. exists (λ n. n.key) module_row (λ r. r.key) m.key seeded.modules ≡ true)
        (notes ∷ [])
seed_lem_example = seed_lem (notes ∷ []) empty_database
