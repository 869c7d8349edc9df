-- ===== src/Modules/Registry.antt =====
-- app/modules/registry.py: `ModuleRegistry`, a dictionary in the order of registration.
pub mod Discovery
use trelgream_self_userbot.Prelude.{
  String, Bool, true, false, Option, none, some, List, [], ◌∷◌, ◌++◌, map, any, str_eq,
  if◌then◌else◌,
}
use trelgream_self_userbot.Core.Errors.{value_error}
use trelgream_self_userbot.Core.Exec.{Exec, pure, get, modify, require, ◌>>=◌, ◌>>◌}

-- `ModuleMetadata` of app/modules/base.py, without the schema of the settings panel
pub record ModuleMetadata : Type 0 where
  pub key : String
  pub name : String
  pub category : String
  pub version : String
  pub description : String
  pub permission : Option String
  pub default_enabled : Bool
  pub is_core : Bool
  pub not_implemented : Bool

-- a class with its metadata; what else it has is not looked at
module _ {ModuleClass : Type 0} (metadata : ModuleClass → ModuleMetadata) where
  abbrev pub Registry : Type 0
  Registry = List (String × ModuleClass)

  abbrev pub is_registered : String → Registry → Bool
  is_registered key modules = any (λ m. str_eq m.0 key) modules

  unfoldable pub register : ModuleClass → Exec Registry (Unit {0})
  register cls = do
    modules ← get
    require (if is_registered (metadata cls).key modules then false else true) value_error
    modify (λ ms. ms ++ ((metadata cls).key, cls) ∷ [])

  unfoldable pub discover : List ModuleClass → Exec Registry (Unit {0})
  unfolding register
  discover [] = pure tt
  discover (cls ∷ classes) = do register cls; discover classes

  unfoldable pub lookup : String → Registry → Option ModuleClass
  lookup key [] = none
  lookup key ((k, cls) ∷ modules) = if str_eq k key then some cls else lookup key modules

  unfoldable pub all : Registry → List ModuleClass
  all modules = map (λ m. m.1) modules

  unfoldable pub metadata_list : Registry → List ModuleMetadata
  unfolding all
  metadata_list modules = map metadata (all modules)
