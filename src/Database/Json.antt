-- ===== src/Database/Json.antt =====
-- The values of JSON columns and messages (`JSONType` of app/database/base.py).
use trelgream_self_userbot.Prelude.{String, Bool, Option, none, some, str_eq, if◌then◌else◌}
use trelgream_self_userbot.Prelude.Int.{ℤ}

mutual
  pub data Json : Type 0 where
    null : Json
    bool : Bool → Json
    int : ℤ → Json
    str : String → Json
    arr : Items → Json
    obj : Fields → Json

  pub data Items : Type 0 where
    nil : Items
    cons : Json → Items → Items

  pub data Fields : Type 0 where
    end : Fields
    field : String → Json → Fields → Fields

-- `d.get(key)`
unfoldable pub get_field : String → Fields → Option Json
get_field key end = none
get_field key (field k v rest) = if str_eq k key then some v else get_field key rest

-- `d[key] = value`
unfoldable pub set_field : String → Json → Fields → Fields
set_field key value end = field key value end
set_field key value (field k v rest) =
    if str_eq k key then field key value rest else field k v (set_field key value rest)
