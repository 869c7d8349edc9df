-- ===== src/Core/Messages.antt =====
-- What stands in a Redis list: the messages that app/workers/commands.py and app/scheduler/queue.py
-- put there and take out.
use trelgream_self_userbot.Prelude.{String, none, some, str_eq, if◌then◌else◌}
use trelgream_self_userbot.Database.Json.{Json, Fields, end, field, get_field}

-- `malformed` is not JSON, and `other` is JSON that is not an object, whose `pop` raises TypeError or
-- AttributeError; `type_error` stands for both
pub data Raw : Type 0 where
  malformed : Raw
  other : Raw
  message : Fields → Raw

-- `body.pop(key, None)`: the value, and the rest
unfoldable pub without_field : String → Fields → Fields
without_field key end = end
without_field key (field k v rest) =
    let others = without_field key rest in if str_eq k key then others else field k v others

-- `body.get(key, default)`
abbrev pub get_or : String → Json → Fields → Json
get_or key default body = elim (get_field key body) [ none ↦ default | some v ↦ v ]
