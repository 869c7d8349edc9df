-- ===== src/Bot/State.antt =====
-- `ConversationState` of app/bot/state.py, over the interface to Redis.
use trelgream_self_userbot.Prelude.{ℕ, ◌*◌, ◌++◌, String, Option, none, some}
use trelgream_self_userbot.Prelude.Text.{Text, codes, decimal}
use trelgream_self_userbot.Core.Errors.{type_error}
use trelgream_self_userbot.Core.Exec.{Result, ok, err, Exec, lift, ◌>>=◌}
use trelgream_self_userbot.Core.Redis.{Commands}
use trelgream_self_userbot.Database.Json.{Json, null, str, obj, Fields, end, field, get_field}
use trelgream_self_userbot.Core.Messages.{get_or}

abbrev pub state_key : (tg_id : ℕ) → Text
state_key tg_id = codes "bot_state:" ++ decimal tg_id

-- `data or {}`
abbrev pub or_no_data : Option Fields → Fields
or_no_data none = end
or_no_data (some d) = d

abbrev pub stored_state : (state : String) → Option Fields → Fields
stored_state state fields = field "state" (str state) (field "data" (obj (or_no_data fields)) end)

-- `obj.get("state"), obj.get("data", {})`
abbrev pub state_of : Json → Result (Json × Json)
state_of (obj fields) = ok (get_or "state" null fields, get_or "data" (obj end) fields)
state_of _ = err type_error

-- `dumps` and `loads` are those of `json`
module _ {R : Type 0} (redis : Commands R) (dumps : Fields → String)
    (loads : String → Result Json) where
  unfoldable pub set_state : (tg_id : ℕ) (state : String) → Option Fields → Exec R (Unit {0})
  unfolding decimal
  set_state tg_id state fields =
      redis.set (state_key tg_id) (dumps (stored_state state fields)) (15 * 60)

  abbrev pub parsed_state : Result Json → Result (Option (Json × Json))
  parsed_state (err e) = err e
  parsed_state (ok value) = elim (state_of value) [ ok pair ↦ ok (some pair) | err e ↦ err e ]

  abbrev pub read_state : Option String → Result (Option (Json × Json))
  read_state none = ok none
  read_state (some raw) = parsed_state (loads raw)

  unfoldable pub get_state : (tg_id : ℕ) → Exec R (Option (Json × Json))
  unfolding decimal get_field
  get_state tg_id = do raw ← redis.get (state_key tg_id); lift (read_state raw)

  unfoldable pub clear_state : (tg_id : ℕ) → Exec R (Unit {0})
  unfolding decimal
  clear_state tg_id = redis.delete (state_key tg_id)
