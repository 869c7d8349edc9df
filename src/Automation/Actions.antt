-- ===== src/Automation/Actions.antt =====
-- app/automation/actions.py: the calls that an action makes on the event and the client. A call that
-- raises is logged and dropped by the `except` around it, so the next action runs in any case, and
-- what the outside world sees is the list of the calls made.
use trelgream_self_userbot.Prelude.{
  String, Bool, true, false, Option, none, some, List, [], ◌∷◌, ◌++◌, str_eq, if◌then◌else◌, ◌==◌,
}
use trelgream_self_userbot.Prelude.Int.{pos, negsuc}
use trelgream_self_userbot.Database.Json.{
  Json, null, bool, int, str, arr, obj, nil, cons, Fields, end, field, get_field,
}
use trelgream_self_userbot.Database.Models.Automation.{AutomationAction}
use trelgream_self_userbot.Automation.Conditions.{value_at}

-- the calls of Telethon
pub data Call : Type 0 where
  reply : (text : Json) → Call
  delete : Call
  forward_messages : (to_chat : Json) → Call
  send_message : (chat text : Json) → Call
  restrict_sending : (user_id : Json) → Call

-- the truth value of a Python object
unfoldable pub truthy : Json → Bool
truthy null = false
truthy (bool b) = b
truthy (int (pos n)) = if n == 0 then false else true
truthy (int (negsuc n)) = true
truthy (str s) = if str_eq s "" then false else true
truthy (arr nil) = false
truthy (arr (cons x xs)) = true
truthy (obj end) = false
truthy (obj (field k v rest)) = true

-- `payload.get("text", "")`
abbrev text_of : Fields → Json
text_of payload = elim (get_field "text" payload) [ none ↦ str "" | some v ↦ v ]

abbrev or_empty : Option Fields → Fields
or_empty none = end
or_empty (some payload) = payload

abbrev when_truthy : Json → Call → List Call
when_truthy value call = if truthy value then call ∷ [] else []

unfoldable pub execute_action : (action_type : String) (payload : Option Fields) → List Call
unfolding truthy get_field
execute_action action_type given =
    let payload = or_empty given in
    if str_eq action_type "reply"
    then reply (text_of payload) ∷ []
    else if str_eq action_type "delete"
    then delete ∷ []
    else if str_eq action_type "forward"
    then when_truthy (value_at "to_chat" payload) (forward_messages (value_at "to_chat" payload))
    else if str_eq action_type "send"
    then when_truthy (value_at "chat" payload)
        (send_message (value_at "chat" payload) (text_of payload))
    else if str_eq action_type "mute"
    then when_truthy (value_at "user_id" payload) (restrict_sending (value_at "user_id" payload))
    else []

unfoldable pub execute_actions : List AutomationAction → List Call
unfolding execute_action
execute_actions [] = []
execute_actions (a ∷ actions) = execute_action a.action_type a.payload ++ execute_actions actions
