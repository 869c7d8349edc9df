-- ===== src/Workers/Commands.antt =====
-- app/workers/commands.py: `CommandBus`. The Redis list is the list of its messages, and a message
-- is what `json.loads` makes of it. `now` is `int(time.time())`.
pub mod Canonical
pub mod Delivery
use trelgream_self_userbot.Prelude.{
  ℕ, suc, ◌+◌, String, Bool, true, false, not, Option, none, some, List, [], ◌∷◌, ◌++◌, map, ltb,
  str_eq, if◌then◌else◌,
}
use trelgream_self_userbot.Prelude.Int.{ℤ, pos, negsuc, ltb_ℤ}
use trelgream_self_userbot.Prelude.Text.{Text, codes, decimal}
use trelgream_self_userbot.Core.Errors.{Exception, type_error}
use trelgream_self_userbot.Core.Exec.{Result, ok, err}
use trelgream_self_userbot.Core.Signer.{verify}
use trelgream_self_userbot.Core.Messages.{Raw, malformed, other, message, without_field, get_or}
use trelgream_self_userbot.Database.Json.{
  Json, null, bool, int, str, arr, obj, Items, nil, cons, Fields, end, field, get_field,
}
use trelgream_self_userbot.Automation.Actions.{truthy}

abbrev pub command_ttl : ℕ
command_ttl = 300

abbrev pub optional_int : Option ℕ → Json
optional_int none = null
optional_int (some n) = int (pos n)

abbrev pub optional_str : Option String → Json
optional_str none = null
optional_str (some s) = str s

-- the body that `send` signs; `uuid4().hex` is an argument
abbrev pub command_body :
    (command_id action : String) (target_id : ℕ) (actor_id : Option ℕ) (actor_role : Option String)
    → (now : ℕ) → Fields
command_body command_id action target_id actor_id actor_role now =
    field "command_id" (str command_id) (
      field "ts" (int (pos now)) (
        field "expires_at" (int (pos (now + command_ttl))) (
          field "action" (str action) (
            field "target_id" (int (pos target_id)) (
              field "actor_id" (optional_int actor_id)
                (field "actor_role" (optional_str actor_role) end))))))

-- `str(value)`; `repr` is that of the values with parts
module _ (repr : Json → Text) where
  unfoldable pub str_of : Json → Text
  str_of null = codes "None"
  str_of (bool true) = codes "True"
  str_of (bool false) = codes "False"
  str_of (int (pos n)) = decimal n
  str_of (int (negsuc n)) = codes "-" ++ decimal (suc n)
  str_of (str s) = codes s
  str_of (arr items) = repr (arr items)
  str_of (obj fields) = repr (obj fields)

  abbrev pub canonical_fields : List String
  canonical_fields =
      "command_id" ∷ "ts" ∷ "expires_at" ∷ "action" ∷ "target_id" ∷ "actor_id" ∷ "actor_role" ∷ []

  unfoldable pub texts_of : Fields → List String → List Text
  unfolding str_of get_field
  texts_of body [] = []
  texts_of body (f ∷ fs) = str_of (get_or f (str "") body) ∷ texts_of body fs

-- `"|".join(parts)`
unfoldable pub join_parts : List Text → Text
join_parts [] = []
join_parts (t ∷ []) = t
join_parts (t ∷ u ∷ ts) = t ++ b'|' ∷ join_parts (u ∷ ts)

unfoldable pub canonical : (repr : Json → Text) → Fields → Text
unfolding texts_of join_parts
canonical repr body = join_parts (texts_of repr body (canonical_fields repr))

-- `body.get("expires_at", 0) < now`
unfoldable pub is_expired : ℕ → Json → Result Bool
is_expired now (int n) = ok (ltb_ℤ n (pos now))
is_expired now (bool b) = ok (ltb (if b then 1 else 0) now)
is_expired now _ = err type_error

module _ (repr : Json → Text) (sign : Text → String) where
  unfoldable pub send :
      (command_id action : String) (target_id : ℕ) (actor_id : Option ℕ)
      → (actor_role : Option String) (now : ℕ) → List Raw
      → List Raw
  unfolding canonical
  send command_id action target_id actor_id actor_role now queue =
      let body = command_body command_id action target_id actor_id actor_role now in
      queue ++ message (field "signature" (str (sign (canonical repr body))) body) ∷ []

  abbrev pub after_expiry : Fields → Result Bool → Result (Option Fields)
  after_expiry body (ok true) = ok none
  after_expiry body (ok false) = ok (some body)
  after_expiry body (err e) = err e

  abbrev pub after_verify : ℕ → Fields → Result Bool → Result (Option Fields)
  after_verify now body (ok true) =
      after_expiry body (is_expired now (get_or "expires_at" (int (pos 0)) body))
  after_verify now body (ok false) = ok none
  after_verify now body (err e) = err e

  -- the checks of `pop` on a message that was in the list
  unfoldable pub check : ℕ → Raw → Result (Option Fields)
  unfolding canonical verify truthy is_expired without_field get_field
  check now malformed = ok none
  check now other = err type_error
  check now (message fields) =
      let signature = get_or "signature" null fields in
      let body = without_field "signature" fields in
      if truthy signature
      then after_verify now body (verify sign (canonical repr body) signature)
      else ok none

  unfoldable pub pop : ℕ → List Raw → Result (Option Fields) × List Raw
  unfolding check
  pop now [] = (ok none, [])
  pop now (raw ∷ queue) = (check now raw, queue)
