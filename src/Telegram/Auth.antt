-- ===== src/Telegram/Auth.antt =====
-- app/telegram/auth_service.py. The clients of Telethon are an interface; the texts for people are left
-- out.
use trelgream_self_userbot.Prelude.{
  ℕ, ◌≡◌, String, Bool, true, false, Option, none, some, ◌++◌, if◌then◌else◌,
}
use trelgream_self_userbot.Prelude.Text.{codes}
use trelgream_self_userbot.Core.Errors.{
  Exception, validation_error, telegram_flood_wait, flood_wait, phone_code_invalid,
  phone_code_expired, password_hash_invalid, session_password_needed, type_error, key_error,
}
use trelgream_self_userbot.Core.Exec.{
  Result, ok, err, Exec, pure, raise, lift, get, modify, continue, ◌>>=◌, ◌>>◌,
}
use trelgream_self_userbot.Core.Redis.{AuthStateStore, save, load}
use trelgream_self_userbot.Database.Json.{
  Json, null, bool, int, str, arr, obj, Fields, end, field, get_field, set_field,
}
mod Errors
mod Steps
mod Login
mod Samples

-- the constructors of `SentCodeType` that the code tells apart, with their `length`
pub data SentCodeType : Type 0 where
  type_app : Option ℕ → SentCodeType
  type_sms : Option ℕ → SentCodeType
  type_call : Option ℕ → SentCodeType
  type_flash_call : SentCodeType
  type_email_code : Option ℕ → SentCodeType
  type_fragment_sms : Option ℕ → SentCodeType
  type_other : SentCodeType

-- `method` and `code_length` of the dictionary
unfoldable pub describe_sent_code : SentCodeType → String × Option ℕ
describe_sent_code (type_app length) = ("app", length)
describe_sent_code (type_sms length) = ("sms", length)
describe_sent_code (type_call length) = ("call", length)
describe_sent_code type_flash_call = ("flash_call", none)
describe_sent_code (type_email_code length) = ("email", length)
describe_sent_code (type_fragment_sms length) = ("fragment_sms", length)
describe_sent_code type_other = ("other", none)

pub record SentCode : Type 0 where
  pub type : SentCodeType
  pub phone_code_hash : String

-- the attributes of the `User` that `sign_in` returns
pub record Me : Type 0 where
  pub id : Option ℕ
  pub first_name : Option String

pub data AuthStatus : Type 0 where
  code_sent : AuthStatus
  needs_2fa : AuthStatus
  authorized : AuthStatus

pub record AuthResult : Type 0 where
  pub status : AuthStatus
  pub code_method : Option String
  pub code_length : Option ℕ
  pub session_string : Option String
  pub user_phone : Option String
  pub user_id : Option ℕ
  pub first_name : Option String

abbrev pub plain_result : AuthStatus → AuthResult
plain_result status = record {
  status = status;
  code_method = none;
  code_length = none;
  session_string = none;
  user_phone = none;
  user_id = none;
  first_name = none;
}

-- the methods of a client, which is a state of type C; `build` is `build_user_client`
pub record Client (C : Type 0) : Type 0 where
  pub build : Json → Result C
  pub connect : Exec C (Unit {0})
  pub send_code_request : (phone : String) (force_sms : Bool) → Exec C SentCode
  pub sign_in_with_code : (phone code : String) (phone_code_hash : Json) → Exec C Me
  pub sign_in_with_password : (password : String) → Exec C Me
  pub save_session : C → String
  pub disconnect : Exec C (Unit {0})

-- `state[key]`
abbrev pub subscript : String → Json → Result Json
subscript key (obj fields) = elim (get_field key fields) [ none ↦ err key_error | some v ↦ ok v ]
subscript key _ = err type_error

-- the clauses of `_guard_flood`
unfoldable pub translated : Exception → Exception
translated (flood_wait seconds) = telegram_flood_wait
translated phone_code_invalid = validation_error
translated phone_code_expired = validation_error
translated password_hash_invalid = validation_error
translated e = e

abbrev pub guarded : {A : Type 0} → Result A → Result A
guarded (ok a) = ok a
guarded (err e) = err (translated e)

abbrev pub guard_flood : {R A : Type 0} → Exec R A → Exec R A
guard_flood f r = let (a, s) = f r in (guarded a, s)

module _ {R C : Type 0} (store : AuthStateStore R) (client : Client C) where
  -- a method of the client, and one of the store
  abbrev pub on_client : {A : Type 0} → Exec C A → Exec (R × C) A
  on_client f (r, c) = let (a, d) = f c in (a, (r, d))

  abbrev pub on_store : {A : Type 0} → Exec R A → Exec (R × C) A
  on_store f (r, c) = let (a, s) = f r in (a, (s, c))

  -- what the `finally` lets through: an exception of its own comes before the outcome of the body
  abbrev pub outcome : {A : Type 0} → Result A → Result (Unit {0}) → Result A
  outcome a (ok u) = a
  outcome a (err e) = err e

  -- `try: body finally: await client.disconnect()`; the client goes out of use
  abbrev pub closing : {A : Type 0} → Exec (R × C) A → C → Exec R A
  closing body c r = let (a, (s, d)) = body (r, c) in (outcome a (client.disconnect d).0, s)

  abbrev pub with_client : {A : Type 0} → Json → Exec (R × C) A → Exec R A
  with_client session body = lift (client.build session) >>= (λ c. closing body c)

  abbrev pub first_state : (phone : String) → SentCode → C → Fields
  first_state phone sent c = field "phone" (str phone) (
      field "phone_code_hash" (str sent.phone_code_hash)
        (field "session" (str (client.save_session c)) end))

  abbrev pub described : SentCode → AuthResult
  described sent =
      let (method, length) = describe_sent_code sent.type in
      record (plain_result code_sent) { code_method = some method; code_length = length }

  abbrev pub request_code : (phone : String) → Exec (R × C) AuthResult
  request_code phone = do
    on_client client.connect
    sent ← on_client (client.send_code_request phone true)
    (r, c) ← get
    on_store (save store (codes phone) (first_state phone sent c))
    pure (described sent)

  unfoldable pub send_code : (phone : String) → Exec R AuthResult
  unfolding describe_sent_code save translated
  send_code phone = guard_flood (with_client null (request_code phone))

  abbrev pub as_authorized : C → (phone : String) → Me → AuthResult
  as_authorized c phone me = record (plain_result authorized) {
    session_string = some (client.save_session c);
    user_phone = some phone;
    user_id = me.id;
    first_name = me.first_name;
  }

  -- `return self._authorized(client, phone, me)`
  abbrev pub authorize : (phone : String) → Me → Exec (R × C) AuthResult
  authorize phone me (r, c) = (ok (as_authorized c phone me), (r, c))

  -- the state as it is after both assignments
  abbrev pub password_state : C → Fields → Fields
  password_state c f =
      set_field "needs_2fa" (bool true) (set_field "session" (str (client.save_session c)) f)

  abbrev pub with_password_state : C → Json → Result Fields
  with_password_state c (obj f) = ok (password_state c f)
  with_password_state c _ = err type_error

  -- the `except SessionPasswordNeededError`
  abbrev pub ask_password : (phone : String) → (state : Json) → Exec (R × C) AuthResult
  ask_password phone state = do
    (r, c) ← get
    saved ← lift (with_password_state c state)
    on_store (save store (codes phone) saved)
    pure (plain_result needs_2fa)

  abbrev pub after_sign_in : (phone : String) → (state : Json) → Result Me → Exec (R × C) AuthResult
  after_sign_in phone state (ok me) = authorize phone me
  after_sign_in phone state (err session_password_needed) = ask_password phone state
  after_sign_in phone state (err e) = raise e

  -- the inner `try`, of which the body is `sign_in`, with `state["phone_code_hash"]`
  abbrev pub try_sign_in : (phone code : String) → Result Json → Exec (R × C) (Result Me)
  try_sign_in phone code (err e) rc = (ok (err e), rc)
  try_sign_in phone code (ok hash) (r, c) =
      let (me, d) = client.sign_in_with_code phone code hash c in (ok me, (r, d))

  abbrev pub enter_code : (phone code : String) → (state : Json) → Exec (R × C) AuthResult
  enter_code phone code state = do
    on_client client.connect
    me ← try_sign_in phone code (subscript "phone_code_hash" state)
    after_sign_in phone state me

  unfoldable pub sign_in_code : (phone code : String) → Exec R AuthResult
  unfolding save load translated get_field set_field
  sign_in_code phone code = guard_flood (do
    state ← load store (codes phone)
    session ← lift (subscript "session" state)
    with_client session (enter_code phone code state))

  abbrev pub enter_password : (phone password : String) → Exec (R × C) AuthResult
  enter_password phone password = do
    on_client client.connect
    me ← on_client (client.sign_in_with_password password)
    authorize phone me

  unfoldable pub sign_in_2fa : (phone password : String) → Exec R AuthResult
  unfolding load translated get_field
  sign_in_2fa phone password = guard_flood (do
    state ← load store (codes phone)
    session ← lift (subscript "session" state)
    with_client session (enter_password phone password))
