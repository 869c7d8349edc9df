-- ===== src/Telegram/Auth/Samples.antt =====
-- A sign-in with a code and a password.
use trelgream_self_userbot.Prelude.{
  ℕ, ◌+◌, ◌≡◌, refl, true, false, some, str_eq, is_some, if◌then◌else◌, ◌==◌,
}
use trelgream_self_userbot.Core.Errors.{
  value_error, password_hash_invalid, phone_code_invalid, session_password_needed,
}
use trelgream_self_userbot.Core.Exec.{Result, ok, err}
use trelgream_self_userbot.Core.Redis.{AuthStateStore}
use trelgream_self_userbot.Core.Redis.Samples.{Server, toy_redis, toy_redis-IsStoring, empty}
use trelgream_self_userbot.Database.Json.{
  Json, null, obj, str, Fields, field, end, get_field, set_field,
}
use trelgream_self_userbot.Telegram.Auth
use trelgream_self_userbot.Telegram.Auth.Steps
use trelgream_self_userbot.Telegram.Auth.Login.{sign_in_2fa-send_code}
use trelgream_self_userbot.Telegram.Auth.Errors.{raises_foreign, raises_foreign_lem}

abbrev sent : Auth.SentCode
sent = record { type = Auth.type_sms (some 5); phone_code_hash = "h" }

abbrev me : Auth.Me
me = record { id = some 7; first_name = some "Sara" }

-- a client is a number: 0, 1, 2 for the first session, and so on
abbrev build : Json → Result ℕ
build null = ok 0
build (str s) = if str_eq s "one" then ok 10 else if str_eq s "two" then ok 20 else err value_error
build _ = err value_error

abbrev toy_client : Auth.Client ℕ
toy_client = record {
  build = build;
  connect = λ c. (ok tt, c + 1);
  send_code_request = λ phone force_sms c. (ok sent, c + 1);
  sign_in_with_code = λ phone code hash c.
      if str_eq code "123"
      then (err session_password_needed, c + 1)
      else (err phone_code_invalid, c);
  sign_in_with_password =
      λ password c. if str_eq password "pw" then (ok me, c + 1) else (err password_hash_invalid, c);
  save_session = λ c. if c == 2 then "one" else if c == 12 then "two" else "three";
  disconnect = λ c. (ok tt, c);
}

abbrev first : Fields
first =
    field "phone" (str "+98") (field "phone_code_hash" (str "h") (field "session" (str "one") end))

abbrev second : Fields
second = field "phone" (str "+98") (
    field "phone_code_hash" (str "h")
      (field "session" (str "two") (field "needs_2fa" (Json.bool true) end)))

abbrev toy_store : AuthStateStore Server
toy_store = record {
  redis = toy_redis;
  encrypt = λ s. ok s;
  decrypt = λ s. ok s;
  dumps = λ f. if is_some (get_field "needs_2fa" f) then "2" else "1";
  loads = λ s. ok (obj (if str_eq s "2" then second else first));
}

kept : Steps.IsFaithful toy_store
kept = record {
  value = λ k r. r.values k;
  expiry = λ k r. r.expiries k;
  storing = toy_redis-IsStoring;
}

first-IsCoded : Steps.IsCoded toy_store (Auth.first_state toy_store toy_client "+98" sent 2)
unfolding get_field
first-IsCoded = record { token = "1"; encrypted = refl; decrypted = refl; parsed = refl }

second-IsCoded : Steps.IsCoded toy_store (
    Auth.password_state toy_store toy_client 12
      (Auth.first_state toy_store toy_client "+98" sent 2))
unfolding get_field set_field
second-IsCoded = record { token = "2"; encrypted = refl; decrypted = refl; parsed = refl }

sign_in_2fa-send_code_example :
    let first = Auth.send_code toy_store toy_client "+98" empty in
    let second = Auth.sign_in_code toy_store toy_client "+98" "123" first.1 in
    (first.0 ≡ ok (Auth.described toy_store toy_client sent))
    × (second.0 ≡ ok (Auth.plain_result Auth.needs_2fa))
    × ((Auth.sign_in_2fa toy_store toy_client "+98" "pw" second.1).0
        ≡ ok (Auth.as_authorized toy_store toy_client 22 "+98" me))
sign_in_2fa-send_code_example =
    sign_in_2fa-send_code toy_store toy_client kept "+98" "123" "pw" sent me empty first-IsCoded
      (record { built = refl; connected = refl; disconnected = refl }) refl
      (record { built = refl; connected = refl; disconnected = refl }) refl second-IsCoded
      (record { built = refl; connected = refl; disconnected = refl }) refl

raises_foreign_lem_example :
    raises_foreign
      (Auth.sign_in_2fa toy_store toy_client "+98" "wrong"
        (Auth.send_code toy_store toy_client "+98" empty).1).0
    ≡ false
raises_foreign_lem_example =
    (raises_foreign_lem toy_store toy_client "+98" "wrong"
      (Auth.send_code toy_store toy_client "+98" empty).1).2
