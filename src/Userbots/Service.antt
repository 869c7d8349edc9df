-- ===== src/Userbots/Service.antt =====
-- app/userbots/service.py: `UserbotService`.
pub mod Sessions
use trelgream_self_userbot.Prelude.{
  ℕ, String, Bool, true, false, ◌&&◌, Option, none, some, List, ◌==◌, str_eq, length, if◌then◌else◌,
  refl,
}
use trelgream_self_userbot.Prelude.Text.{Text}
use trelgream_self_userbot.Core.Exec.{
  Result, ok, err, Exec, pure, raise, get, modify, lift, ◌>>=◌, ◌>>◌,
}
use trelgream_self_userbot.Core.Cipher.{Fernet, encrypt}
use trelgream_self_userbot.Core.Messages.{Raw}
use trelgream_self_userbot.Database.Json.{Json}
use trelgream_self_userbot.Database.Table.{select, one_or_none, change, insert}
use trelgream_self_userbot.Database.Table.Keyed.{by_id}
use trelgream_self_userbot.Database.Models.Userbots.{
  Userbot, UserbotStatus, TelegramAccount, TelegramSession, same_status, place,
}
use trelgream_self_userbot.Database.State.{Database}
use trelgream_self_userbot.Database.Repository.{Model, add, change_rows, get_or_raise}
use trelgream_self_userbot.Userbots.Model.{userbot_model}
use trelgream_self_userbot.Workers.Commands.{send}

abbrev pub account_model : Model TelegramAccount
account_model = record {
  id = λ r. r.id;
  has_tenant = true;
  tenant = λ r. some r.user_id;
  table = λ db. db.accounts;
  with_table = λ t db. record db { accounts = t };
  table-with_table = λ t db. refl;
}

abbrev pub session_model : Model TelegramSession
session_model = record {
  id = λ r. r.id;
  has_tenant = false;
  tenant = λ r. none;
  table = λ db. db.sessions;
  with_table = λ t db. record db { sessions = t };
  table-with_table = λ t db. refl;
}

abbrev pub or_new_account :
    (user_id : ℕ) (phone : String) → Option TelegramAccount → Exec Database TelegramAccount
or_new_account user_id phone (some a) = pure a
or_new_account user_id phone none = add account_model λ i. record {
  id = i;
  user_id = user_id;
  phone = phone;
  is_authorized = false;
  auth_state = "created";
  last_code_sent_at = none;
}

unfoldable pub get_or_create_account :
    (user_id : ℕ) (phone : String) → Exec Database TelegramAccount
unfolding add
get_or_create_account user_id phone = do
  db ← get
  existing ←
      lift
        (one_or_none (select (λ a. a.user_id == user_id && str_eq a.phone phone) db.accounts.rows))
  or_new_account user_id phone existing

abbrev pub or_new_userbot : (user_id account_id : ℕ) → Option Userbot → Exec Database Userbot
or_new_userbot user_id account_id (some u) = pure u
or_new_userbot user_id account_id none = add userbot_model λ i. record {
  id = i;
  user_id = user_id;
  telegram_account_id = account_id;
  name = none;
  status = UserbotStatus.created;
  current_worker_id = none;
  last_heartbeat_at = none;
  error_message = none;
}

unfoldable pub get_or_create_userbot : (user_id account_id : ℕ) → Exec Database Userbot
unfolding add
get_or_create_userbot user_id account_id = do
  db ← get
  existing ← lift (one_or_none (select (λ u. u.telegram_account_id == account_id) db.userbots.rows))
  or_new_userbot user_id account_id existing

abbrev pub with_status : UserbotStatus → Userbot → Userbot
with_status status u = record u { status = status }

abbrev pub set_status : ℕ → UserbotStatus → Database → Database
set_status i status = change_rows userbot_model (by_id (λ u. u.id) i) (with_status status)

abbrev pub authorized : TelegramAccount → TelegramAccount
authorized a = record a { is_authorized = true; auth_state = "authorized" }

abbrev pub new_session :
    (account_id : ℕ) (encrypted : String) (device_model : Option String) → ℕ → TelegramSession
new_session account_id encrypted device_model i = record {
  id = i;
  telegram_account_id = account_id;
  encrypted_session = encrypted;
  is_active = true;
  revoked_at = none;
  device_model = device_model;
  device_app = none;
  ip_hint = none;
}

unfoldable pub complete_authorization :
    Fernet
    → (user_id : ℕ) (phone session_string : String) (device_model : Option String)
    → Exec Database Userbot
unfolding get_or_create_account get_or_create_userbot encrypt add
complete_authorization fernet user_id phone session_string device_model = do
  account ← get_or_create_account user_id phone
  modify (change_rows account_model (by_id (λ a. a.id) account.id) authorized)
  encrypted ← lift (encrypt fernet session_string)
  session ← add session_model (new_session account.id encrypted device_model)
  userbot ← get_or_create_userbot user_id account.id
  modify (set_status userbot.id UserbotStatus.authorized)
  pure (with_status UserbotStatus.authorized userbot)

abbrev pub is_live : ℕ → TelegramSession → Bool
is_live account_id s = s.telegram_account_id == account_id && s.is_active

abbrev pub revoked : (clock : ℕ → ℕ) → TelegramSession → TelegramSession
revoked clock s = record s { is_active = false; revoked_at = some (clock s.id) }

-- The loop assigns to the rows that the query returned; `clock i` is the time at the round of row `i`.
unfoldable pub revoke_sessions : (userbot_id : ℕ) (clock : ℕ → ℕ) → Exec Database ℕ
unfolding get_or_raise
revoke_sessions userbot_id clock = do
  userbot ← get_or_raise userbot_model userbot_id
  db ← get
  modify (change_rows session_model (is_live userbot.telegram_account_id) (revoked clock))
  pure (length (select (is_live userbot.telegram_account_id) db.sessions.rows))

-- the session, and the list `commands:userbots`
pub record Station : Type 0 where
  pub db : Database
  pub commands : List Raw

abbrev pub in_session : {A : Type 0} → Exec Database A → Exec Station A
in_session m w = let (r, db) = m w.db in (r, record w { db = db })

module _ (repr : Json → Text) (sign : Text → String) where
  -- `command_id` and `now` are those that `send` draws
  abbrev pub command :
      (command_id action : String) (target actor : ℕ) (role : String) (now : ℕ)
      → Exec Station (Unit {0})
  command command_id action target actor role now = modify (λ w. record w {
    commands = send repr sign command_id action target (some actor) (some role) now w.commands;
  })

  abbrev pub start_stopped :
      (command_id : String) (now userbot_id actor_id : ℕ) (actor_role : String)
      → Userbot
      → Exec Station (Unit {0})
  start_stopped command_id now userbot_id actor_id actor_role userbot = do
    in_session (modify (set_status userbot.id UserbotStatus.starting))
    command command_id "start" userbot_id actor_id actor_role now

  unfoldable pub request_start :
      (command_id : String) (now userbot_id actor_id : ℕ) (actor_role : String)
      → Exec Station (Unit {0})
  unfolding get_or_raise send
  request_start command_id now userbot_id actor_id actor_role = do
    userbot ← in_session (get_or_raise userbot_model userbot_id)
    if same_status userbot.status UserbotStatus.running
        then pure tt
        else start_stopped command_id now userbot_id actor_id actor_role userbot

  unfoldable pub request_stop :
      (command_id : String) (now userbot_id actor_id : ℕ) (actor_role : String)
      → Exec Station (Unit {0})
  unfolding get_or_raise send
  request_stop command_id now userbot_id actor_id actor_role = do
    userbot ← in_session (get_or_raise userbot_model userbot_id)
    in_session (modify (set_status userbot.id UserbotStatus.stopping))
    command command_id "stop" userbot_id actor_id actor_role now

  unfoldable pub request_restart :
      (command_id : String) (now userbot_id actor_id : ℕ) (actor_role : String)
      → Exec Station (Unit {0})
  unfolding get_or_raise send
  request_restart command_id now userbot_id actor_id actor_role = do
    userbot ← in_session (get_or_raise userbot_model userbot_id)
    command command_id "restart" userbot_id actor_id actor_role now
