-- ===== src/Userbots/Samples.antt =====
-- A user who links an account that has an old session.

use trelgream_self_userbot.Prelude.{
  ◌==◌, ◌≡◌, refl, String, true, Option, none, some, [], ◌∷◌, arith, length,
}
use trelgream_self_userbot.Core.Errors.{session_error}
use trelgream_self_userbot.Core.Exec.{ok, err}
use trelgream_self_userbot.Core.Cipher.{Fernet}
use trelgream_self_userbot.Database.Table.{select, find, one_or_none}
use trelgream_self_userbot.Database.Table.Keyed.{IsKeyed}
use trelgream_self_userbot.Database.Models.Userbots.{
  Userbot, UserbotStatus, TelegramAccount, TelegramSession,
}
use trelgream_self_userbot.Database.State.{Database}
use trelgream_self_userbot.Database.Empty.{empty_database}
use trelgream_self_userbot.Userbots.Repository.{get_active_session}
use trelgream_self_userbot.Userbots.Service.{
  complete_authorization, get_or_create_account, revoke_sessions, is_live,
}
use trelgream_self_userbot.Userbots.Service.Sessions.{
  revoke_sessions_lem, without_sessions, complete_authorization-get_active_session,
}

-- a token is the text behind a mark
abbrev unmark : String → Option String
unmark String.[] = none
unmark (String.◌∷◌ c s) = some s

abbrev marking : Fernet
marking = record { to_token = λ s. String.◌∷◌ "g" s; of_token = unmark }

abbrev account : TelegramAccount
account = record {
  id = 1;
  user_id = 7;
  phone = "+98";
  is_authorized = true;
  auth_state = "authorized";
  last_code_sent_at = none;
}

abbrev old_session : TelegramSession
old_session = record {
  id = 1;
  telegram_account_id = 1;
  encrypted_session = "gold";
  is_active = true;
  revoked_at = none;
  device_model = none;
  device_app = none;
  ip_hint = none;
}

abbrev userbot : Userbot
userbot = record {
  id = 4;
  user_id = 7;
  telegram_account_id = 1;
  name = none;
  status = UserbotStatus.suspended;
  current_worker_id = none;
  last_heartbeat_at = none;
  error_message = none;
}

abbrev linked : Database
linked = record empty_database {
  accounts = record { rows = account ∷ []; next_id = 2 };
  sessions = record { rows = old_session ∷ []; next_id = 2 };
  userbots = record { rows = userbot ∷ []; next_id = 5 };
}

account_of_seven : get_or_create_account 7 "+98" linked ≡ (ok account, linked)
unfolding get_or_create_account one_or_none select
account_of_seven = refl

sessions-IsKeyed : IsKeyed (λ s. s.id) linked.sessions
sessions-IsKeyed = omega arith

complete_authorization-get_active_session_example :
    get_active_session marking 1 (complete_authorization marking 7 "+98" "new" none linked).1
    ≡ (ok "new", (complete_authorization marking 7 "+98" "new" none linked).1)
complete_authorization-get_active_session_example =
    complete_authorization-get_active_session marking none 7 "new" "+98" linked linked account
      (λ s. refl) account_of_seven sessions-IsKeyed refl

found_userbot : find (λ b. b.id == 4) linked.userbots.rows ≡ some userbot
unfolding find
found_userbot = refl

revoke_sessions_lem_example :
    (revoke_sessions 4 (λ i. 50) linked ≡ (
      ok (length (select (is_live 1) linked.sessions.rows)),
      without_sessions 1 (λ i. 50) linked,
    ))
    × (get_active_session marking 1 (without_sessions 1 (λ i. 50) linked)
        ≡ (err session_error, without_sessions 1 (λ i. 50) linked))
revoke_sessions_lem_example = revoke_sessions_lem marking 4 (λ i. 50) linked userbot found_userbot
