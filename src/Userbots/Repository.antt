-- ===== src/Userbots/Repository.antt =====
-- app/userbots/repository.py: `UserbotRepository`.
use trelgream_self_userbot.Prelude.{
  ℕ, Bool, true, false, not, ◌&&◌, List, [], ◌∷◌, ◌==◌, ltb, take, is_some, String,
}
use trelgream_self_userbot.Core.Errors.{session_error}
use trelgream_self_userbot.Core.Exec.{Result, err, Exec}
use trelgream_self_userbot.Core.Cipher.{Fernet, decrypt}
use trelgream_self_userbot.Database.Table.{select}
use trelgream_self_userbot.Database.Table.Order.{order_by}
use trelgream_self_userbot.Database.Models.Userbots.{Userbot, UserbotStatus, TelegramSession}
use trelgream_self_userbot.Database.State.{Database}

-- `status.in_(["STARTING", "RUNNING", "RECOVERING", "AUTHORIZED"])`
abbrev pub is_runnable : UserbotStatus → Bool
is_runnable UserbotStatus.starting = true
is_runnable UserbotStatus.running = true
is_runnable UserbotStatus.recovering = true
is_runnable UserbotStatus.authorized = true
is_runnable _ = false

unfoldable pub list_runnable : (limit : ℕ) → Database → List Userbot
list_runnable limit db = take limit (select (λ u. is_runnable u.status) db.userbots.rows)

abbrev newest_first : Userbot → Userbot → Bool
newest_first u v = ltb v.id u.id

unfoldable pub list_all : (limit : ℕ) → Database → List Userbot
list_all limit db = take limit (order_by newest_first db.userbots.rows)

abbrev pub is_usable : ℕ → TelegramSession → Bool
is_usable account_id s =
    s.telegram_account_id == account_id && (s.is_active && not (is_some s.revoked_at))

abbrev pub later_session : TelegramSession → TelegramSession → Bool
later_session s t = ltb t.id s.id

abbrev pub decrypt_first : Fernet → List TelegramSession → Result String
decrypt_first fernet [] = err session_error
decrypt_first fernet (s ∷ rows) = decrypt fernet s.encrypted_session

unfoldable pub get_active_session : Fernet → (telegram_account_id : ℕ) → Exec Database String
unfolding decrypt order_by select
get_active_session fernet account_id db = (
  decrypt_first fernet (order_by later_session (select (is_usable account_id) db.sessions.rows)),
  db,
)
