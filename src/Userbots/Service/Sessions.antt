-- ===== src/Userbots/Service/Sessions.antt =====
-- The sessions of a userbot, stored and revoked.
use trelgream_self_userbot.Prelude.{
  ℕ, ◌≡◌, refl, sym, ap, ◌∙◌, String, true, false, Option, none, some, List, [], ◌∷◌, length, arith,
  ==_refl, ◌<◌, str_eq, Bool-cases, inl, inr,
}
use trelgream_self_userbot.Core.Errors.{session_error}
use trelgream_self_userbot.Core.Exec.{
  Result, ok, err, continue, Exec, modify, lift, pure, ◌>>=◌, ◌>>◌,
}
use trelgream_self_userbot.Core.Cipher.{Fernet, encrypt, decrypt}
use trelgream_self_userbot.Database.Table.{Table, select, change, find, insert}
use trelgream_self_userbot.Database.Table.Find.{All, select-append}
use trelgream_self_userbot.Database.Table.Keyed.{by_id, IsKeyed}
use trelgream_self_userbot.Database.Table.Order.{order_by, order_by-last}
use trelgream_self_userbot.Database.Models.Userbots.{
  Userbot, UserbotStatus, TelegramAccount, TelegramSession,
}
use trelgream_self_userbot.Database.State.{Database}
use trelgream_self_userbot.Database.Repository.{get_or_raise, add, change_rows}
use trelgream_self_userbot.Userbots.Repository.{
  get_active_session, is_usable, later_session, decrypt_first,
}
use trelgream_self_userbot.Userbots.Service.{
  revoke_sessions, is_live, revoked, account_model, session_model, authorized, new_session,
  or_new_account, or_new_userbot, set_status, with_status, get_or_create_account,
  get_or_create_userbot, complete_authorization,
}

module _ (account_id : ℕ) (clock : ℕ → ℕ) where
  -- none of the sessions is usable
  usable-revoked :
      (rows : List TelegramSession)
      → select (is_usable account_id) (change (is_live account_id) (revoked clock) rows) ≡ []
  unfolding select change
  usable-revoked [] = refl
  usable-revoked (s ∷ rows) = ground (arith, usable-revoked rows)

  abbrev pub without_sessions : Database → Database
  without_sessions db = record db {
    sessions = record db.sessions {
      rows = change (is_live account_id) (revoked clock) db.sessions.rows;
    };
  }

-- To revoke the sessions of a userbot deactivates the active sessions of its account, with the time of
-- each, changes nothing else, and returns their number. Afterwards no session of that account can be
-- loaded: `get_active_session` raises SessionError.
pub revoke_sessions_lem :
    (fernet : Fernet) (userbot_id : ℕ) (clock : ℕ → ℕ) (db : Database) (u : Userbot)
    → find (by_id (λ b. b.id) userbot_id) db.userbots.rows ≡ some u
    → (let live = select (is_live u.telegram_account_id) db.sessions.rows in
        let db' = without_sessions u.telegram_account_id clock db in
        (revoke_sessions userbot_id clock db ≡ (ok (length live), db'))
        × (get_active_session fernet u.telegram_account_id db' ≡ (err session_error, db')))
unfolding revoke_sessions get_or_raise get_active_session order_by
revoke_sessions_lem fernet i clock db u found =
    (rw found, rw (usable-revoked u.telegram_account_id clock db.sessions.rows))

-- each usable session is older than one with the next key
older :
    (a n : ℕ) (new : TelegramSession) (rows : List TelegramSession)
    → new.id ≡ n
    → All (λ s. s.id < n) rows
    → All (λ s. later_session new s ≡ true) (select (is_usable a) rows)
unfolding select
older a n new [] e h = tt
older a n new (s ∷ rows) e h = elim (Bool-cases (is_usable a s)) [
  | inl t ↦ rw t (ground (arith, h.0, e), older a n new rows e h.1)
  | inr t ↦ rw t (older a n new rows e h.1)
]

module _ (user_id : ℕ) where
  -- to look for a userbot, or to make one, touches no session
  sessions-of_userbot :
      (account_id : ℕ) (r : Result (Option Userbot)) (d : Database)
      → (continue r (or_new_userbot user_id account_id) d).1.sessions ≡ d.sessions
  unfolding add
  sessions-of_userbot account_id (ok none) d = refl
  sessions-of_userbot account_id (ok (some u)) d = refl
  sessions-of_userbot account_id (err e) d = refl

  sessions-of_account :
      (phone : String) (r : Result (Option TelegramAccount)) (d : Database)
      → (continue r (or_new_account user_id phone) d).1.sessions ≡ d.sessions
  unfolding add
  sessions-of_account phone (ok none) d = refl
  sessions-of_account phone (ok (some a)) d = refl
  sessions-of_account phone (err e) d = refl

  sessions-of_status :
      (r : Result Userbot) (d : Database)
      → (continue r
          (λ u.
            modify (set_status u.id UserbotStatus.authorized)
            >> pure (with_status UserbotStatus.authorized u))
          d).1.sessions
        ≡ d.sessions
  sessions-of_status (ok u) d = refl
  sessions-of_status (err e) d = refl

module _ (fernet : Fernet) (device_model : Option String) where
  -- the newest session is the first
  first_session :
      (a : ℕ) (token : String) (t : Table TelegramSession)
      → IsKeyed (λ s. s.id) t
      → decrypt_first fernet (
          order_by later_session
            (select (is_usable a) (insert (new_session a token device_model) t).rows))
        ≡ decrypt fernet token
  unfolding select insert
  first_session a token t keyed =
      let new = new_session a token device_model t.next_id in
      let (rest, e) =
        order_by-last later_session new (select (is_usable a) t.rows)
          (older a t.next_id new t.rows refl keyed.below) in
      ap (λ l. decrypt_first fernet (order_by later_session l))
        (select-append (is_usable a) t.rows (new ∷ []))
      ∙ rw (==_refl a) (ap (decrypt_first fernet) e)

  module _ (user_id : ℕ) (session_string : String) where
    -- what follows once the account is there
    after_account : TelegramAccount → Exec Database Userbot
    unfolding encrypt add get_or_create_userbot
    after_account a = do
      modify (change_rows account_model (by_id (λ r. r.id) a.id) authorized)
      encrypted ← lift (encrypt fernet session_string)
      session ← add session_model (new_session a.id encrypted device_model)
      userbot ← get_or_create_userbot user_id a.id
      modify (set_status userbot.id UserbotStatus.authorized)
      pure (with_status UserbotStatus.authorized userbot)

    after_account-sessions :
        (a : TelegramAccount) (db : Database)
        → str_eq session_string "" ≡ false
        → (after_account a db).1.sessions
          ≡ insert (new_session a.id (fernet.to_token session_string) device_model) db.sessions
    unfolding after_account
    after_account-sessions a db nonempty =
        rw nonempty (sessions-of_status user_id _ _ ∙ sessions-of_userbot user_id a.id _ _)

    -- Let Fernet decrypt what it encrypts. After an authorization whose account is `a`, the session that
    -- is loaded for that account is the session text that was given, whatever sessions the account had.
    pub complete_authorization-get_active_session :
        (phone : String) (db db₁ : Database) (a : TelegramAccount)
        → ((s : String) → fernet.of_token (fernet.to_token s) ≡ some s)
        → get_or_create_account user_id phone db ≡ (ok a, db₁)
        → IsKeyed (λ s. s.id) db.sessions
        → str_eq session_string "" ≡ false
        → (let after = complete_authorization fernet user_id phone session_string device_model db in
            get_active_session fernet a.id after.1 ≡ (ok session_string, after.1))
    unfolding complete_authorization get_active_session after_account get_or_create_account
    complete_authorization-get_active_session phone db db₁ a law account keyed nonempty =
        let after = complete_authorization fernet user_id phone session_string device_model db in
        let token = fernet.to_token session_string in
        let same : db₁.sessions ≡ db.sessions =
          ap (λ p. p.1.sessions) (sym account) ∙ sessions-of_account user_id phone _ db in
        let stored : after.1.sessions ≡ insert (new_session a.id token device_model) db.sessions =
          ap (λ p. (continue p.0 after_account p.1).1.sessions) account
          ∙ after_account-sessions a db₁ nonempty
          ∙ ap (insert (new_session a.id token device_model)) same in
        ap
          (λ t. (
            decrypt_first fernet (order_by later_session (select (is_usable a.id) t.rows)),
            after.1,
          ))
          stored
        ∙ ap (λ r. (r, after.1)) (first_session a.id token db.sessions keyed)
        ∙ rw (law session_string)
