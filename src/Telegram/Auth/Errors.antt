-- ===== src/Telegram/Auth/Errors.antt =====
-- Which exceptions the service lets through.
use trelgream_self_userbot.Prelude.{arith, ◌≡◌, refl, String, Bool, true, false}
use trelgream_self_userbot.Core.Errors.{
  Exception, flood_wait, phone_code_invalid, phone_code_expired, password_hash_invalid,
}
use trelgream_self_userbot.Core.Exec.{Result, ok, err}
use trelgream_self_userbot.Core.Redis.{AuthStateStore}
use trelgream_self_userbot.Telegram.Auth

-- the exceptions of Telethon that `_guard_flood` names
abbrev is_foreign : Exception → Bool
is_foreign (flood_wait seconds) = true
is_foreign phone_code_invalid = true
is_foreign phone_code_expired = true
is_foreign password_hash_invalid = true
is_foreign e = false

abbrev pub raises_foreign : {A : Type 0} → Result A → Bool
raises_foreign (ok a) = false
raises_foreign (err e) = is_foreign e

is_foreign-translated : (e : Exception) → is_foreign (Auth.translated e) ≡ false
unfolding Auth.translated
is_foreign-translated e = ground arith

raises_foreign-guarded : {A : Type 0} (r : Result A) → raises_foreign (Auth.guarded r) ≡ false
raises_foreign-guarded (ok a) = refl
raises_foreign-guarded (err e) = is_foreign-translated e

-- Whatever the client and the store do: none of the three methods raises an exception of Telethon on
-- waiting, on a wrong or expired code, or on a wrong password.
pub raises_foreign_lem :
    {R C : Type 0} (store : AuthStateStore R) (client : Auth.Client C) (phone secret : String)
    (r : R)
    → (raises_foreign (Auth.send_code store client phone r).0 ≡ false)
      × (raises_foreign (Auth.sign_in_code store client phone secret r).0 ≡ false)
      × (raises_foreign (Auth.sign_in_2fa store client phone secret r).0 ≡ false)
unfolding Auth.send_code Auth.sign_in_code Auth.sign_in_2fa
raises_foreign_lem store client phone secret r =
    (raises_foreign-guarded _, raises_foreign-guarded _, raises_foreign-guarded _)
