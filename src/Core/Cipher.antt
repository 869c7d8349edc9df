-- ===== src/Core/Cipher.antt =====
-- `SessionCipher` of app/core/security.py. Fernet is a parameter; `none` is its InvalidToken or a
-- ValueError.
use trelgream_self_userbot.Prelude.{String, Option, none, some, str_eq, if◌then◌else◌}
use trelgream_self_userbot.Core.Errors.{session_error}
use trelgream_self_userbot.Core.Exec.{Result, ok, err}

pub record Fernet : Type 0 where
  pub to_token : String → String
  pub of_token : String → Option String

abbrev pub decrypted : Option String → Result String
decrypted none = err session_error
decrypted (some s) = ok s

module _ (fernet : Fernet) where
  unfoldable pub encrypt : String → Result String
  encrypt plaintext =
      if str_eq plaintext "" then err session_error else ok (fernet.to_token plaintext)

  unfoldable pub decrypt : String → Result String
  decrypt token = decrypted (fernet.of_token token)
