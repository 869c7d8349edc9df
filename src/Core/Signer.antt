-- ===== src/Core/Signer.antt =====
-- `CommandSigner` of app/core/security.py. `sign`, the HMAC-SHA256 of a payload under the secret, is a
-- parameter.
use trelgream_self_userbot.Prelude.{String, Bool, true, ◌&&◌, [], ◌∷◌, ltb, str_eq, if◌then◌else◌}
use trelgream_self_userbot.Prelude.Text.{Text, codes}
use trelgream_self_userbot.Core.Errors.{type_error}
use trelgream_self_userbot.Core.Exec.{Result, ok, err}
use trelgream_self_userbot.Database.Json.{Json, str}

abbrev pub is_ascii : Text → Bool
is_ascii [] = true
is_ascii (c ∷ s) = ltb c 128 && is_ascii s

module _ (sign : Text → String) where
  -- `compare_digest` raises TypeError on what is no text, and on a text that is not ASCII
  unfoldable pub verify : Text → Json → Result Bool
  verify payload (str signature) =
      if is_ascii (codes (sign payload)) && is_ascii (codes signature)
      then ok (str_eq (sign payload) signature)
      else err type_error
  verify payload _ = err type_error
