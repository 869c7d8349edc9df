-- ===== src/Core/Logging/Samples.antt =====
-- Two records.
use trelgream_self_userbot.Prelude.{ℕ, ◌≡◌, refl, String, none, some}
use trelgream_self_userbot.Core.Logging.{
  Mapping, str, other, list, tuple, dict, nil, cons, end, entry, redact_mapping, redacted, format,
}
use trelgream_self_userbot.Core.Logging.Redacted.{IsRedacted, redact_mapping_lem}

abbrev same : String → String
same s = s

abbrev attempt : Mapping ℕ
attempt = entry "user" (str "u") (entry "login" (dict (entry "code" (str "12345") end)) end)

redact_mapping_lem_example :
    IsRedacted same (redact_mapping same attempt)
    × ((n : Mapping ℕ) → IsRedacted same n → redact_mapping same n ≡ n)
redact_mapping_lem_example = redact_mapping_lem same attempt

logged_attempt :
    redact_mapping same attempt
    ≡ entry "user" (str "u") (entry "login" (dict (entry "code" redacted end)) end)
unfolding redact_mapping
logged_attempt = refl

-- a list under a sensitive key stays, and a tuple becomes a list
list_kept :
    redact_mapping {Object = ℕ} same
      (entry "token" (list (cons (str "secret") nil)) (entry "at" (tuple (cons (other 1) nil)) end))
    ≡ entry "token" (list (cons (str "secret") nil)) (entry "at" (list (cons (other 1) nil)) end)
unfolding redact_mapping
list_kept = refl

-- a field of the record takes the place of the message
message_replaced :
    format {Object = ℕ} same same same "t" "INFO" "app" "text" none
      (some (entry "message" (str "other") end))
    ≡ entry "ts" (str "t") (
        entry "level" (str "INFO") (entry "logger" (str "app") (entry "message" (str "other") end)))
unfolding format
message_replaced = refl
