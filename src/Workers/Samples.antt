-- ===== src/Workers/Samples.antt =====
-- A command that is sent and taken out.
use trelgream_self_userbot.Prelude.{
  String, ◌≡◌, refl, Bool, true, false, none, some, [], ◌∷◌, ◌++◌, ◌%◌, ◌==◌, length, str_eq,
}
use trelgream_self_userbot.Prelude.Text.{Text, codes, decimal}
use trelgream_self_userbot.Core.Exec.{ok}
use trelgream_self_userbot.Core.Signer.{verify, is_ascii}
use trelgream_self_userbot.Database.Json.{Json, Fields, field, str, get_field}
use trelgream_self_userbot.Automation.Actions.{truthy}
use trelgream_self_userbot.Core.Messages.{Raw, message, malformed, without_field}
use trelgream_self_userbot.Workers.Commands.{
  command_body, canonical, send, check, pop, is_expired, texts_of,
}
use trelgream_self_userbot.Workers.Commands.Canonical.{canonical-injective, parts}
use trelgream_self_userbot.Workers.Commands.Delivery.{
  IsDigest, IsAccepted, pop-send, check-IsAccepted,
}

abbrev pub repr : Json → Text
repr j = codes "?"

-- a signature that tells payloads by the parity of their length
abbrev toy_digest : Bool → String
toy_digest true = "e0"
toy_digest false = "d1"

abbrev pub toy_sign : Text → String
toy_sign p = toy_digest (length p % 2 == 0)

toy_digest_nonempty : (b : Bool) → str_eq (toy_digest b) "" ≡ false
toy_digest_nonempty true = refl
toy_digest_nonempty false = refl

toy_digest_ascii : (b : Bool) → is_ascii (codes (toy_digest b)) ≡ true
toy_digest_ascii true = refl
toy_digest_ascii false = refl

toy_sign-IsDigest : IsDigest toy_sign
toy_sign-IsDigest = record {
  nonempty = λ p. toy_digest_nonempty (length p % 2 == 0);
  ascii = λ p. toy_digest_ascii (length p % 2 == 0);
}

abbrev pub start : Fields
start = command_body "c1" "start" 5 (some 1) none 1000

pop-send_example :
    pop repr toy_sign 1300
      (send repr toy_sign "c1" "start" 5 (some 1) none 1000 [] ++ malformed ∷ [])
    ≡ (ok (some start), malformed ∷ [])
pop-send_example =
    pop-send repr toy_sign toy_sign-IsDigest "c1" "start" 5 (some 1) none 1000 1300 (malformed ∷ [])

-- at 1301 it is dropped
late :
    pop repr toy_sign 1301 (send repr toy_sign "c1" "start" 5 (some 1) none 1000 []) ≡ (ok none, [])
unfolding pop check send without_field get_field verify is_expired truthy decimal
late = refl

abbrev pub signed_start : Raw
signed_start = message (field "signature" (str (toy_sign (canonical repr start))) start)

pub start_checked : check repr toy_sign 1100 signed_start ≡ ok (some start)
unfolding check without_field get_field verify is_expired truthy decimal
start_checked = refl

check-IsAccepted_example : IsAccepted repr toy_sign 1100 signed_start start
check-IsAccepted_example = check-IsAccepted repr toy_sign 1100 signed_start start start_checked

-- a key that is not among the seven parts changes no payload
abbrev noted : Fields
noted = field "note" (str "x|y") start

same_payload : canonical repr noted ≡ canonical repr start
unfolding canonical
same_payload = refl

canonical-injective_example : parts repr noted ≡ parts repr start
unfolding texts_of decimal
canonical-injective_example = canonical-injective repr noted start refl refl same_payload
