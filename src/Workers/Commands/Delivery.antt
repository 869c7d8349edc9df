-- ===== src/Workers/Commands/Delivery.antt =====
-- What comes out of the list of commands: a command that was sent, and nothing that was not signed.
use trelgream_self_userbot.Prelude.{
  ℕ, String, ◌+◌, ◌≡◌, refl, sym, ap, ◌∙◌, Bool, true, false, Option, none, some, List, [], ◌++◌,
  ltb, ◌&&◌, if◌then◌else◌, Bool-cases, inl, inr, str_eq, eq_refl, eq_iff, arith,
}
use trelgream_self_userbot.Prelude.Int.{pos, ltb_ℤ}
use trelgream_self_userbot.Prelude.Text.{Text, codes}
use trelgream_self_userbot.Core.Exec.{Result, ok, err}
use trelgream_self_userbot.Core.Signer.{verify, is_ascii}
use trelgream_self_userbot.Database.Json.{Json, null, bool, int, str, arr, obj, Fields, get_field}
use trelgream_self_userbot.Automation.Actions.{truthy}
use trelgream_self_userbot.Core.Messages.{Raw, malformed, other, message, get_or, without_field}
use trelgream_self_userbot.Workers.Commands.{
  command_body, command_ttl, canonical, is_expired, send, check, pop, after_verify, after_expiry,
}

-- HMAC-SHA256 in hexadecimal is not empty, and is ASCII
pub record IsDigest (sign : Text → String) : Type 0 where
  pub nonempty : (p : Text) → str_eq (sign p) "" ≡ false
  pub ascii : (p : Text) → is_ascii (codes (sign p)) ≡ true

ltb_ℤ-pos : (n m : ℕ) → ltb_ℤ (pos n) (pos m) ≡ ltb n m
ltb_ℤ-pos n m = ground arith

module _ (repr : Json → Text) (sign : Text → String) where
  -- A command that is sent to the empty list is taken out, with the body that was signed, for 300
  -- seconds; after them it is dropped. The messages behind it are left in their order.
  pub pop-send :
      IsDigest sign
      → (command_id action : String) (target_id : ℕ) (actor_id : Option ℕ)
      → (actor_role : Option String) (now later : ℕ) (rest : List Raw)
      → (let body = command_body command_id action target_id actor_id actor_role now in
          let queue =
            send repr sign command_id action target_id actor_id actor_role now [] ++ rest in
          pop repr sign later queue
          ≡ (ok (if ltb (now + command_ttl) later then none else some body), rest))
  unfolding pop check send without_field get_field verify is_expired truthy
  pop-send digest command_id action target_id actor_id actor_role now later rest =
      let body = command_body command_id action target_id actor_id actor_role now in
      let payload = canonical repr body in
      elim (Bool-cases (ltb (now + command_ttl) later)) [
        | inl late ↦ rw (
          digest.nonempty payload,
          digest.ascii payload,
          eq_refl (sign payload),
          ltb_ℤ-pos (now + command_ttl) later,
          late,
        )
        | inr early ↦ rw (
          digest.nonempty payload,
          digest.ascii payload,
          eq_refl (sign payload),
          ltb_ℤ-pos (now + command_ttl) later,
          early,
        )
      ]

  -- what `check` lets through
  pub record IsAccepted (now : ℕ) (raw : Raw) (body : Fields) : Type 0 where
    pub fields : Fields
    pub raw_eq : raw ≡ message fields
    pub body_eq : body ≡ without_field "signature" fields
    pub signature_eq : get_or "signature" null fields ≡ str (sign (canonical repr body))
    pub in_time : is_expired now (get_or "expires_at" (int (pos 0)) body) ≡ ok false

  after_expiry-eq-some :
      (body body' : Fields) (r : Result Bool)
      → after_expiry repr sign body r ≡ ok (some body')
      → (body ≡ body') × (r ≡ ok false)
  after_expiry-eq-some body body' (ok true) h = cc
  after_expiry-eq-some body body' (ok false) h = (cc h, refl)
  after_expiry-eq-some body body' (err e) h = cc

  after_verify-eq-some :
      (now : ℕ) (body body' : Fields) (r : Result Bool)
      → after_verify repr sign now body r ≡ ok (some body')
      → (r ≡ ok true)
        × (body ≡ body')
        × (is_expired now (get_or "expires_at" (int (pos 0)) body) ≡ ok false)
  after_verify-eq-some now body body' (ok true) h =
      let (same, in_time) = after_expiry-eq-some body body' _ h in (refl, same, in_time)
  after_verify-eq-some now body body' (ok false) h = cc
  after_verify-eq-some now body body' (err e) h = cc

  verify-eq-true :
      (payload : Text) (signature : Json)
      → verify sign payload signature ≡ ok true
      → signature ≡ str (sign payload)
  unfolding verify
  verify-eq-true payload (str s) h =
      elim (Bool-cases (is_ascii (codes (sign payload)) && is_ascii (codes s))) [
        | inl e ↦ let k = rw e at h in ap str (sym ((eq_iff (sign payload) s).0 (cc k)))
        | inr e ↦ cc (rw e at h)
      ]
  verify-eq-true payload null h = cc
  verify-eq-true payload (bool b) h = cc
  verify-eq-true payload (int n) h = cc
  verify-eq-true payload (arr l) h = cc
  verify-eq-true payload (obj o) h = cc

  -- A message that is let through was signed: it carries the signature, under the secret, of the
  -- payload of the body that is returned, and that body has not expired.
  pub check-IsAccepted :
      (now : ℕ) (raw : Raw) (body : Fields)
      → check repr sign now raw ≡ ok (some body)
      → IsAccepted now raw body
  unfolding check
  check-IsAccepted now malformed body h = cc
  check-IsAccepted now other body h = cc
  check-IsAccepted now (message fields) body h =
      elim (Bool-cases (truthy (get_or "signature" null fields))) [
        | inl e ↦
            let stripped = without_field "signature" fields in
            let signature = get_or "signature" null fields in
            let (verified, same, in_time) =
              after_verify-eq-some now stripped body
                (verify sign (canonical repr stripped) signature) (rw e at h) in
            record {
              fields = fields;
              raw_eq = refl;
              body_eq = sym same;
              signature_eq =
                  verify-eq-true _ signature verified
                  ∙ ap (λ b. str (sign (canonical repr b))) same;
              in_time =
                  ap (λ b. is_expired now (get_or "expires_at" (int (pos 0)) b)) (sym same)
                  ∙ in_time;
            }
        | inr e ↦ cc (rw e at h)
      ]
