-- ===== src/Telegram/Auth/Login.antt =====
-- The whole sign-in, of an account with two-step verification and of one without.
use trelgream_self_userbot.Prelude.{◌≡◌, refl, ap, ◌∙◌, String, true}
use trelgream_self_userbot.Core.Errors.{session_password_needed}
use trelgream_self_userbot.Core.Exec.{ok, err}
use trelgream_self_userbot.Core.Redis.{AuthStateStore}
use trelgream_self_userbot.Database.Json.{Json, null, str, obj, Fields, get_field, set_field}
use trelgream_self_userbot.Telegram.Auth
use trelgream_self_userbot.Telegram.Auth.Steps

module _ {R C : Type 0} (store : AuthStateStore R) (client : Auth.Client C)
    (kept : Steps.IsFaithful store) (phone : String) where
  -- what the store holds after a code was sent
  abbrev awaiting : Auth.SentCode → C → R → R
  awaiting sent c r =
      Steps.stored store client kept phone (Auth.first_state store client phone sent c) r

  send_code-sent :
      {c0 c1 c2 : C} (u : Steps.IsUse client null c0 c1 c2) (sent : Auth.SentCode) (r : R)
      → Steps.IsCoded store (Auth.first_state store client phone sent c2)
      → client.send_code_request phone true c1 ≡ (ok sent, c2)
      → Auth.send_code store client phone r
        ≡ (ok (Auth.described store client sent), awaiting sent c2 r)
  unfolding Auth.send_code
  send_code-sent {c0} {c1} {c2} u sent r coded h = rw (
      Steps.with_client-eq store client kept u (Auth.request_code store client phone) r
        (awaiting sent c2 r) (ok (Auth.described store client sent))
        (Steps.request_code-sent store client kept u phone sent r coded h))

  -- a stored state with the session and the hash
  module _ (f : Fields) (coded : Steps.IsCoded store f) (session hash : Json) (r : R) {d0 d1 d2 : C}
      (u : Steps.IsUse client session d0 d1 d2) where
    sign_in_code-authorized :
        (code : String) (me : Auth.Me)
        → Auth.subscript "session" (obj f) ≡ ok session
        → Auth.subscript "phone_code_hash" (obj f) ≡ ok hash
        → client.sign_in_with_code phone code hash d1 ≡ (ok me, d2)
        → let s = Steps.stored store client kept phone f r in
          Auth.sign_in_code store client phone code s
          ≡ (ok (Auth.as_authorized store client d2 phone me), s)
    unfolding Auth.sign_in_code
    sign_in_code-authorized code me e k h =
        let s = Steps.stored store client kept phone f r in
        rw (
          Steps.load-stored store client kept phone f coded r,
          e,
          Steps.with_client-eq store client kept u (Auth.enter_code store client phone code (obj f))
              s s (ok (Auth.as_authorized store client d2 phone me))
              (Steps.enter_code-authorized store client kept u phone code (obj f) hash me s k h),
        )

    sign_in_code-needs_2fa :
        (code : String)
        → Steps.IsCoded store (Auth.password_state store client d2 f)
        → Auth.subscript "session" (obj f) ≡ ok session
        → Auth.subscript "phone_code_hash" (obj f) ≡ ok hash
        → client.sign_in_with_code phone code hash d1 ≡ (err session_password_needed, d2)
        → let s = Steps.stored store client kept phone f r in
          let g = Auth.password_state store client d2 f in
          Auth.sign_in_code store client phone code s
          ≡ (ok (Auth.plain_result Auth.needs_2fa), Steps.stored store client kept phone g s)
    unfolding Auth.sign_in_code
    sign_in_code-needs_2fa code later e k h =
        let s = Steps.stored store client kept phone f r in
        let g = Auth.password_state store client d2 f in
        rw (
          Steps.load-stored store client kept phone f coded r,
          e,
          Steps.with_client-eq store client kept u (Auth.enter_code store client phone code (obj f))
              s (Steps.stored store client kept phone g s) (ok (Auth.plain_result Auth.needs_2fa))
              (Steps.enter_code-needs_2fa store client kept u phone code f hash s later k h),
        )

    sign_in_2fa-authorized :
        (password : String) (me : Auth.Me)
        → Auth.subscript "session" (obj f) ≡ ok session
        → client.sign_in_with_password password d1 ≡ (ok me, d2)
        → let s = Steps.stored store client kept phone f r in
          Auth.sign_in_2fa store client phone password s
          ≡ (ok (Auth.as_authorized store client d2 phone me), s)
    unfolding Auth.sign_in_2fa
    sign_in_2fa-authorized password me e h =
        let s = Steps.stored store client kept phone f r in
        rw (
          Steps.load-stored store client kept phone f coded r,
          e,
          Steps.with_client-eq store client kept u (Auth.enter_password store client phone password)
              s s (ok (Auth.as_authorized store client d2 phone me))
              (Steps.enter_password-authorized store client kept u phone password me s h),
        )

  -- The sign-in to an account with two-step verification. Telegram sends a code to a fresh client; to the
  -- client of the session saved with it, which gives the hash of that code back, it answers that a
  -- password is needed; and to the client of the session saved then, it answers with the user. Then
  -- the three methods, called one after the other, report the code, ask for the password, and return the
  -- session and the user, all for this phone number. The cipher and `json` give the two states that are
  -- saved back, and the clients disconnect without an exception.
  pub sign_in_2fa-send_code :
      {c0 c1 c2 d0 d1 d2 e0 e1 e2 : C} (code password : String) (sent : Auth.SentCode)
      (me : Auth.Me) (r : R)
      → Steps.IsCoded store (Auth.first_state store client phone sent c2)
      → Steps.IsUse client null c0 c1 c2
      → client.send_code_request phone true c1 ≡ (ok sent, c2)
      → Steps.IsUse client (str (client.save_session c2)) d0 d1 d2
      → client.sign_in_with_code phone code (str sent.phone_code_hash) d1
        ≡ (err session_password_needed, d2)
      → Steps.IsCoded store
          (Auth.password_state store client d2 (Auth.first_state store client phone sent c2))
      → Steps.IsUse client (str (client.save_session d2)) e0 e1 e2
      → client.sign_in_with_password password e1 ≡ (ok me, e2)
      → let first = Auth.send_code store client phone r in
        let second = Auth.sign_in_code store client phone code first.1 in
        (first.0 ≡ ok (Auth.described store client sent))
        × (second.0 ≡ ok (Auth.plain_result Auth.needs_2fa))
        × ((Auth.sign_in_2fa store client phone password second.1).0
            ≡ ok (Auth.as_authorized store client e2 phone me))
  unfolding get_field set_field
  sign_in_2fa-send_code {c0} {c1} {c2} {d0} {d1} {d2} code password sent me r coded u h v k later w
        l =
      let f = Auth.first_state store client phone sent c2 in
      let g = Auth.password_state store client d2 f in
      let s = awaiting sent c2 r in
      let one = send_code-sent u sent r coded h in
      let two =
        sign_in_code-needs_2fa f coded (str (client.save_session c2)) (str sent.phone_code_hash) r v
          code later refl refl k in
      let three =
        sign_in_2fa-authorized g later (str (client.save_session d2)) null s w password me refl l in
      let second = ap (λ p. Auth.sign_in_code store client phone code p.1) one ∙ two in
      (
        ap (λ p. p.0) one,
        ap (λ p. p.0) second,
        ap (λ p. (Auth.sign_in_2fa store client phone password p.1).0) second ∙ ap (λ p. p.0) three,
      )

  -- The same of an account without two-step verification: two calls.
  sign_in_code-send_code :
      {c0 c1 c2 d0 d1 d2 : C} (code : String) (sent : Auth.SentCode) (me : Auth.Me) (r : R)
      → Steps.IsCoded store (Auth.first_state store client phone sent c2)
      → Steps.IsUse client null c0 c1 c2
      → client.send_code_request phone true c1 ≡ (ok sent, c2)
      → Steps.IsUse client (str (client.save_session c2)) d0 d1 d2
      → client.sign_in_with_code phone code (str sent.phone_code_hash) d1 ≡ (ok me, d2)
      → (Auth.sign_in_code store client phone code (Auth.send_code store client phone r).1).0
        ≡ ok (Auth.as_authorized store client d2 phone me)
  unfolding get_field
  sign_in_code-send_code {c0} {c1} {c2} {d0} {d1} {d2} code sent me r coded u h v k =
      let f = Auth.first_state store client phone sent c2 in
      ap (λ p. (Auth.sign_in_code store client phone code p.1).0) (send_code-sent u sent r coded h)
      ∙ ap (λ p. p.0)
          (sign_in_code-authorized f coded (str (client.save_session c2)) (str sent.phone_code_hash)
            r v code me refl refl k)
