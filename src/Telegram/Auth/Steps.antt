-- ===== src/Telegram/Auth/Steps.antt =====
-- The sign-in step by step: each step goes on where the one before has stopped.
use trelgream_self_userbot.Prelude.{ℕ, ◌≡◌, sym, ap, ◌∙◌, String, Option, true}
use trelgream_self_userbot.Prelude.Text.{Text, codes}
use trelgream_self_userbot.Core.Errors.{session_password_needed}
use trelgream_self_userbot.Core.Exec.{Result, ok, err, Exec}
use trelgream_self_userbot.Core.Redis.{AuthStateStore, IsStoring, save, load}
use trelgream_self_userbot.Core.Redis.Store.{load-value, load-save}
use trelgream_self_userbot.Database.Json.{Json, obj, Fields}
use trelgream_self_userbot.Telegram.Auth

-- a store whose server keeps what is set
pub record IsFaithful {R : Type 0} (store : AuthStateStore R) : Type 0 where
  pub value : Text → R → Option String
  pub expiry : Text → R → Option ℕ
  pub storing : IsStoring store.redis value expiry

-- The cipher and `json` give the state back.
pub record IsCoded {R : Type 0} (store : AuthStateStore R) (f : Fields) : Type 0 where
  pub token : String
  pub encrypted : store.encrypt (store.dumps f) ≡ ok token
  pub decrypted : store.decrypt token ≡ ok (store.dumps f)
  pub parsed : store.loads (store.dumps f) ≡ ok (obj f)

-- One use of a client of the session: it is built, connects, and is in its last state when it
-- disconnects.
pub record IsUse {C : Type 0} (client : Auth.Client C) (session : Json) (c0 c1 c2 : C)
    : Type 0 where
  pub built : client.build session ≡ ok c0
  pub connected : client.connect c0 ≡ (ok tt, c1)
  pub disconnected : (client.disconnect c2).0 ≡ ok tt

module _ {R C : Type 0} (store : AuthStateStore R) (client : Auth.Client C)
    (kept : IsFaithful store) where
  -- the store after a state was saved
  abbrev pub stored : (phone : String) → Fields → R → R
  stored phone f r = (save store (codes phone) f r).1

  save-stored :
      (phone : String) (f : Fields) (coded : IsCoded store f) (r : R)
      → save store (codes phone) f r ≡ (ok tt, stored phone f r)
  save-stored phone f coded r =
      let k =
        load-save store kept.value kept.expiry kept.storing (codes phone) f r coded.token
          coded.encrypted coded.decrypted coded.parsed in
      λ i. (k.0 i, stored phone f r)

  pub load-stored :
      (phone : String) (f : Fields) (coded : IsCoded store f) (r : R)
      → load store (codes phone) (stored phone f r) ≡ (ok (obj f), stored phone f r)
  load-stored phone f coded r =
      let k =
        load-save store kept.value kept.expiry kept.storing (codes phone) f r coded.token
          coded.encrypted coded.decrypted coded.parsed in
      let l =
        load-value store kept.value kept.expiry kept.storing (codes phone) (stored phone f r) in
      l ∙ (λ i. ((sym (ap (λ p. p.0) l) ∙ k.1) i, stored phone f r))

  module _ {session : Json} {c0 c1 c2 : C} (u : IsUse client session c0 c1 c2) where
    pub with_client-eq :
        {A : Type 0} (body : Exec (R × C) A) (r s : R) (a : Result A)
        → body (r, c0) ≡ (a, (s, c2))
        → Auth.with_client store client session body r ≡ (a, s)
    with_client-eq body r s a e =
        let closed : Auth.closing store client body c0 r ≡ (a, s) =
          ap (λ p. (Auth.outcome store client p.0 (client.disconnect p.1.1).0, p.1.0)) e
          ∙ ap (λ d. (Auth.outcome store client a d, s)) u.disconnected in
        rw u.built closed

    -- the bodies of the three methods, for a client that connects
    pub request_code-sent :
        (phone : String) (sent : Auth.SentCode) (r : R)
        → IsCoded store (Auth.first_state store client phone sent c2)
        → client.send_code_request phone true c1 ≡ (ok sent, c2)
        → Auth.request_code store client phone (r, c0) ≡ (
          ok (Auth.described store client sent),
          (stored phone (Auth.first_state store client phone sent c2) r, c2),
        )
    request_code-sent phone sent r coded h =
        rw (u.connected, h, save-stored phone (Auth.first_state store client phone sent c2) coded r)

    pub enter_code-authorized :
        (phone code : String) (state hash : Json) (me : Auth.Me) (r : R)
        → Auth.subscript "phone_code_hash" state ≡ ok hash
        → client.sign_in_with_code phone code hash c1 ≡ (ok me, c2)
        → Auth.enter_code store client phone code state (r, c0)
          ≡ (ok (Auth.as_authorized store client c2 phone me), (r, c2))
    enter_code-authorized phone code state hash me r k h = rw (u.connected, k, h)

    pub enter_code-needs_2fa :
        (phone code : String) (f : Fields) (hash : Json) (r : R)
        → IsCoded store (Auth.password_state store client c2 f)
        → Auth.subscript "phone_code_hash" (obj f) ≡ ok hash
        → client.sign_in_with_code phone code hash c1 ≡ (err session_password_needed, c2)
        → let g = Auth.password_state store client c2 f in
          Auth.enter_code store client phone code (obj f) (r, c0)
          ≡ (ok (Auth.plain_result Auth.needs_2fa), (stored phone g r, c2))
    enter_code-needs_2fa phone code f hash r coded k h =
        let g = Auth.password_state store client c2 f in
        rw (u.connected, k, h, save-stored phone g coded r)

    pub enter_password-authorized :
        (phone password : String) (me : Auth.Me) (r : R)
        → client.sign_in_with_password password c1 ≡ (ok me, c2)
        → Auth.enter_password store client phone password (r, c0)
          ≡ (ok (Auth.as_authorized store client c2 phone me), (r, c2))
    enter_password-authorized phone password me r h = rw (u.connected, h)
