-- ===== src/Core/Redis/Store.antt =====
-- What is loaded of the states of the authentications that were saved.
use trelgream_self_userbot.Prelude.{
  ◌≤◌, arith, ℕ, ◌≡◌, refl, sym, ap, ◌∙◌, String, true, false, Option, none, some, if◌then◌else◌,
}
use trelgream_self_userbot.Prelude.Text.{Text, text_eq, text_eq_iff}
use trelgream_self_userbot.Core.Errors.{rate_limited}
use trelgream_self_userbot.Core.Exec.{ok, err}
use trelgream_self_userbot.Database.Json.{obj, Fields}
use trelgream_self_userbot.Core.Redis.{
  AuthStateStore, IsStoring, save, load, delete, decoded, auth_key, auth_ttl,
}

text_eq_same : (s : Text) → text_eq s s ≡ true
text_eq_same s = (text_eq_iff s s).1 refl

long : 1 ≤ auth_ttl
long = omega arith

auth_key-eq : (k j : Text) → text_eq (auth_key k) (auth_key j) ≡ text_eq k j
unfolding text_eq
auth_key-eq k j = refl

module _ {R : Type 0} (store : AuthStateStore R) (value : Text → R → Option String)
    (expiry : Text → R → Option ℕ) (laws : IsStoring store.redis value expiry) where
  -- `load` reads the value of the key, and changes nothing
  pub load-value :
      (phone : Text) (r : R) → load store phone r ≡ (decoded store (value (auth_key phone) r), r)
  unfolding load
  load-value phone r = rw (laws.get-returns (auth_key phone) r)

  loaded :
      (phone : Text) (r : R) → (load store phone r).0 ≡ decoded store (value (auth_key phone) r)
  loaded phone r = ap (λ p. p.0) (load-value phone r)

  decoded-eq :
      (token : String) (state : Fields)
      → store.decrypt token ≡ ok (store.dumps state)
      → store.loads (store.dumps state) ≡ ok (obj state)
      → decoded store (some token) ≡ ok (obj state)
  decoded-eq token state d l = rw (d, l)

  -- what is read of a number after the command SET for another, or the same
  value-auth :
      (phone j : Text) (token : String) (r : R)
      → value (auth_key j) (store.redis.set (auth_key phone) token auth_ttl r).1
        ≡ (if text_eq phone j then some token else value (auth_key j) r)
  value-auth phone j token r =
      laws.value-set (auth_key j) (auth_key phone) token auth_ttl r long
      ∙ ap (λ b. if b then some token else value (auth_key j) r) (auth_key-eq phone j)

  -- A state that is saved, and that the cipher and `json` give back, is loaded until the key of the
  -- phone number is written again; the state of any other number is not touched. The key expires after
  -- 900 seconds. Of a number that is deleted, none is loaded.
  pub load-save :
      (phone : Text) (state : Fields) (r : R) (token : String)
      → store.encrypt (store.dumps state) ≡ ok token
      → store.decrypt token ≡ ok (store.dumps state)
      → store.loads (store.dumps state) ≡ ok (obj state)
      → let saved = save store phone state r in
        (saved.0 ≡ ok tt)
        × ((load store phone saved.1).0 ≡ ok (obj state))
        × ((j : Text) → text_eq phone j ≡ false → (load store j saved.1).0 ≡ (load store j r).0)
        × (expiry (auth_key phone) saved.1 ≡ some 900)
        × ((load store phone (delete store phone saved.1).1).0 ≡ err rate_limited)
  unfolding save delete
  load-save phone state r token e d l =
      let s = (store.redis.set (auth_key phone) token auth_ttl r).1 in
      let same = text_eq_same phone in
      let gone = text_eq_same (auth_key phone) in
      let here : value (auth_key phone) s ≡ some token =
        rw same at (value-auth phone phone token r) in
      let timed : expiry (auth_key phone) s ≡ some auth_ttl =
        rw gone at (laws.expiry-set (auth_key phone) (auth_key phone) token auth_ttl r long) in
      let none_left : value (auth_key phone) (store.redis.delete (auth_key phone) s).1 ≡ none =
        rw gone at (laws.value-delete (auth_key phone) (auth_key phone) s) in
      rw e (
        laws.set-returns (auth_key phone) token auth_ttl r long,
        loaded phone s ∙ ap (decoded store) here ∙ decoded-eq token state d l,
        λ j n.
            let there : value (auth_key j) s ≡ value (auth_key j) r =
              rw n at (value-auth phone j token r) in
            loaded j s ∙ ap (decoded store) there ∙ sym (loaded j r),
        timed,
        loaded phone (store.redis.delete (auth_key phone) s).1 ∙ ap (decoded store) none_left,
      )
