-- ===== src/Core/Redis.antt =====
-- app/core/redis.py: `RateLimiter` and `AuthStateStore`. The Redis client is an interface, of which
-- the laws are what the documentation of its commands says.
use trelgream_self_userbot.Prelude.{
  ℕ, suc, ◌+◌, ◌-◌, ◌≤◌, leb, ◌*◌, ◌≡◌, String, Bool, true, false, Option, none, some, ◌++◌, ltb,
  not, ◌==◌, if◌then◌else◌,
}
use trelgream_self_userbot.Prelude.Text.{Text, codes, text_eq}
use trelgream_self_userbot.Core.Errors.{rate_limited, type_error, key_error}
use trelgream_self_userbot.Core.Exec.{
  Result, ok, err, Exec, pure, raise, lift, require, get, modify, ◌>>=◌, ◌>>◌,
}
use trelgream_self_userbot.Database.Json.{Json, null, bool, int, str, arr, obj, Fields}
mod Counting
pub mod Limit
pub mod Store
pub mod Samples

-- the commands that the program uses, on the contents of the server
pub record Commands (R : Type 0) : Type 0 where
  pub incr : Text → Exec R ℕ
  pub expire : Text → (seconds : ℕ) → Exec R (Unit {0})
  pub set : Text → String → (ex : ℕ) → Exec R (Unit {0})
  pub get : Text → Exec R (Option String)
  pub delete : Text → Exec R (Unit {0})

-- What the counters do that are read. `count` is 0 for a key that is missing or has expired, `expiry` is
-- the seconds that a key has left, `none` for one that will not expire, and `elapse` lets seconds pass.
-- INCR counts from 0 and keeps the expiry. EXPIRE, with at least one second, gives an expiry to a key that
-- is there, and keeps the count. A key whose seconds have passed is missing.
pub record IsCounting {R : Type 0} (redis : Commands R) (count : Text → R → ℕ)
    (expiry : Text → R → Option ℕ) (elapse : ℕ → R → R) : Type 0 where
  pub incr-returns : (k : Text) (r : R) → (redis.incr k r).0 ≡ ok (count k r + 1)
  pub count-incr :
      (j k : Text) (r : R)
      → count j (redis.incr k r).1 ≡ (if text_eq k j then count k r + 1 else count j r)
  pub expiry-incr : (j k : Text) (r : R) → expiry j (redis.incr k r).1 ≡ expiry j r
  pub expire-returns : (k : Text) (n : ℕ) (r : R) → 1 ≤ n → (redis.expire k n r).0 ≡ ok tt
  pub count-expire :
      (j k : Text) (n : ℕ) (r : R) → 1 ≤ n → count j (redis.expire k n r).1 ≡ count j r
  pub expiry-expire :
      (j k : Text) (n : ℕ) (r : R)
      → 1 ≤ n
      → 1 ≤ count k r
      → expiry j (redis.expire k n r).1 ≡ (if text_eq k j then some n else expiry j r)
  pub count-elapse :
      (k : Text) (n t : ℕ) (r : R)
      → expiry k r ≡ some n
      → count k (elapse t r) ≡ (if leb n t then 0 else count k r)
  pub expiry-elapse :
      (k : Text) (n t : ℕ) (r : R)
      → expiry k r ≡ some n
      → expiry k (elapse t r) ≡ (if leb n t then none else some (n - t))

-- what SET, with at least one second, and GET and DEL do
pub record IsStoring {R : Type 0} (redis : Commands R) (value : Text → R → Option String)
    (expiry : Text → R → Option ℕ) : Type 0 where
  pub set-returns : (k : Text) (v : String) (n : ℕ) (r : R) → 1 ≤ n → (redis.set k v n r).0 ≡ ok tt
  pub value-set :
      (j k : Text) (v : String) (n : ℕ) (r : R)
      → 1 ≤ n
      → value j (redis.set k v n r).1 ≡ (if text_eq k j then some v else value j r)
  pub expiry-set :
      (j k : Text) (v : String) (n : ℕ) (r : R)
      → 1 ≤ n
      → expiry j (redis.set k v n r).1 ≡ (if text_eq k j then some n else expiry j r)
  pub get-returns : (k : Text) (r : R) → redis.get k r ≡ (ok (value k r), r)
  pub delete-returns : (k : Text) (r : R) → (redis.delete k r).0 ≡ ok tt
  pub value-delete :
      (j k : Text) (r : R)
      → value j (redis.delete k r).1 ≡ (if text_eq k j then none else value j r)

module _ {R : Type 0} (redis : Commands R) where
  abbrev pub full_key : Text → Text
  full_key key = codes "ratelimit:" ++ key

  unfoldable pub check : (key : Text) (limit window_seconds : ℕ) → Exec R (Unit {0})
  check key limit window_seconds = do
    current ← redis.incr (full_key key)
    if current == 1 then redis.expire (full_key key) window_seconds else pure tt
    require (not (ltb limit current)) rate_limited

-- `self.ttl`
abbrev pub auth_ttl : ℕ
auth_ttl = 15 * 60

abbrev pub auth_key : (phone : Text) → Text
auth_key phone = codes "auth_state:" ++ phone

-- `dumps` and `loads` are those of `json`
pub record AuthStateStore (R : Type 0) : Type 0 where
  pub redis : Commands R
  pub encrypt : String → Result String
  pub decrypt : String → Result String
  pub dumps : Fields → String
  pub loads : String → Result Json

module _ {R : Type 0} (store : AuthStateStore R) where
  unfoldable pub save : (phone : Text) → Fields → Exec R (Unit {0})
  save phone state = do
    value ← lift (store.encrypt (store.dumps state))
    store.redis.set (auth_key phone) value auth_ttl

  abbrev pub parsed : Result String → Result Json
  parsed (ok payload) = store.loads payload
  parsed (err e) = err e

  abbrev pub decoded : Option String → Result Json
  decoded none = err rate_limited
  decoded (some raw) = parsed (store.decrypt raw)

  unfoldable pub load : (phone : Text) → Exec R Json
  load phone = do raw ← store.redis.get (auth_key phone); lift (decoded raw)

  unfoldable pub delete : (phone : Text) → Exec R (Unit {0})
  delete phone = store.redis.delete (auth_key phone)
