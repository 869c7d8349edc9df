-- ===== src/Core/Redis/Samples.antt =====
-- A server that does what the laws say, and what the limiter and the store do with it.
use trelgream_self_userbot.Prelude.{
  ℕ, ◌+◌, ◌-◌, ◌≤◌, ◌<◌, leb, Bool, false, List, arith, ap, ◌≡◌, refl, String, Option, none, some,
  [], ◌∷◌, if◌then◌else◌,
}
use trelgream_self_userbot.Prelude.Text.{Text, codes, text_eq}
use trelgream_self_userbot.Core.Exec.{ok}
use trelgream_self_userbot.Database.Json.{obj, str, Fields, field, end}
use trelgream_self_userbot.Core.Redis
use trelgream_self_userbot.Core.Redis.{full_key}
use trelgream_self_userbot.Core.Redis.Limit.{Event, attempt, wait, after, passes_lem, passes}

pub record Server : Type 0 where
  pub counts : Text → ℕ
  pub values : Text → Option String
  pub expiries : Text → Option ℕ

abbrev at : {A : Type 0} → Text → A → (Text → A) → Text → A
at k a f j = if text_eq k j then a else f j

abbrev pub toy_redis : Redis.Commands Server
toy_redis = record {
  incr = λ k r. (ok (r.counts k + 1), record r { counts = at k (r.counts k + 1) r.counts });
  expire = λ k n r. (ok tt, record r { expiries = at k (some n) r.expiries });
  set = λ k v n r.
      (ok tt, record r { values = at k (some v) r.values; expiries = at k (some n) r.expiries });
  get = λ k r. (ok (r.values k), r);
  delete = λ k r. (ok tt, record r { values = at k none r.values });
}

-- a key whose seconds have passed is gone
abbrev over : ℕ → Option ℕ → Bool
over t none = false
over t (some n) = leb n t

abbrev later : ℕ → Option ℕ → Option ℕ
later t none = none
later t (some n) = if leb n t then none else some (n - t)

abbrev elapse : ℕ → Server → Server
elapse t r = record {
  counts = λ k. if over t (r.expiries k) then 0 else r.counts k;
  values = λ k. if over t (r.expiries k) then none else r.values k;
  expiries = λ k. later t (r.expiries k);
}

toy_redis-IsCounting : Redis.IsCounting toy_redis (λ k r. r.counts k) (λ k r. r.expiries k) elapse
toy_redis-IsCounting = record {
  incr-returns = λ k r. refl;
  count-incr = λ j k r. refl;
  expiry-incr = λ j k r. refl;
  expire-returns = λ k n r h. refl;
  count-expire = λ j k n r h. refl;
  expiry-expire = λ j k n r h c. refl;
  count-elapse = λ k n t r e. ap (λ o. if over t o then 0 else r.counts k) e;
  expiry-elapse = λ k n t r e. ap (later t) e;
}

pub toy_redis-IsStoring : Redis.IsStoring toy_redis (λ k r. r.values k) (λ k r. r.expiries k)
toy_redis-IsStoring = record {
  set-returns = λ k v n r h. refl;
  value-set = λ j k v n r h. refl;
  expiry-set = λ j k v n r h. refl;
  get-returns = λ k r. refl;
  delete-returns = λ k r. refl;
  value-delete = λ j k r. refl;
}

abbrev pub empty : Server
empty = record { counts = λ k. 0; values = λ k. none; expiries = λ k. none }

-- three checks of one key in a window of a minute, and one of another
abbrev events : List Event
events = attempt (codes "b") ∷ wait 10 ∷ attempt (codes "a") ∷ wait 20 ∷ attempt (codes "a") ∷ []

abbrev all_events : List Event
all_events = attempt (codes "a") ∷ events

short : 30 < 60
short = omega arith

minute : 1 ≤ 60
minute = omega arith

-- with the limit two, two pass, and half a minute later the key starts over
passes_lem_example :
    (passes toy_redis elapse 2 60 (codes "a") all_events empty ≡ 2)
    × ((elapse 30 (after toy_redis elapse 2 60 all_events empty)).counts
          (full_key toy_redis (codes "a"))
        ≡ 0)
unfolding text_eq
passes_lem_example =
    passes_lem toy_redis (λ k r. r.counts k) (λ k r. r.expiries k) elapse toy_redis-IsCounting 2 60
      minute (codes "a") empty events refl short

-- a second before, one more check does not pass
not_over :
    passes toy_redis elapse 2 60
      (codes "a")
      (attempt (codes "a")
        ∷ wait 59
        ∷ attempt (codes "a")
        ∷ attempt (codes "a")
        ∷ wait 1
        ∷ attempt (codes "a")
        ∷ [])
      empty
    ≡ 3
unfolding Redis.check text_eq
not_over = refl

abbrev state : Fields
state = field "phone" (str "+98") end

abbrev toy_store : Redis.AuthStateStore Server
toy_store = record {
  redis = toy_redis;
  encrypt = λ s. ok s;
  decrypt = λ s. ok s;
  dumps = λ f. "{}";
  loads = λ s. ok (obj state);
}

reloaded :
    (Redis.load toy_store (codes "+98") (Redis.save toy_store (codes "+98") state empty).1).0
    ≡ ok (obj state)
unfolding Redis.load Redis.save text_eq
reloaded = refl
