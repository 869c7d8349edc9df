-- ===== src/Core/Redis/Counting.antt =====
-- What one check of the limiter does to the counters.
use trelgream_self_userbot.Prelude.{
  ℕ, ◌+◌, ◌≡◌, refl, ap, ◌∙◌, true, false, not, ◌&&◌, Option, some, ◌≤◌, ltb, ◌==◌, if◌then◌else◌,
  arith, Bool-cases, inl, inr,
}
use trelgream_self_userbot.Prelude.Text.{Text, text_eq, text_eq_iff}
use trelgream_self_userbot.Core.Errors.{rate_limited}
use trelgream_self_userbot.Core.Exec.{ok, err, require}
use trelgream_self_userbot.Core.Redis.{Commands, IsCounting, check, full_key}

required :
    {S : Type 0} (c limit : ℕ) (s : S)
    → require (not (ltb limit (c + 1))) rate_limited s
      ≡ (if ltb c limit then ok tt else err rate_limited, s)
required c limit s = elim (Bool-cases (ltb c limit)) [
  | inl e ↦ let f : ltb limit (c + 1) ≡ false = ground (arith, e) in rw (e, f)
  | inr e ↦ let f : ltb limit (c + 1) ≡ true = ground (arith, e) in rw (e, f)
]

pub full_key-eq :
    {R : Type 0} (redis : Commands R) (k j : Text)
    → text_eq (full_key redis k) (full_key redis j) ≡ text_eq k j
unfolding text_eq
full_key-eq redis k j = refl

module _ {R : Type 0} (redis : Commands R) (count : Text → R → ℕ) (expiry : Text → R → Option ℕ)
    (elapse : ℕ → R → R) (laws : IsCounting redis count expiry elapse) (limit window : ℕ)
    (positive : 1 ≤ window) where
  module _ (k : Text) (r : R) where
    abbrev counter : R
    counter = (redis.incr (full_key redis k) r).1

    abbrev timed : R
    timed = (redis.expire (full_key redis k) window counter).1

    counted_here : 1 ≤ count (full_key redis k) counter
    counted_here =
        let same = (text_eq_iff (full_key redis k) (full_key redis k)).1 refl in
        ground (arith, laws.count-incr (full_key redis k) (full_key redis k) r, same)

    -- the outcome of a check, and the server after it
    pub check-eq : check redis k limit window r ≡ (
      if ltb (count (full_key redis k) r) limit then ok tt else err rate_limited,
      if count (full_key redis k) r == 0 then timed else counter,
    )
    unfolding check
    check-eq = elim (Bool-cases (count (full_key redis k) r == 0)) [
      | inl e ↦
          let first : count (full_key redis k) r + 1 == 1 ≡ true = ground (arith, e) in
          rw
            (
              laws.incr-returns (full_key redis k) r,
              first,
              laws.expire-returns (full_key redis k) window counter positive,
              e,
            )
            (required (count (full_key redis k) r) limit timed)
      | inr e ↦
          let later : count (full_key redis k) r + 1 == 1 ≡ false = ground (arith, e) in
          rw (laws.incr-returns (full_key redis k) r, later, e)
            (required (count (full_key redis k) r) limit counter)
    ]

    pub count-check :
        (j : Text)
        → count j (check redis k limit window r).1
          ≡ (if text_eq (full_key redis k) j then count (full_key redis k) r + 1 else count j r)
    count-check j =
        ap (λ p. count j p.1) check-eq ∙ elim (Bool-cases (count (full_key redis k) r == 0)) [
          | inl e ↦
              rw (e, laws.count-expire j (full_key redis k) window counter positive)
                (laws.count-incr j (full_key redis k) r)
          | inr e ↦ rw (e) (laws.count-incr j (full_key redis k) r)
        ]

    pub expiry-check :
        (j : Text)
        → expiry j (check redis k limit window r).1 ≡ (
            if text_eq (full_key redis k) j && count (full_key redis k) r == 0
            then some window
            else expiry j r)
    expiry-check j =
        ap (λ p. expiry j p.1) check-eq ∙ elim (Bool-cases (count (full_key redis k) r == 0)) [
          | inl e ↦ elim (Bool-cases (text_eq (full_key redis k) j)) [
            | inl f ↦
                rw
                  (
                    e,
                    laws.expiry-expire j (full_key redis k) window counter positive counted_here,
                    f,
                  )
                  refl
            | inr f ↦
                rw
                  (
                    e,
                    laws.expiry-expire j (full_key redis k) window counter positive counted_here,
                    f,
                  )
                  (laws.expiry-incr j (full_key redis k) r)
          ]
          | inr e ↦ elim (Bool-cases (text_eq (full_key redis k) j)) [
            | inl f ↦ rw (e, f) (laws.expiry-incr j (full_key redis k) r)
            | inr f ↦ rw (e, f) (laws.expiry-incr j (full_key redis k) r)
          ]
        ]
