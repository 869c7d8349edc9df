-- ===== src/Core/Redis/Limit.antt =====
-- How many checks of a key the limiter lets pass, and when it starts over.
use trelgream_self_userbot.Prelude.{
  ℕ, ◌+◌, ◌-◌, ◌≡◌, refl, sym, ap, ◌∙◌, Bool, true, false, ◌&&◌, Option, some, leb, ◌≤◌, ◌<◌, List,
  [], ◌∷◌, ltb, ◌==◌, if◌then◌else◌, arith, Bool-cases, inl, inr,
}
use trelgream_self_userbot.Prelude.Text.{Text, text_eq, text_eq_iff}
use trelgream_self_userbot.Core.Errors.{rate_limited}
use trelgream_self_userbot.Core.Exec.{Result, ok, err}
use trelgream_self_userbot.Core.Redis.Counting.{full_key-eq, check-eq, count-check, expiry-check}
use trelgream_self_userbot.Core.Redis.{Commands, IsCounting, check, full_key}

abbrev returns : Result (Unit {0}) → Bool
returns (ok u) = true
returns (err e) = false

-- what happens to the server: a check of a key, or seconds that pass
pub data Event : Type 0 where
  attempt : Text → Event
  wait : ℕ → Event

-- the checks of the key, and the seconds
abbrev pub tries : (key : Text) → List Event → ℕ
tries key [] = 0
tries key (attempt k ∷ events) = (if text_eq k key then 1 else 0) + tries key events
tries key (wait t ∷ events) = tries key events

abbrev pub waited : List Event → ℕ
waited [] = 0
waited (attempt k ∷ events) = waited events
waited (wait t ∷ events) = t + waited events

module _ {R : Type 0} (redis : Commands R) (elapse : ℕ → R → R) (limit window : ℕ) where
  -- the server after the events
  abbrev pub after : List Event → R → R
  after [] r = r
  after (attempt k ∷ events) r = after events (check redis k limit window r).1
  after (wait t ∷ events) r = after events (elapse t r)

  -- the checks of the key that pass
  abbrev pub passes : (key : Text) → List Event → R → ℕ
  passes key [] r = 0
  passes key (attempt k ∷ events) r =
      let rest = passes key events (check redis k limit window r).1 in
      (if text_eq k key && returns (check redis k limit window r).0 then 1 else 0) + rest
  passes key (wait t ∷ events) r = passes key events (elapse t r)

abbrev smaller : ℕ → ℕ → ℕ
smaller a b = if ltb a b then a else b

first_passes :
    (c limit n : ℕ) {p d : ℕ}
    → d ≡ c + 1
    → p ≡ smaller (limit - d) n
    → (if returns (if ltb c limit then ok tt else err rate_limited) then 1 else 0) + p
      ≡ smaller (limit - c) (1 + n)
first_passes c limit n {p} {d} e h = ground (arith, e, h)

not_counted : (a n : ℕ) {p : ℕ} → p ≡ smaller a n → 0 + p ≡ smaller a (0 + n)
not_counted a n {p} h = ground (arith, h)

module _ {R : Type 0} (redis : Commands R) (count : Text → R → ℕ) (expiry : Text → R → Option ℕ)
    (elapse : ℕ → R → R) (laws : IsCounting redis count expiry elapse) (limit window : ℕ)
    (positive : 1 ≤ window) where
  module _ (key : Text) where
    abbrev counted : R → ℕ
    counted r = count (full_key redis key) r

    abbrev left : R → Option ℕ
    left r = expiry (full_key redis key) r

    same : (k : Text) → text_eq k key ≡ true → full_key redis k ≡ full_key redis key
    same k e = (text_eq_iff (full_key redis k) (full_key redis key)).0 (full_key-eq redis k key ∙ e)

    counted-check :
        (k : Text) (r : R)
        → counted (check redis k limit window r).1
          ≡ (if text_eq k key then counted r + 1 else counted r)
    counted-check k r =
        count-check redis count expiry elapse laws limit window positive k r (full_key redis key)
        ∙ elim (Bool-cases (text_eq k key)) [
          | inl e ↦ rw (full_key-eq redis k key, e) (ap (λ j. count j r + 1) (same k e))
          | inr e ↦ rw (full_key-eq redis k key, e) refl
        ]

    left-check :
        (k : Text) (r : R)
        → left (check redis k limit window r).1
          ≡ (if text_eq k key && counted r == 0 then some window else left r)
    left-check k r =
        expiry-check redis count expiry elapse laws limit window positive k r (full_key redis key)
        ∙ elim (Bool-cases (text_eq k key)) [
          | inl e ↦
              rw (full_key-eq redis k key, e)
                (ap (λ j. if count j r == 0 then some window else left r) (same k e))
          | inr e ↦ rw (full_key-eq redis k key, e) refl
        ]

    returns-check :
        (k : Text) (r : R)
        → text_eq k key ≡ true
        → returns (check redis k limit window r).0
          ≡ returns (if ltb (counted r) limit then ok tt else err rate_limited)
    returns-check k r e =
        ap (λ p. returns p.0) (check-eq redis count expiry elapse laws limit window positive k r)
        ∙ ap (λ j. returns (if ltb (count j r) limit then ok tt else err rate_limited)) (same k e)

    -- a key that is counted, with seconds left
    abbrev Counted : ℕ → R → Type 0
    Counted m r = (1 ≤ counted r) × (left r ≡ some m)

    Counted-check :
        (k : Text) (m : ℕ) (r : R) → Counted m r → Counted m (check redis k limit window r).1
    Counted-check k m r (n, e) =
        let z : (counted r == 0) ≡ false = ground (arith, n) in
        elim (Bool-cases (text_eq k key)) [
          | inl f ↦ (ground (arith, counted-check k r, f, n), left-check k r ∙ rw (f, z) e)
          | inr f ↦ (ground (arith, counted-check k r, f, n), left-check k r ∙ rw (f) e)
        ]

    counted-elapse : (t m : ℕ) (r : R) → t < m → left r ≡ some m → counted (elapse t r) ≡ counted r
    counted-elapse t m r h e =
        let f : leb m t ≡ false = ground (arith, h) in
        laws.count-elapse (full_key redis key) m t r e ∙ rw (f) refl

    left-elapse : (t m : ℕ) (r : R) → t < m → left r ≡ some m → left (elapse t r) ≡ some (m - t)
    left-elapse t m r h e =
        let f : leb m t ≡ false = ground (arith, h) in
        laws.expiry-elapse (full_key redis key) m t r e ∙ rw (f) refl

    abbrev Runs : List Event → ℕ → R → Type 0
    Runs events m r =
        (passes redis elapse limit window key events r
          ≡ smaller (limit - counted r) (tries key events))
        × (left (after redis elapse limit window events r) ≡ some (m - waited events))

    runs : (events : List Event) (m : ℕ) (r : R) → Counted m r → waited events < m → Runs events m r
    runs [] m r c h = (ground (arith), c.1 ∙ ap some {x = m} {y = m - 0} (omega arith))
    runs (wait t ∷ events) m r (n, e) h =
        let f : t < m = omega (arith, h) in
        let g = counted-elapse t m r f e in
        let q =
          runs events (m - t) (elapse t r) (ground (arith, g, n), left-elapse t m r f e)
            (omega (arith, h)) in
        (
          rw (sym g) q.0,
          q.1 ∙ ap some {x = m - t - waited events} {y = m - (t + waited events)} (omega arith),
        )
    runs (attempt k ∷ events) m r c h =
        let q = runs events m (check redis k limit window r).1 (Counted-check k m r c) h in
        let z = counted-check k r in
        (
          elim (Bool-cases (text_eq k key)) [
            | inl f ↦
                let d : counted (check redis k limit window r).1 ≡ counted r + 1 =
                  z ∙ rw (f) refl in
                rw (f, returns-check k r f)
                  (first_passes (counted r) limit (tries key events) d q.0)
            | inr f ↦
                let d : counted (check redis k limit window r).1 ≡ counted r = z ∙ rw (f) refl in
                rw (f, sym d)
                  (not_counted (limit - counted (check redis k limit window r).1) (tries key events)
                    q.0)
          ],
          q.1,
        )

    -- The limit on the checks of a key that is not counted yet. Let the window be one second at least,
    -- all checks have the same limit and window, and less than the window pass after the first check of
    -- the key, while this key and others are checked in any order. Then of the checks of the key as many
    -- pass as the limit says, or all of them, if they are fewer; and when the rest of the window has
    -- passed too, the key is not counted any more: it starts over.
    pub passes_lem :
        (r : R) (events : List Event)
        → counted r ≡ 0
        → waited events < window
        → (passes redis elapse limit window key (attempt key ∷ events) r
            ≡ smaller limit (1 + tries key events))
          × (counted (
                elapse
                  (window - waited events)
                  (after redis elapse limit window (attempt key ∷ events) r))
              ≡ 0)
    passes_lem r events fresh within =
        let f : text_eq key key ≡ true = (text_eq_iff key key).1 refl in
        let d : counted (check redis key limit window r).1 ≡ counted r + 1 =
          counted-check key r ∙ rw (f) refl in
        let z : (counted r == 0) ≡ true = ground (arith, fresh) in
        let e : left (check redis key limit window r).1 ≡ some window =
          left-check key r ∙ rw (f, z) refl in
        let q =
          runs events window (check redis key limit window r).1 (ground (arith, d), e) within in
        let over : leb (window - waited events) (window - waited events) ≡ true = ground (arith) in
        (
          rw (f, returns-check key r f) (first_passes (counted r) limit (tries key events) d q.0)
              ∙ ap (λ c. smaller (limit - c) (1 + tries key events)) fresh
              ∙ ap (λ c. smaller c (1 + tries key events)) {x = limit - 0} {y = limit}
                  (omega arith),
          laws.count-elapse (full_key redis key) _ _ _ q.1 ∙ rw (over) refl,
        )
