-- ===== src/Scheduler/Rules/Period.antt =====
-- The repeat rules by their periods: the next run is one period after the last.
use trelgream_self_userbot.Prelude.{
  ℕ, ◌≡◌, refl, String, Bool, true, false, Option, none, some, ltb, str_eq, drop, if◌then◌else◌,
  arith, Option-cases, inl, inr,
}
use trelgream_self_userbot.Prelude.Int.{ℤ, pos, negsuc}
use trelgream_self_userbot.Prelude.Text.{Text, codes, starts_with}
use trelgream_self_userbot.Core.Exec.{Result, ok}
use trelgream_self_userbot.Core.Time.{later}
use trelgream_self_userbot.Scheduler.Rules.{shift, mapped, interval, next_run_after}

abbrev pub is_positive : ℤ → Bool
is_positive (pos n) = ltb 0 n
is_positive (negsuc n) = false

pub shift-order : (time : ℕ) (s : ℤ) (n : ℕ) → shift time s ≡ ok n → ltb time n ≡ is_positive s
unfolding shift later
shift-order time (pos k) n h = ground arith
shift-order time (negsuc k) n h = ground arith

module _ (parse : Text → Option ℤ) where
  -- the seconds between two runs, `none` for a task that runs once
  abbrev pub period_of : String → Option ℤ
  period_of rule =
      if str_eq rule ""
      then none
      else if str_eq rule "one_time"
      then none
      else if str_eq rule "daily"
      then some (pos 86400)
      else if str_eq rule "weekly"
      then some (pos 604800)
      else if str_eq rule "monthly"
      then some (pos 2592000)
      else if str_eq rule "hourly"
      then some (pos 3600)
      else if starts_with (codes "interval:") (codes rule)
      then parse (drop 9 (codes rule))
      else none

  abbrev pub period : Option String → Option ℤ
  period none = none
  period (some rule) = period_of rule

  abbrev pub after_period : ℕ → Option ℤ → Result (Option ℕ)
  after_period time none = ok none
  after_period time (some seconds) = mapped (shift time seconds)

  if_after :
      (time : ℕ) (test : Bool) (p q : Option ℤ) (r s : Result (Option ℕ))
      → r ≡ after_period time p
      → s ≡ after_period time q
      → (if test then r else s) ≡ after_period time (if test then p else q)
  if_after time true p q r s h k = h
  if_after time false p q r s h k = k

  interval-eq :
      (time : ℕ) (rule : Text) → interval parse time rule ≡ after_period time (parse (drop 9 rule))
  interval-eq time rule = elim (Option-cases (parse (drop 9 rule))) [
    | inl e ↦ rw (e, interval)
    | inr (s, e) ↦ rw (e, interval)
  ]

  -- The next run is at the period of the rule after the last one: none for an empty, an unknown and a
  -- one-time rule and for an interval that is no number, a day, 7 days, 30 days or an hour for the
  -- named rules, and the number of seconds, which may be 0 or negative, for an interval; it raises
  -- OverflowError where that instant is not among those that a datetime has.
  pub next_run_after_lem :
      (time : ℕ) (rule : Option String)
      → next_run_after parse time rule ≡ after_period time (period rule)
  unfolding next_run_after shift
  next_run_after_lem time none = refl
  next_run_after_lem time (some rule) = if_after time (str_eq rule "") _ _ _ _ refl (
      if_after time (str_eq rule "one_time") _ _ _ _ refl (
        if_after time (str_eq rule "daily") _ _ _ _ refl (
          if_after time (str_eq rule "weekly") _ _ _ _ refl (
            if_after time (str_eq rule "monthly") _ _ _ _ refl (
              if_after time (str_eq rule "hourly") _ _ _ _ refl (
                if_after time (starts_with (codes "interval:") (codes rule)) _ _ _ _
                  (interval-eq time (codes rule)) refl))))))
