-- ===== src/Scheduler/Rules.antt =====
-- `next_run_after` of app/scheduler/service.py. `parse`, Python's `int` of a text, is a parameter:
-- `none` is its ValueError.
pub mod Period
use trelgream_self_userbot.Prelude.{
  ℕ, suc, ◌+◌, ◌-◌, ◌*◌, String, Bool, Option, none, some, ltb, str_eq, drop, if◌then◌else◌,
}
use trelgream_self_userbot.Prelude.Int.{ℤ, pos, negsuc}
use trelgream_self_userbot.Prelude.Text.{Text, codes, starts_with}
use trelgream_self_userbot.Core.Errors.{overflow_error}
use trelgream_self_userbot.Core.Exec.{Result, ok, err}
use trelgream_self_userbot.Core.Time.{later, second, hour, day}

-- `time + timedelta(seconds=n)`: out of range, the one or the other raises OverflowError
unfoldable pub shift : ℕ → ℤ → Result ℕ
unfolding later
shift time (pos n) = later time (n * second)
shift time (negsuc n) =
    if ltb time (suc n * second) then err overflow_error else ok (time - suc n * second)

abbrev pub mapped : Result ℕ → Result (Option ℕ)
mapped (ok n) = ok (some n)
mapped (err e) = err e

module _ (parse : Text → Option ℤ) where
  abbrev pub interval : ℕ → Text → Result (Option ℕ)
  interval run_at rule = elim (parse (drop 9 rule)) [
    | none ↦ ok none
    | some seconds ↦ mapped (shift run_at seconds)
  ]

  -- the rule `None` is as the empty one
  unfoldable pub next_run_after : ℕ → Option String → Result (Option ℕ)
  unfolding shift later starts_with
  next_run_after run_at none = ok none
  next_run_after run_at (some rule) =
      if str_eq rule ""
      then ok none
      else if str_eq rule "one_time"
      then ok none
      else if str_eq rule "daily"
      then mapped (later run_at day)
      else if str_eq rule "weekly"
      then mapped (later run_at (7 * day))
      else if str_eq rule "monthly"
      then mapped (later run_at (30 * day))
      else if str_eq rule "hourly"
      then mapped (later run_at hour)
      else if starts_with (codes "interval:") (codes rule)
      then interval run_at (codes rule)
      else ok none
