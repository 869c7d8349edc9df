-- ===== src/Scheduler/Service/Advance.antt =====
-- What `advance` makes of a task that has run.
use trelgream_self_userbot.Prelude.{
  ℕ, ◌≡◌, refl, ap, sym, ◌∙◌, Bool, true, false, not, Option, none, some,
}
use trelgream_self_userbot.Prelude.Int.{ℤ}
use trelgream_self_userbot.Prelude.Text.{Text}
use trelgream_self_userbot.Core.Exec.{Result, ok, err, lift, modify, ◌>>=◌}
use trelgream_self_userbot.Database.Models.Scheduler.{ScheduledTask}
use trelgream_self_userbot.Scheduler.Rules.{next_run_after, shift, mapped}
use trelgream_self_userbot.Scheduler.Rules.Period.{
  period, after_period, next_run_after_lem, is_positive, shift-order,
}
use trelgream_self_userbot.Scheduler.Service.{advance, is_due, rescheduled}

-- whether `advance` returns
abbrev pub returns : Result (Unit {0}) → Bool
returns (ok u) = true
returns (err e) = false

-- whether the task comes back with a period that leads nowhere
abbrev pub is_stuck : Option ℤ → Bool
is_stuck none = false
is_stuck (some s) = not (is_positive s)

module _ (parse : Text → Option ℤ) where
  -- the task after `advance`
  abbrev pub advanced : ℕ → ScheduledTask → ScheduledTask
  advanced now t = (advance parse now t).1

  abbrev pub advances : ℕ → ScheduledTask → Bool
  advances now t = returns (advance parse now t).0

  -- `advance`, once the next run is known
  abbrev pub finished : ℕ → Result (Option ℕ) → ScheduledTask → Result (Unit {0}) × ScheduledTask
  finished now (ok following) t =
      (ok tt, rescheduled parse following (record t { last_run_at = some now; retry_count = 0 }))
  finished now (err e) t = (err e, record t { last_run_at = some now; retry_count = 0 })

  finish_run :
      (now : ℕ) (r : Result (Option ℕ)) (t : ScheduledTask)
      → (lift r >>= (λ following. modify (rescheduled parse following)))
          (record t { last_run_at = some now; retry_count = 0 })
        ≡ finished now r t
  finish_run now (ok following) t = refl
  finish_run now (err e) t = refl

  pub advance-finished :
      (now : ℕ) (t : ScheduledTask)
      → advance parse now t ≡ finished now (next_run_after parse now t.repeat_rule) t
  unfolding advance
  advance-finished now t = finish_run now (next_run_after parse now t.repeat_rule) t

  rule-finished :
      (now : ℕ) (r : Result (Option ℕ)) (t : ScheduledTask)
      → (finished now r t).1.repeat_rule ≡ t.repeat_rule
  rule-finished now (ok none) t = refl
  rule-finished now (ok (some n)) t = refl
  rule-finished now (err e) t = refl

  key-finished :
      (now : ℕ) (r : Result (Option ℕ)) (t : ScheduledTask) → (finished now r t).1.id ≡ t.id
  key-finished now (ok none) t = refl
  key-finished now (ok (some n)) t = refl
  key-finished now (err e) t = refl

  pub rule-advanced : (now : ℕ) (t : ScheduledTask) → (advanced now t).repeat_rule ≡ t.repeat_rule
  rule-advanced now t = ap (λ p. p.1.repeat_rule) (advance-finished now t) ∙ rule-finished now _ t

  pub key-advanced : (now : ℕ) (t : ScheduledTask) → (advanced now t).id ≡ t.id
  key-advanced now t = ap (λ p. p.1.id) (advance-finished now t) ∙ key-finished now _ t

  finished-finished :
      (now : ℕ) (r : Result (Option ℕ)) (t : ScheduledTask)
      → finished now r (finished now r t).1 ≡ finished now r t
  finished-finished now (ok none) t = refl
  finished-finished now (ok (some n)) t = refl
  finished-finished now (err e) t = refl

  -- Advancing a task a second time at the same instant does the same, and raises the same, and changes
  -- nothing more.
  pub advance-advance :
      (now : ℕ) (t : ScheduledTask) → advance parse now (advanced now t) ≡ advance parse now t
  advance-advance now t =
      let r = next_run_after parse now t.repeat_rule in
      advance-finished now (advanced now t)
      ∙ ap (λ rule. finished now (next_run_after parse now rule) (advanced now t))
          (rule-advanced now t)
      ∙ ap (λ p. finished now r p.1) (advance-finished now t)
      ∙ finished-finished now r t
      ∙ sym (advance-finished now t)

  shifted_due :
      (now : ℕ) (t : ScheduledTask) (s : ℤ) (r : Result ℕ)
      → shift now s ≡ r
      → returns (finished now (mapped r) t).0 ≡ true
      → is_due now (finished now (mapped r) t).1 ≡ not (is_positive s)
  shifted_due now t s (ok n) e h = ap not (shift-order now s n e)
  shifted_due now t s (err x) e h = cc

  period_due :
      (now : ℕ) (t : ScheduledTask) (p : Option ℤ)
      → returns (finished now (after_period parse now p) t).0 ≡ true
      → is_due now (finished now (after_period parse now p) t).1 ≡ is_stuck p
  period_due now t none h = refl
  period_due now t (some s) h = shifted_due now t s (shift now s) refl h

  finished_by_period :
      (now : ℕ) (t : ScheduledTask)
      → advance parse now t ≡ finished now (after_period parse now (period parse t.repeat_rule)) t
  finished_by_period now t =
      advance-finished now t
      ∙ ap (λ r. finished now r t) (next_run_after_lem parse now t.repeat_rule)

  -- If advancing a task at an instant does not raise, the task is due again at that very instant
  -- exactly if its rule is an interval of 0 or fewer seconds.
  pub is_due-advanced :
      (now : ℕ) (t : ScheduledTask)
      → advances now t ≡ true
      → is_due now (advanced now t) ≡ is_stuck (period parse t.repeat_rule)
  is_due-advanced now t h =
      let run = finished_by_period now t in
      ap (λ p. is_due now p.1) run
      ∙ period_due now t (period parse t.repeat_rule) (ap (λ p. returns p.0) (sym run) ∙ h)
