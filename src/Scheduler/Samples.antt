-- ===== src/Scheduler/Samples.antt =====
-- Two due tasks, and the theorems of the scheduler at them.
use trelgream_self_userbot.Prelude.{
  ℕ, ◌+◌, ◌*◌, ◌≡◌, refl, String, ◌≢◌, ◌==◌, true, Option, none, some, List, [], ◌∷◌, map, length,
  ◌≤◌, if◌then◌else◌, arith,
}
use trelgream_self_userbot.Prelude.Int.{ℤ, pos}
use trelgream_self_userbot.Prelude.Text.{Text, codes, starts_with}
use trelgream_self_userbot.Core.Errors.{overflow_error, not_found}
use trelgream_self_userbot.Core.Exec.{ok, err}
use trelgream_self_userbot.Core.Time.{day, later, end_of_time}
use trelgream_self_userbot.Database.Json.{Fields, end, field, str}
use trelgream_self_userbot.Database.Table.{select, find}
use trelgream_self_userbot.Database.Table.Keyed.{IsKeyed, by_id}
use trelgream_self_userbot.Database.Table.Find.{All}
use trelgream_self_userbot.Database.Table.Order.{order_by}
use trelgream_self_userbot.Database.Models.Scheduler.{ScheduledTask, TaskStatus}
use trelgream_self_userbot.Database.Empty.{empty_database}
use trelgream_self_userbot.Scheduler.Rules.{next_run_after, shift}
use trelgream_self_userbot.Scheduler.Rules.Period.{period}
use trelgream_self_userbot.Scheduler.Service.{list_due, is_due, advance, cancel}
use trelgream_self_userbot.Scheduler.Service.Cancelling.{cancelled, without_task, cancel_lem}
use trelgream_self_userbot.Scheduler.Service.Advance.{
  advanced, advances, is_stuck, advance-advance, is_due-advanced,
}
use trelgream_self_userbot.Scheduler.Loop.{World, dispatch_due_tasks, tick}
use trelgream_self_userbot.Scheduler.Loop.Dispatch.{message_of, task_id}
use trelgream_self_userbot.Scheduler.Loop.Once.{dispatch_due_tasks_lem, in_order, due_tasks, Moves}
use trelgream_self_userbot.Scheduler.Loop.Rollback.{tick_raises, messages}

abbrev no_number : Text → Option ℤ
no_number t = none

-- every text is read as 0
abbrev zero_seconds : Text → Option ℤ
zero_seconds t = some (pos 0)

-- as a number of seconds that no datetime reaches
abbrev too_many : Text → Option ℤ
too_many t = some (pos (end_of_time))

abbrev toy_dumps : Fields → Text
toy_dumps f = codes "{}"

abbrev toy_sign : Text → String
toy_sign t = "ab"

abbrev task : (id next : ℕ) → String → ScheduledTask
task id next rule = record {
  id = id;
  user_id = 3;
  type = "send_message";
  payload = some (field "peer" (str "me") end);
  run_at = some next;
  repeat_rule = some rule;
  status = TaskStatus.pending;
  last_run_at = none;
  next_run_at = some next;
  retry_count = 0;
  max_retries = 3;
}

abbrev with : List ScheduledTask → World
with rows = record {
  db = record empty_database { scheduled_tasks = record { rows = rows; next_id = 4 } };
  tasks = [];
}

abbrev now : ℕ
now = 700000 * day

abbrev daily : World
daily = with (task 1 now "daily" ∷ task 2 5 "one_time" ∷ task 3 (now + 1) "hourly" ∷ [])

advance-advance_example :
    advance no_number now (advanced no_number now (task 1 now "daily"))
    ≡ advance no_number now (task 1 now "daily")
advance-advance_example = advance-advance no_number now (task 1 now "daily")

advances_zero : advances zero_seconds now (task 1 now "interval:0") ≡ true
unfolding advance next_run_after shift later starts_with
advances_zero = refl

is_due-advanced_example :
    is_due now (advanced zero_seconds now (task 1 now "interval:0"))
    ≡ is_stuck (period zero_seconds (some "interval:0"))
is_due-advanced_example = is_due-advanced zero_seconds now (task 1 now "interval:0") advances_zero

-- it is due again
stuck : is_stuck (period zero_seconds (some "interval:0")) ≡ true
unfolding starts_with
stuck = refl

daily-IsKeyed : IsKeyed task_id daily.db.scheduled_tasks
daily-IsKeyed = record { below = omega arith; distinct = omega arith }

due_daily : due_tasks now daily ≡ task 1 now "daily" ∷ task 2 5 "one_time" ∷ []
unfolding select
due_daily = refl

two_due : in_order now daily ≡ task 2 5 "one_time" ∷ task 1 now "daily" ∷ []
unfolding select order_by
two_due = refl

daily_ready : All (Moves no_number now) (due_tasks now daily)
unfolding select advance next_run_after shift later starts_with
daily_ready = ((refl, refl), ((refl, refl), tt))

few : length (due_tasks now daily) ≤ 500
unfolding select
few = omega arith

dispatch_due_tasks_lem_example :
    (w' : World) × (dispatch_due_tasks toy_dumps toy_sign no_number now 60 daily ≡ (ok tt, w'))
    × (w'.tasks ≡ map (message_of toy_dumps toy_sign no_number now 60) (in_order now daily))
    × (w'.db.scheduled_tasks.rows
        ≡ map
            (λ t. if is_due now t then advanced no_number now t else t)
            daily.db.scheduled_tasks.rows)
    × (dispatch_due_tasks toy_dumps toy_sign no_number now 61 w' ≡ (ok tt, w'))
dispatch_due_tasks_lem_example =
    dispatch_due_tasks_lem toy_dumps toy_sign no_number now 60 61 daily daily-IsKeyed few
      daily_ready

-- the second task cannot be advanced
abbrev broken : World
broken = with (task 1 now "interval:9" ∷ task 2 5 "one_time" ∷ [])

broken_raises : (advance too_many now (task 1 now "interval:9")).0 ≡ err overflow_error
unfolding advance next_run_after shift later starts_with
broken_raises = refl

broken_due : list_due now 500 broken.db ≡ task 2 5 "one_time" ∷ task 1 now "interval:9" ∷ []
unfolding list_due select order_by
broken_due = refl

first_advances : All (λ q. advances too_many now q ≡ true) (task 2 5 "one_time" ∷ [])
unfolding advance next_run_after
first_advances = (refl, tt)

tick_raises_example : tick toy_dumps toy_sign too_many now now 60 broken ≡ record {
  db = broken.db;
  tasks =
      messages toy_dumps toy_sign too_many now 60
        (task 2 5 "one_time" ∷ task 1 now "interval:9" ∷ []);
}
tick_raises_example =
    tick_raises toy_dumps toy_sign too_many now 60 (task 1 now "interval:9") [] overflow_error
      broken_raises now (task 2 5 "one_time" ∷ []) broken broken_due first_advances

cancel_lem_example :
    (cancel 3 1 daily.db ≡ (elim (find (by_id task_id 1) daily.db.scheduled_tasks.rows) [
      | none ↦ (err not_found, daily.db)
      | some t ↦
          if t.user_id == 3
          then (ok (cancelled t), without_task 3 1 daily.db)
          else (err not_found, daily.db)
    ]))
    × All (λ q. q.id ≢ 1) (list_due now 500 (without_task 3 1 daily.db))
cancel_lem_example = cancel_lem 3 1 daily.db now 500
