-- ===== src/Scheduler/Service.antt =====
-- `ScheduledTaskService` and `ScheduledTaskRepository` of app/scheduler.
pub mod Advance
pub mod Cancelling
use trelgream_self_userbot.Prelude.{
  ℕ, String, Bool, true, false, not, ◌&&◌, Option, none, some, List, ltb, take, refl,
}
use trelgream_self_userbot.Prelude.Int.{ℤ}
use trelgream_self_userbot.Prelude.Text.{Text}
use trelgream_self_userbot.Core.Exec.{Result, Exec, pure, get, modify, ◌>>=◌, ◌>>◌, lift}
use trelgream_self_userbot.Database.Json.{Fields}
use trelgream_self_userbot.Database.Table.{select}
use trelgream_self_userbot.Database.Table.Keyed.{by_id}
use trelgream_self_userbot.Database.Table.Order.{order_by}
use trelgream_self_userbot.Database.Models.Scheduler.{ScheduledTask, TaskStatus, is_pending}
use trelgream_self_userbot.Database.State.{Database}
use trelgream_self_userbot.Database.Repository.{
  Model, add, change_rows, get_for_tenant, list_for_tenant,
}
use trelgream_self_userbot.Scheduler.Rules.{next_run_after}

abbrev pub task_model : Model ScheduledTask
task_model = record {
  id = λ r. r.id;
  has_tenant = true;
  tenant = λ r. some r.user_id;
  table = λ db. db.scheduled_tasks;
  with_table = λ t db. record db { scheduled_tasks = t };
  table-with_table = λ t db. refl;
}

-- `next_run_at.is_not(None), next_run_at <= now`
abbrev pub has_come : ℕ → Option ℕ → Bool
has_come now none = false
has_come now (some t) = not (ltb now t)

abbrev pub is_due : ℕ → ScheduledTask → Bool
is_due now t = is_pending t.status && has_come now t.next_run_at

abbrev pub earlier : Option ℕ → Option ℕ → Bool
earlier (some a) (some b) = ltb a b
earlier _ _ = false

abbrev pub runs_before : ScheduledTask → ScheduledTask → Bool
runs_before t u = earlier t.next_run_at u.next_run_at

unfoldable pub list_due : (now limit : ℕ) → Database → List ScheduledTask
list_due now limit db =
    take limit (order_by runs_before (select (is_due now) db.scheduled_tasks.rows))

unfoldable pub create :
    (user_id : ℕ) (type : String) (payload : Fields) (run_at : ℕ) (repeat_rule : Option String)
    → Exec Database ScheduledTask
unfolding add
create user_id type payload run_at repeat_rule = add task_model λ i. record {
  id = i;
  user_id = user_id;
  type = type;
  payload = some payload;
  run_at = some run_at;
  repeat_rule = repeat_rule;
  status = TaskStatus.pending;
  last_run_at = none;
  next_run_at = some run_at;
  retry_count = 0;
  max_retries = 3;
}

unfoldable pub list_for_user : ℕ → Exec Database (List ScheduledTask)
unfolding list_for_tenant
list_for_user user_id = list_for_tenant task_model user_id 50 0 (λ t. true)

unfoldable pub cancel : (user_id task_id : ℕ) → Exec Database ScheduledTask
unfolding get_for_tenant
cancel user_id task_id = do
  task ← get_for_tenant task_model task_id user_id
  modify (
      change_rows task_model (by_id (λ t. t.id) task.id)
        (λ t. record t { status = TaskStatus.cancelled }))
  pure (record task { status = TaskStatus.cancelled })

module _ (parse : Text → Option ℤ) where
  abbrev pub rescheduled : Option ℕ → ScheduledTask → ScheduledTask
  rescheduled none t = record t { status = TaskStatus.success; next_run_at = none }
  rescheduled (some n) t = record t { status = TaskStatus.pending; next_run_at = some n }

  -- `task` is the state
  unfoldable pub advance : (now : ℕ) → Exec ScheduledTask (Unit {0})
  unfolding next_run_after
  advance now = do
    modify (λ t. record t { last_run_at = some now; retry_count = 0 })
    task ← get
    following ← lift (next_run_after parse now task.repeat_rule)
    modify (rescheduled following)
