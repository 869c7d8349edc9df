-- ===== src/Scheduler/Loop.antt =====
-- app/scheduler/queue.py and loop.py: the tasks that are due go into a Redis list, and one tick of the
-- scheduler. `dumps` is `json.dumps` with sorted keys, and `time` is `int(time.time())`.
pub mod Dispatch
pub mod Once
pub mod Rollback
use trelgream_self_userbot.Prelude.{
  ℕ, String, Option, none, some, List, [], ◌∷◌, ◌++◌, ◌&&◌, Bool, true, false, if◌then◌else◌,
}
use trelgream_self_userbot.Prelude.Int.{ℤ, pos}
use trelgream_self_userbot.Prelude.Text.{Text}
use trelgream_self_userbot.Core.Errors.{type_error}
use trelgream_self_userbot.Core.Exec.{Result, ok, err, Exec, pure, modify, ◌>>=◌, ◌>>◌, settle}
use trelgream_self_userbot.Core.Signer.{verify}
use trelgream_self_userbot.Core.Messages.{Raw, malformed, other, message, without_field, get_or}
use trelgream_self_userbot.Database.Json.{Json, null, int, str, obj, Fields, field, end, get_field}
use trelgream_self_userbot.Database.Table.{find, change}
use trelgream_self_userbot.Database.Table.Keyed.{by_id}
use trelgream_self_userbot.Database.Models.Scheduler.{ScheduledTask}
use trelgream_self_userbot.Database.State.{Database}
use trelgream_self_userbot.Database.Repository.{change_rows}
use trelgream_self_userbot.Automation.Actions.{truthy}
use trelgream_self_userbot.Billing.Service.{expire_due_subscriptions}
use trelgream_self_userbot.Scheduler.Service.{task_model, list_due, advance}

-- the database as the session sees it, and the list `tasks:userbots`, which is not part of the
-- transaction
pub record World : Type 0 where
  pub db : Database
  pub tasks : List Raw

-- `body["…"]` of the five keys that are signed
abbrev pub task_body : (task_id user_id type payload ts : Json) → Fields
task_body task_id user_id type payload ts =
    field "task_id" task_id
      (field "user_id" user_id (field "type" type (field "payload" payload (field "ts" ts end))))

-- `task.payload or {}`
abbrev pub or_empty : Option Fields → Fields
or_empty none = end
or_empty (some payload) = payload

-- an assignment to the attributes of the task is seen in its row
abbrev pub with_task : ℕ → Exec ScheduledTask (Unit {0}) → ScheduledTask → Exec World (Unit {0})
with_task i m task w =
    ((m task).0, record w { db = change_rows task_model (by_id (λ t. t.id) i) (λ t. (m t).1) w.db })

module _ (dumps : Fields → Text) where
  abbrev get_or_null : String → Fields → Json
  get_or_null key body = get_or key null body

  unfoldable pub canonical : Fields → Text
  unfolding get_field
  canonical body = dumps (
      task_body (get_or_null "task_id" body) (get_or_null "user_id" body) (get_or_null "type" body)
        (get_or_null "payload" body) (get_or_null "ts" body))

  module _ (sign : Text → String) where
    unfoldable pub signed_task :
        (task_id user_id : ℕ) (type : String) (payload : Fields) (time : ℕ) → Raw
    unfolding canonical
    signed_task task_id user_id type payload time =
        let body =
          task_body (int (pos task_id)) (int (pos user_id)) (str type) (obj payload)
            (int (pos time)) in
        message (field "signature" (str (sign (canonical body))) body)

    unfoldable pub enqueue :
        (task_id user_id : ℕ) (type : String) (payload : Fields) (time : ℕ) → List Raw → List Raw
    unfolding signed_task
    enqueue task_id user_id type payload time queue =
        queue ++ signed_task task_id user_id type payload time ∷ []

    abbrev after_verify : Fields → Result Bool → Result (Option Fields)
    after_verify body (ok true) = ok (some body)
    after_verify body (ok false) = ok none
    after_verify body (err e) = err e

    unfoldable pub check : Raw → Result (Option Fields)
    unfolding canonical verify truthy without_field get_field
    check malformed = ok none
    check other = err type_error
    check (message fields) =
        let signature = get_or "signature" null fields in
        let body = without_field "signature" fields in
        if truthy signature
        then after_verify body (verify sign (canonical body) signature)
        else ok none

    unfoldable pub pop : List Raw → Result (Option Fields) × List Raw
    unfolding check
    pop [] = (ok none, [])
    pop (raw ∷ queue) = (check raw, queue)

    module _ (parse : Text → Option ℤ) where
      unfoldable pub dispatch_each : (now time : ℕ) → List ScheduledTask → Exec World (Unit {0})
      unfolding enqueue advance
      dispatch_each now time [] = pure tt
      dispatch_each now time (task ∷ due) = do
        modify (λ w. record w {
          tasks = enqueue task.id task.user_id task.type (or_empty task.payload) time w.tasks;
        })
        with_task task.id (advance parse now) task
        dispatch_each now time due

      unfoldable pub dispatch_due_tasks : (now time : ℕ) → Exec World (Unit {0})
      unfolding dispatch_each list_due
      dispatch_due_tasks now time w = dispatch_each now time (list_due now 500 w.db) w

      abbrev after_dispatch : Database → Result (Unit {0}) × World → World
      after_dispatch before (r, w) = record w { db = (settle r before w.db).1 }

      -- one round of `run_scheduler`: the two services read the clock for themselves
      unfoldable pub tick : (now now' time : ℕ) → World → World
      unfolding dispatch_due_tasks expire_due_subscriptions
      tick now now' time w =
          let (r, db) = expire_due_subscriptions now w.db in
          after_dispatch w.db (dispatch_due_tasks now' time (record w { db = db }))
