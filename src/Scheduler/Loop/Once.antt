-- ===== src/Scheduler/Loop/Once.antt =====
-- A dispatch puts every due task into the list once.
use trelgream_self_userbot.Prelude.{
  ℕ, ◌≡◌, ◌≤◌, refl, ap, ◌∙◌, String, true, false, Option, List, [], ◌++◌, map, length, take-all,
  ◌==◌, if◌then◌else◌, arith,
}
use trelgream_self_userbot.Prelude.Int.{ℤ}
use trelgream_self_userbot.Prelude.Text.{Text}
use trelgream_self_userbot.Core.Exec.{ok}
use trelgream_self_userbot.Database.Json.{Fields}
use trelgream_self_userbot.Database.Table.{change, select}
use trelgream_self_userbot.Database.Table.Find.{All, All-map, change-map, change-eq}
use trelgream_self_userbot.Database.Table.Keyed.{IsKeyed}
use trelgream_self_userbot.Database.Table.Order.{
  order_by, any-order_by, All-order_by, length-order_by,
}
use trelgream_self_userbot.Database.Table.Selected.{
  has_key, has_key-select, All-select, select-change_done,
}
use trelgream_self_userbot.Database.Models.Scheduler.{ScheduledTask}
use trelgream_self_userbot.Scheduler.Rules.Period.{period}
use trelgream_self_userbot.Scheduler.Service.{list_due, is_due, runs_before}
use trelgream_self_userbot.Scheduler.Service.Advance.{advanced, advances, is_stuck, is_due-advanced}
use trelgream_self_userbot.Scheduler.Loop.{World, dispatch_each, dispatch_due_tasks}
use trelgream_self_userbot.Scheduler.Loop.Dispatch.{
  task_id, message_of, dispatched, dispatch_each_lem,
}

abbrev pub due_tasks : ℕ → World → List ScheduledTask
due_tasks now w = select (is_due now) w.db.scheduled_tasks.rows

-- the due tasks, from the one that has been due the longest
abbrev pub in_order : ℕ → World → List ScheduledTask
in_order now w = order_by runs_before (due_tasks now w)

all_listed :
    (now : ℕ) (w : World) → length (due_tasks now w) ≤ 500 → list_due now 500 w.db ≡ in_order now w
unfolding list_due
all_listed now w few =
    take-all 500 (in_order now w) (ground (arith, length-order_by runs_before (due_tasks now w)))

-- what a task must be for one dispatch at an instant: advancing it does not raise, and its rule is
-- no interval of 0 or fewer seconds
abbrev pub Moves : (parse : Text → Option ℤ) (now : ℕ) → ScheduledTask → Type 0
Moves parse now t = (advances parse now t ≡ true) × (is_stuck (period parse t.repeat_rule) ≡ false)

module _ (parse : Text → Option ℤ) (now : ℕ) (w : World) where
  -- the rows of the tasks in order are those that are due
  rows_by_key :
      IsKeyed task_id w.db.scheduled_tasks
      → change
          (λ r. has_key task_id (in_order now w) r.id)
          (advanced parse now)
          w.db.scheduled_tasks.rows
        ≡ change (is_due now) (advanced parse now) w.db.scheduled_tasks.rows
  rows_by_key keyed = change-eq _ (is_due now) (advanced parse now) w.db.scheduled_tasks.rows (
      All-map _ _ w.db.scheduled_tasks.rows
        (λ r e. any-order_by runs_before (λ q. r.id == q.id) (due_tasks now w) ∙ e)
        (has_key-select (is_due now) task_id w.db.scheduled_tasks.rows keyed.distinct))

  none_left :
      All (Moves parse now) (due_tasks now w)
      → select (is_due now) (change (is_due now) (advanced parse now) w.db.scheduled_tasks.rows)
        ≡ []
  none_left moves =
      let rows = w.db.scheduled_tasks.rows in
      select-change_done (is_due now) (advanced parse now) rows (
        All-map _ _ rows (λ t m due. is_due-advanced parse now t (m due).0 ∙ (m due).1)
          (All-select (is_due now) (Moves parse now) rows moves))

module _ (dumps : Fields → Text) (sign : Text → String) (parse : Text → Option ℤ) where
  none_due :
      (now time : ℕ) (w : World)
      → due_tasks now w ≡ []
      → dispatch_due_tasks dumps sign parse now time w ≡ (ok tt, w)
  unfolding dispatch_due_tasks dispatch_each list_due order_by
  none_due now time w e = rw e

  -- Let the keys of the tasks be distinct and below the next one, let at most 500 tasks be due, and let
  -- advancing none of them raise, and none of them have a rule of an interval of 0 or fewer seconds. Then
  -- a dispatch puts one signed message for each due task behind the messages in the list, from the
  -- longest due, and advances the due tasks and no others. A second dispatch at the same instant, at
  -- whatever time it signs, does nothing.
  pub dispatch_due_tasks_lem :
      (now time time' : ℕ) (w : World)
      → IsKeyed task_id w.db.scheduled_tasks
      → length (due_tasks now w) ≤ 500
      → All (Moves parse now) (due_tasks now w)
      → (w' : World) × (dispatch_due_tasks dumps sign parse now time w ≡ (ok tt, w'))
        × (w'.tasks ≡ w.tasks ++ map (message_of dumps sign parse now time) (in_order now w))
        × (w'.db.scheduled_tasks.rows
            ≡ map (λ t. if is_due now t then advanced parse now t else t) w.db.scheduled_tasks.rows)
        × (dispatch_due_tasks dumps sign parse now time' w' ≡ (ok tt, w'))
  unfolding dispatch_due_tasks
  dispatch_due_tasks_lem now time time' w keyed few moves =
      let due = in_order now w in
      let w' = dispatched dumps sign parse now time due w in
      let rows = rows_by_key parse now w keyed in
      (
        w',
        ap (λ l. dispatch_each dumps sign parse now time l w) (all_listed now w few)
            ∙ dispatch_each_lem dumps sign parse now time due w
                (All-order_by runs_before _ (due_tasks now w) (All-map _ _ _ (λ t m. m.0) moves)),
        refl,
        rows ∙ change-map (is_due now) (advanced parse now) w.db.scheduled_tasks.rows,
        none_due now time' w' (ap (select (is_due now)) rows ∙ none_left parse now w moves),
      )
