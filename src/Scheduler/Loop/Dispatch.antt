-- ===== src/Scheduler/Loop/Dispatch.antt =====
-- What one dispatch does to the tasks and to the list of messages.
use trelgream_self_userbot.Prelude.{
  ℕ, ◌≡◌, refl, sym, ap, ◌∙◌, String, true, false, Option, List, [], ◌∷◌, ◌++◌, map, arith,
}
use mathlib.Core.List.{append-nil, append_assoc}
use trelgream_self_userbot.Prelude.Int.{ℤ}
use trelgream_self_userbot.Prelude.Text.{Text}
use trelgream_self_userbot.Core.Exec.{Result, ok, err, continue}
use trelgream_self_userbot.Core.Messages.{Raw}
use trelgream_self_userbot.Database.Json.{Fields}
use trelgream_self_userbot.Database.Table.{change}
use trelgream_self_userbot.Database.Table.Find.{All}
use trelgream_self_userbot.Database.Table.Keyed.{by_id}
use trelgream_self_userbot.Database.Table.Selected.{has_key}
use trelgream_self_userbot.Database.Models.Scheduler.{ScheduledTask}
use trelgream_self_userbot.Scheduler.Service.{advance}
use trelgream_self_userbot.Scheduler.Service.Advance.{
  advanced, advances, returns, advance-advance, key-advanced,
}
use trelgream_self_userbot.Scheduler.Loop.{World, dispatch_each, signed_task, or_empty, enqueue}

abbrev pub task_id : ScheduledTask → ℕ
task_id t = t.id

module _ (parse : Text → Option ℤ) (now : ℕ) where
  change_nil :
      (f : ScheduledTask → ScheduledTask) (rs : List ScheduledTask) → change (λ r. false) f rs ≡ rs
  unfolding change
  change_nil f [] = refl
  change_nil f (r ∷ rs) = ap (λ l. r ∷ l) (change_nil f rs)

  -- a row that is advanced by two rounds is as one that is advanced by one
  change-advanced :
      (t : ScheduledTask) (due rs : List ScheduledTask)
      → change
          (λ r. has_key task_id due r.id)
          (advanced parse now)
          (change (by_id (λ r. r.id) t.id) (advanced parse now) rs)
        ≡ change (λ r. has_key task_id (t ∷ due) r.id) (advanced parse now) rs
  unfolding change
  change-advanced t due [] = refl
  change-advanced t due (r ∷ rs) = ground (
    arith,
    change-advanced t due rs,
    key-advanced parse now r,
    ap (λ p. p.1) (advance-advance parse now r),
  )

pub returns-true : (r : Result (Unit {0})) → returns r ≡ true → r ≡ ok tt
returns-true (ok u) h = refl
returns-true (err e) h = cc

abbrev pub with_tasks : List ScheduledTask → List Raw → World → World
with_tasks rows tasks w = record {
  db = record w.db { scheduled_tasks = record w.db.scheduled_tasks { rows = rows } };
  tasks = tasks;
}

module _ (dumps : Fields → Text) (sign : Text → String) (parse : Text → Option ℤ)
    (now time : ℕ) where
  abbrev pub message_of : ScheduledTask → Raw
  message_of t = signed_task dumps sign t.id t.user_id t.type (or_empty t.payload) time

  -- the tasks of the list are advanced, and their messages are put behind the others
  abbrev pub dispatched : List ScheduledTask → World → World
  dispatched due w =
      with_tasks
        (change (λ r. has_key task_id due r.id) (advanced parse now) w.db.scheduled_tasks.rows)
        (w.tasks ++ map message_of due) w

  -- the round of one task
  abbrev pub round : ScheduledTask → World → World
  round t w =
      with_tasks (change (by_id (λ r. r.id) t.id) (advanced parse now) w.db.scheduled_tasks.rows)
        (w.tasks ++ message_of t ∷ []) w

  pub after_round :
      (t : ScheduledTask) (due : List ScheduledTask) (w : World)
      → dispatch_each dumps sign parse now time (t ∷ due) w
        ≡ continue
            (advance parse now t).0
            (λ u. dispatch_each dumps sign parse now time due)
            (round t w)
  unfolding dispatch_each enqueue
  after_round t due w = refl

  dispatched-nil : (w : World) → w ≡ dispatched [] w
  dispatched-nil w =
      let rows = sym (change_nil parse now (advanced parse now) w.db.scheduled_tasks.rows) in
      let tasks = sym (append-nil w.tasks) in λ i. with_tasks (rows i) (tasks i) w

  dispatched-round :
      (t : ScheduledTask) (due : List ScheduledTask) (w : World)
      → dispatched due (round t w) ≡ dispatched (t ∷ due) w
  dispatched-round t due w =
      let rows = change-advanced parse now t due w.db.scheduled_tasks.rows in
      let tasks = append_assoc w.tasks (message_of t ∷ []) (map message_of due) in
      λ i. with_tasks (rows i) (tasks i) w

  pub dispatch_each_lem :
      (due : List ScheduledTask) (w : World)
      → All (λ t. advances parse now t ≡ true) due
      → dispatch_each dumps sign parse now time due w ≡ (ok tt, dispatched due w)
  unfolding dispatch_each
  dispatch_each_lem [] w h = ap (λ v. (ok tt, v)) (dispatched-nil w)
  dispatch_each_lem (t ∷ due) w h =
      after_round t due w
      ∙ ap (λ r. continue r (λ u. dispatch_each dumps sign parse now time due) (round t w))
          (returns-true (advance parse now t).0 h.0)
      ∙ dispatch_each_lem due (round t w) h.1
      ∙ ap (λ v. (ok tt, v)) (dispatched-round t due w)
