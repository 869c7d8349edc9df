-- ===== src/Scheduler/Loop/Rollback.antt =====
-- A tick that fails half-way: the database is as before, the list is not.
use trelgream_self_userbot.Prelude.{
  ℕ, ◌≡◌, refl, ap, ◌∙◌, String, true, Option, List, [], ◌∷◌, ◌++◌, map,
}
use mathlib.Core.List.{append_assoc}
use trelgream_self_userbot.Prelude.Int.{ℤ}
use trelgream_self_userbot.Prelude.Text.{Text}
use trelgream_self_userbot.Core.Errors.{Exception}
use trelgream_self_userbot.Core.Exec.{err, continue, settle}
use trelgream_self_userbot.Core.Messages.{Raw}
use trelgream_self_userbot.Database.Json.{Fields}
use trelgream_self_userbot.Database.Table.Find.{All}
use trelgream_self_userbot.Database.Models.Billing.{Subscription}
use trelgream_self_userbot.Database.Models.Scheduler.{ScheduledTask}
use trelgream_self_userbot.Database.State.{Database}
use trelgream_self_userbot.Billing.Service.{expire_each, expire_due_subscriptions}
use trelgream_self_userbot.Billing.Repositories.{list_expired_active}
use trelgream_self_userbot.Scheduler.Service.{list_due, advance}
use trelgream_self_userbot.Scheduler.Service.Advance.{advances}
use trelgream_self_userbot.Scheduler.Loop.{World, dispatch_each, dispatch_due_tasks, tick}
use trelgream_self_userbot.Scheduler.Loop.Dispatch.{message_of, round, after_round, returns-true}

expire_each-scheduled_tasks :
    (due : List Subscription) (db : Database)
    → (expire_each due db).scheduled_tasks ≡ db.scheduled_tasks
unfolding expire_each
expire_each-scheduled_tasks [] db = refl
expire_each-scheduled_tasks (s ∷ due) db = expire_each-scheduled_tasks due _

module _ (dumps : Fields → Text) (sign : Text → String) (parse : Text → Option ℤ)
    (now time : ℕ) where
  abbrev pub messages : List ScheduledTask → List Raw
  messages due = map (message_of dumps sign parse now time) due

  module _ (t : ScheduledTask) (post : List ScheduledTask) (e : Exception)
      (raises : (advance parse now t).0 ≡ err e) where
    dispatch_each_raises :
        (pre : List ScheduledTask) (w : World)
        → All (λ q. advances parse now q ≡ true) pre
        → (w' : World) × (dispatch_each dumps sign parse now time (pre ++ t ∷ post) w ≡ (err e, w'))
          × (w'.tasks ≡ w.tasks ++ messages (pre ++ t ∷ []))
    dispatch_each_raises [] w h = (
      round dumps sign parse now time t w,
      after_round dumps sign parse now time t post w
          ∙ ap
              (λ r.
                continue r (λ u. dispatch_each dumps sign parse now time post)
                  (round dumps sign parse now time t w))
              raises,
      refl,
    )
    dispatch_each_raises (p ∷ pre) w h =
        let w₁ = round dumps sign parse now time p w in
        let (w', run, tasks) = dispatch_each_raises pre w₁ h.1 in
        (
          w',
          after_round dumps sign parse now time p (pre ++ t ∷ post) w
              ∙ ap
                  (λ r.
                    continue r (λ u. dispatch_each dumps sign parse now time (pre ++ t ∷ post)) w₁)
                  (returns-true (advance parse now p).0 h.0)
              ∙ run,
          tasks ∙ append_assoc w.tasks (messages (p ∷ [])) (messages (pre ++ t ∷ [])),
        )

    -- If advancing a due task raises, after tasks that advance, the tick leaves the whole database as it
    -- was before the tick: no subscription has expired and none of those tasks has advanced. But the
    -- messages of those tasks, and of the one that raises, stay in the list.
    pub tick_raises :
        (expiry_now : ℕ) (pre : List ScheduledTask) (w : World)
        → list_due now 500 w.db ≡ pre ++ t ∷ post
        → All (λ q. advances parse now q ≡ true) pre
        → tick dumps sign parse expiry_now now time w
          ≡ record { db = w.db; tasks = w.tasks ++ messages (pre ++ t ∷ []) }
    unfolding tick dispatch_due_tasks expire_due_subscriptions list_due
    tick_raises expiry_now pre w due h =
        let db₁ = expire_each (list_expired_active expiry_now w.db) w.db in
        let w₁ : World = record { db = db₁; tasks = w.tasks } in
        let same = expire_each-scheduled_tasks (list_expired_active expiry_now w.db) w.db in
        let (w', run, tasks) = dispatch_each_raises pre w₁ h in
        let listed : list_due now 500 db₁ ≡ pre ++ t ∷ post =
          ap (λ rows. list_due now 500 (record w.db { scheduled_tasks = rows })) same ∙ due in
        let full : dispatch_due_tasks dumps sign parse now time w₁ ≡ (err e, w') =
          ap (λ l. dispatch_each dumps sign parse now time l w₁) listed ∙ run in
        ap (λ p. record { db = (settle p.0 w.db p.1.db).1; tasks = p.1.tasks }) full
        ∙ ap (λ l. record { db = w.db; tasks = l }) tasks
