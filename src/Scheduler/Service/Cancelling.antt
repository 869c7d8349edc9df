-- ===== src/Scheduler/Service/Cancelling.antt =====
-- A cancelled task is not dispatched.
use trelgream_self_userbot.Prelude.{
  ℕ, ◌≡◌, ◌≢◌, ◌∙◌, true, false, none, some, List, [], ◌∷◌, ◌==◌, ==_iff, if◌then◌else◌, arith,
  Bool-cases, Option-cases, inl, inr,
}
use trelgream_self_userbot.Core.Errors.{not_found}
use trelgream_self_userbot.Core.Exec.{ok, err}
use trelgream_self_userbot.Database.Table.{select, change, find}
use trelgream_self_userbot.Database.Table.Find.{All, find-holds}
use trelgream_self_userbot.Database.Table.Keyed.{by_id}
use trelgream_self_userbot.Database.Table.Order.{All-order_by}
use trelgream_self_userbot.Database.Tenancy.{All-take}
use trelgream_self_userbot.Database.Models.Scheduler.{ScheduledTask, TaskStatus}
use trelgream_self_userbot.Database.State.{Database}
use trelgream_self_userbot.Database.Repository.{get_for_tenant}
use trelgream_self_userbot.Scheduler.Service.{cancel, list_due, is_due, runs_before}

abbrev pub cancelled : ScheduledTask → ScheduledTask
cancelled t = record t { status = TaskStatus.cancelled }

module _ (user_id i : ℕ) (db : Database) where
  -- the database in which the task is cancelled
  abbrev pub without_task : Database
  without_task = record db {
    scheduled_tasks = record db.scheduled_tasks {
      rows = change (by_id (λ t. t.id) i) cancelled db.scheduled_tasks.rows;
    };
  }

  cancel_unknown :
      find (by_id (λ t. t.id) i) db.scheduled_tasks.rows ≡ none
      → cancel user_id i db ≡ (err not_found, db)
  unfolding cancel get_for_tenant
  cancel_unknown e = rw e

  cancel_foreign :
      (t : ScheduledTask)
      → find (by_id (λ t. t.id) i) db.scheduled_tasks.rows ≡ some t
      → (t.user_id == user_id) ≡ false
      → cancel user_id i db ≡ (err not_found, db)
  unfolding cancel get_for_tenant
  cancel_foreign t found e = rw (found, e)

  cancel_own :
      (t : ScheduledTask)
      → find (by_id (λ t. t.id) i) db.scheduled_tasks.rows ≡ some t
      → (t.user_id == user_id) ≡ true
      → cancel user_id i db ≡ (ok (cancelled t), without_task)
  unfolding cancel get_for_tenant
  cancel_own t found e =
      let key : t.id ≡ i =
        (==_iff t.id i).0 (find-holds (by_id (λ r. r.id) i) db.scheduled_tasks.rows t found) in
      rw (found, e, key)

  -- none of the rows under the key is due, in a table where its tasks are cancelled
  change-not_due :
      (now : ℕ) (rows : List ScheduledTask)
      → All (λ q. q.id ≢ i) (select (is_due now) (change (by_id (λ t. t.id) i) cancelled rows))
  unfolding select change
  change-not_due now [] = tt
  change-not_due now (t ∷ rows) = elim (Bool-cases (t.id == i)) [
    | inl e ↦ rw e (change-not_due now rows)
    | inr e ↦ elim (Bool-cases (is_due now t)) [
      | inl d ↦ rw (e, d) (ground arith, change-not_due now rows)
      | inr d ↦ rw (e, d) (change-not_due now rows)
    ]
  ]

  -- A user cancels a task of their own: its status is CANCELLED, and nothing else changes. For a task of
  -- another user, and for a key that no task has, NotFoundError is raised and nothing changes. Once a
  -- task is cancelled, no instant makes it due.
  pub cancel_lem :
      (now limit : ℕ)
      → (cancel user_id i db ≡ (elim (find (by_id (λ t. t.id) i) db.scheduled_tasks.rows) [
        | none ↦ (err not_found, db)
        | some t ↦
            if t.user_id == user_id then (ok (cancelled t), without_task) else (err not_found, db)
      ]))
        × All (λ q. q.id ≢ i) (list_due now limit without_task)
  unfolding list_due
  cancel_lem now limit = (
    elim (Option-cases (find (by_id (λ t. t.id) i) db.scheduled_tasks.rows)) [
      | inl e ↦ cancel_unknown e ∙ rw e
      | inr (t, found) ↦ elim (Bool-cases (t.user_id == user_id)) [
        | inl e ↦ cancel_own t found e ∙ rw (found, e)
        | inr e ↦ cancel_foreign t found e ∙ rw (found, e)
      ]
    ],
    All-take (λ q. q.id ≢ i) limit _
        (All-order_by runs_before (λ q. q.id ≢ i) _ (change-not_due now db.scheduled_tasks.rows)),
  )
