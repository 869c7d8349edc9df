-- ===== src/Workers/Manager/Reach.antt =====
-- Every state that the process can come to, by rounds of the supervisor, by what happens to the
-- coroutines, and by what other processes write, in any order.
use trelgream_self_userbot.Prelude.{
  ℕ, refl, String, Bool, List, [], ◌∷◌, if◌then◌else◌, Bool-cases, inl, inr, arith,
}
use trelgream_self_userbot.Prelude.Dict.{has, has-put, AllValues-put, keys}
use trelgream_self_userbot.Core.Errors.{Exception}
use trelgream_self_userbot.Core.Exec.{Result, ok, err, pure, modify, ◌>>◌}
use trelgream_self_userbot.Core.Cipher.{Fernet}
use trelgream_self_userbot.Core.Messages.{Raw}
use trelgream_self_userbot.Database.Json.{Fields}
use trelgream_self_userbot.Database.Models.Userbots.{Userbot}
use trelgream_self_userbot.Database.State.{Database}
use trelgream_self_userbot.Userbots.Repository.{list_runnable, get_active_session}
use trelgream_self_userbot.Workers.Manager.State.{Manager, Runtime, connecting, view}
use trelgream_self_userbot.Workers.Manager.Lifecycle.{
  TaskEvent, Waiting, task_step, task_steps, stop_userbot,
}
use trelgream_self_userbot.Workers.Manager.Drain.{process_commands, process_tasks}
use trelgream_self_userbot.Workers.Manager.Sync
use trelgream_self_userbot.Workers.Manager.Round.{Host, Meanwhile, round, heartbeat, closed}
use trelgream_self_userbot.Workers.Manager.Sound.{
  IsSound, IsShort, IsSound-same, IsSound-task_step, IsSound-task_steps,
}
use trelgream_self_userbot.Workers.Manager.Keeps.{
  Keeps, Keeps-bind, Keeps-drain, Keeps-drain_tasks, Keeps-heartbeat, Keeps-if, Keeps-stop_userbot,
}

module _ (registered : List String) (fernet : Fernet) (build : String → Result (Unit {0}))
    (text : Exception → String) where
  IsSound-launched :
      (u : Userbot) (r : Result (List (String × Fields))) (m : Manager)
      → IsSound m
      → IsSound (Sync.launched registered fernet build text u r m)
  IsSound-launched u (err e) m h = IsSound-same m _ refl refl h
  IsSound-launched u (ok modules) m h = record {
    paired = λ uid.
        let runtime : Runtime = record { user_id = u.user_id; modules = modules } in
        ground (
          arith,
          has-put u.id uid runtime m.runtimes,
          has-put u.id uid connecting m.tasks,
          h.paired uid,
        );
    short = AllValues-put IsShort u.id connecting m.tasks tt h.short;
  }

  IsSound-start_userbot :
      (u : Userbot) (m : Manager)
      → IsSound m
      → IsSound (Sync.start_userbot registered fernet build text u m)
  unfolding Sync.start_userbot
  IsSound-start_userbot u m h =
      IsSound-launched u
        (Sync.prepared registered fernet build text u.user_id (view m)
          (get_active_session fernet u.telegram_account_id (view m)).0)
        m h

  module _ (during : ℕ → Waiting) where
    Keeps-stop_unwanted :
        (wanted : ℕ → Bool) (uids : List ℕ)
        → Keeps (Sync.stop_unwanted registered fernet build text during wanted uids)
    unfolding Sync.stop_unwanted
    Keeps-stop_unwanted wanted [] m h = h
    Keeps-stop_unwanted wanted (uid ∷ uids) m h =
        Keeps-bind (if wanted uid then pure tt else stop_userbot (during uid) uid)
          (λ u. Sync.stop_unwanted registered fernet build text during wanted uids)
          (Keeps-if (wanted uid) (pure tt) (stop_userbot (during uid) uid) (λ n s. s)
            (Keeps-stop_userbot (during uid) uid))
          (λ u. Keeps-stop_unwanted wanted uids) m h

    IsSound-start_missing :
        (runnable : List Userbot) (m : Manager)
        → IsSound m
        → IsSound (Sync.start_missing registered fernet build text during runnable m)
    unfolding Sync.start_missing
    IsSound-start_missing [] m h = h
    IsSound-start_missing (u ∷ runnable) m h = elim (Bool-cases (has u.id m.tasks)) [
      | inl e ↦ rw e (IsSound-start_missing runnable m h)
      | inr e ↦ rw e (
          IsSound-start_missing runnable _ (
            IsSound-start_userbot u (task_steps (during u.id).before m)
              (IsSound-task_steps (during u.id).before m h)))
    ]

    Keeps-sync : Keeps (Sync.sync registered fernet build text during)
    unfolding Sync.sync
    Keeps-sync m h =
        let runnable = list_runnable 1000 (view m) in
        let wanted = Sync.is_wanted registered fernet build text during runnable in
        Keeps-bind (Sync.stop_unwanted registered fernet build text during wanted (keys m.tasks))
          (λ u. modify (Sync.start_missing registered fernet build text during runnable))
          (Keeps-stop_unwanted wanted (keys m.tasks)) (λ u. IsSound-start_missing runnable) m h

IsSound-closed : (r : Result (Unit {0})) (m : Manager) → IsSound m → IsSound (closed (r, m))
IsSound-closed (ok u) m h = IsSound-same m _ refl refl h
IsSound-closed (err e) m h = IsSound-same m _ refl refl h

module _ (h : Host) (meanwhile : Meanwhile) (now instant : ℕ) where
  Keeps-round_body : Keeps (do
    heartbeat h.worker_name h.host h.pid instant
    process_commands h.repr h.sign h.parse meanwhile.in_command now
    process_tasks h.repr h.sign h.parse h.dumps
    Sync.sync h.registered h.fernet h.build h.text meanwhile.in_sync)
  unfolding process_commands process_tasks
  Keeps-round_body =
      Keeps-bind (heartbeat h.worker_name h.host h.pid instant) _
        (Keeps-heartbeat h.worker_name h.host h.pid instant)
        (λ u.
          Keeps-bind (process_commands h.repr h.sign h.parse meanwhile.in_command now) _
            (λ m. Keeps-drain h.repr h.sign h.parse meanwhile.in_command now m.commands m)
            (λ v.
              Keeps-bind (process_tasks h.repr h.sign h.parse h.dumps) _
                (λ m. Keeps-drain_tasks h.repr h.sign h.parse h.dumps m.task_queue m)
                (λ w. Keeps-sync h.registered h.fernet h.build h.text meanwhile.in_sync)))

  IsSound-round : (m : Manager) → IsSound m → IsSound (round h meanwhile now instant m)
  unfolding round
  IsSound-round m s = IsSound-closed _ _ (Keeps-round_body m s)

-- One thing that happens: a coroutine goes on, the supervisor makes a round, or other processes send
-- commands and tasks or commit to the database.
pub data Step (h : Host) : Manager → Manager → Type 0 where
  coroutine : {m : Manager} (e : TaskEvent) → Step h m (task_step e m)
  supervisor :
      {m : Manager} (meanwhile : Meanwhile) (now instant : ℕ)
      → Step h m (round h meanwhile now instant m)
  commanded : {m : Manager} (queue : List Raw) → Step h m (record m { commands = queue })
  queued : {m : Manager} (queue : List Raw) → Step h m (record m { task_queue = queue })
  stored : {m : Manager} (db : Database) → Step h m (record m { committed = db })

pub data Reach (h : Host) : Manager → Manager → Type 0 where
  here : {m : Manager} → Reach h m m
  after : {m n o : Manager} → Reach h m n → Step h n o → Reach h m o

IsSound-step : (h : Host) {m n : Manager} → Step h m n → IsSound m → IsSound n
IsSound-step h {m} (coroutine e) s = IsSound-task_step e m s
IsSound-step h {m} (supervisor meanwhile now instant) s = IsSound-round h meanwhile now instant m s
IsSound-step h {m} (commanded queue) s = IsSound-same m _ refl refl s
IsSound-step h {m} (queued queue) s = IsSound-same m _ refl refl s
IsSound-step h {m} (stored db) s = IsSound-same m _ refl refl s

-- Whatever rounds the supervisor makes, failed or not, whatever the coroutines do between the rounds and
-- while a round waits for a userbot, and whatever other processes write, in any order: from a sound
-- manager every state that is reached is sound. A userbot has a runtime exactly if it has a coroutine,
-- and no backoff sleeps for more than 300 seconds.
pub Reach-IsSound : (h : Host) {m n : Manager} → Reach h m n → IsSound m → IsSound n
Reach-IsSound h here s = s
Reach-IsSound h (after r step) s = IsSound-step h step (Reach-IsSound h r s)
