-- ===== src/Workers/Manager/Keeps.antt =====
-- What the methods of the supervisor leave sound.
use trelgream_self_userbot.Prelude.{
  ℕ, refl, String, Bool, true, false, Option, none, some, List, [], ◌∷◌, if◌then◌else◌, Bool-cases,
  inl, inr, str_eq, length, is_some,
}
use trelgream_self_userbot.Prelude.Int.{ℤ, pos, negsuc}
use trelgream_self_userbot.Prelude.Text.{Text}
use trelgream_self_userbot.Prelude.Dict.{has, remove}
use trelgream_self_userbot.Core.Exec.{Result, ok, err, Exec, continue, lift, pure, modify, ◌>>=◌}
use trelgream_self_userbot.Core.Messages.{Raw, get_or}
use trelgream_self_userbot.Database.Json.{Json, Fields, str, null, int}
use trelgream_self_userbot.Database.Table.{select, one_or_none}
use trelgream_self_userbot.Database.Models.Userbots.{UserbotStatus, Worker}
use trelgream_self_userbot.Automation.Actions.{truthy}
use trelgream_self_userbot.Workers.Commands
use trelgream_self_userbot.Scheduler.Loop
use trelgream_self_userbot.Workers.Manager.State.{Manager, Runtime, view}
use trelgream_self_userbot.Workers.Manager.Lifecycle.{
  Waiting, stop_userbot, disconnect_client, end_task, mark_stopped, handle_start, handle_stop,
  find_userbot, write, change_userbot, with_status,
}
use trelgream_self_userbot.Workers.Manager.Drain
use trelgream_self_userbot.Workers.Manager.Round
use trelgream_self_userbot.Workers.Manager.Sound.{
  IsSound, IsSound-same, IsSound-task_steps, IsSound-finished,
}

-- a computation that leaves a sound manager, whether it returns or raises
abbrev pub Keeps : {A : Type 0} → Exec Manager A → Type 0
Keeps x = (m : Manager) → IsSound m → IsSound (x m).1

Keeps-continue :
    {A B : Type 0} (r : Result A) (f : A → Exec Manager B)
    → ((a : A) → Keeps (f a))
    → Keeps (continue r f)
Keeps-continue (ok a) f k m h = k a m h
Keeps-continue (err e) f k m h = h

pub Keeps-bind :
    {A B : Type 0} (x : Exec Manager A) (f : A → Exec Manager B)
    → Keeps x
    → ((a : A) → Keeps (f a))
    → Keeps (x >>= f)
Keeps-bind x f j k m h = Keeps-continue (x m).0 f k (x m).1 (j m h)

pub Keeps-if :
    {A : Type 0} (b : Bool) (x y : Exec Manager A) → Keeps x → Keeps y → Keeps (if b then x else y)
Keeps-if true x y h k = h
Keeps-if false x y h k = k

pub Keeps-stop_userbot : (w : Waiting) (uid : ℕ) → Keeps (stop_userbot w uid)
unfolding stop_userbot
Keeps-stop_userbot w uid m h =
    Keeps-bind (if has uid m.runtimes then disconnect_client w else pure tt) _
      (Keeps-if (has uid m.runtimes) (disconnect_client w) (pure tt) (IsSound-task_steps w.before)
        (λ n s. s))
      (λ u.
        Keeps-if (has uid m.tasks) (modify (end_task w uid)) (pure tt)
          (λ n s. IsSound-finished uid _ (IsSound-task_steps w.after n s)) (λ n s. s))
      m h

abbrev marked : ℕ → UserbotStatus → Manager → Manager
marked i status m = write (change_userbot i (with_status status)) m

abbrev popped : ℕ → Manager → Manager
popped i m = record m { retry_counts = remove i m.retry_counts }

IsSound-handle_start : (i : ℕ) (m : Manager) → IsSound m → IsSound (handle_start i m)
unfolding handle_start
IsSound-handle_start i m h = elim (Bool-cases (is_some (find_userbot i (view m)))) [
  | inl e ↦ rw e (IsSound-same m (marked i UserbotStatus.starting (popped i m)) refl refl h)
  | inr e ↦ rw e h
]

IsSound-mark_stopped : (i : ℕ) (m : Manager) → IsSound m → IsSound (mark_stopped i m)
IsSound-mark_stopped i m h = elim (Bool-cases (is_some (find_userbot i (view m)))) [
  | inl e ↦ rw e (IsSound-same m (marked i UserbotStatus.stopped m) refl refl h)
  | inr e ↦ rw e h
]

Keeps-handle_stop : (w : Waiting) (i : ℕ) → Keeps (handle_stop w i)
unfolding handle_stop
Keeps-handle_stop w i =
    Keeps-bind (modify (mark_stopped i)) (λ u. stop_userbot w i) (IsSound-mark_stopped i)
      (λ u. Keeps-stop_userbot w i)

Keeps-at_key :
    (f : ℕ → Exec Manager (Unit {0})) (target : ℤ)
    → ((i : ℕ) → Keeps (f i))
    → Keeps (Drain.at_key f target)
Keeps-at_key f (pos n) k m h = k n m h
Keeps-at_key f (negsuc n) k m h = h

Keeps-run_action :
    (w : Waiting) (action : Json) (target : ℤ) → Keeps (Drain.run_action w action target)
unfolding Drain.run_action
Keeps-run_action w action target =
    let started = Keeps-at_key Drain.start_at target IsSound-handle_start in
    let stopped = Keeps-at_key (handle_stop w) target (Keeps-handle_stop w) in
    Keeps-if (Drain.is_text "start" action) _ _ started (
      Keeps-if (Drain.is_text "stop" action) _ _ stopped (
        Keeps-if (Drain.is_text "restart" action) _ (pure tt)
          (Keeps-bind (Drain.at_key (handle_stop w) target)
            (λ u. Drain.at_key Drain.start_at target) stopped (λ u. started))
          (λ m h. h)))

Keeps-lift :
    {A B : Type 0} (r : Result A) (f : A → Exec Manager B)
    → ((a : A) → Keeps (f a))
    → Keeps (lift r >>= f)
Keeps-lift r f k m h = Keeps-continue r f k m h

Keeps-or_break :
    (o : Option Fields) (f : Fields → Exec Manager (Unit {0}))
    → ((body : Fields) → Keeps (f body))
    → Keeps (Drain.or_break o f)
Keeps-or_break none f k m h = h
Keeps-or_break (some body) f k m h = k body m h

module _ (repr : Json → Text) (sign : Text → String) (parse : Text → Option ℤ) where
  module _ (during : Fields → Waiting) (now : ℕ) where
    Keeps-handle_command :
        (command : Fields) → Keeps (Drain.handle_command repr sign parse during now command)
    unfolding Drain.handle_command
    Keeps-handle_command command =
        Keeps-lift (Drain.to_int parse (get_or "target_id" (int (pos 0)) command)) _
          (λ target. Keeps-run_action (during command) (get_or "action" null command) target)

    pub Keeps-drain : (queue : List Raw) → Keeps (Drain.drain repr sign parse during now queue)
    unfolding Drain.drain
    Keeps-drain [] m h = h
    Keeps-drain (raw ∷ queue) m h =
        Keeps-lift (Commands.check repr sign now raw) _
          (λ o. Keeps-or_break o _ (λ command.
            Keeps-bind (Drain.handle_command repr sign parse during now command) _
              (Keeps-handle_command command) (λ u. Keeps-drain queue)))
          (record m { commands = queue }) (IsSound-same m _ refl refl h)

  module _ (dumps : Fields → Text) where
    Keeps-send :
        (i : ℕ) (peer text : Json) (m : Manager)
        → IsSound m
        → IsSound (Drain.send_message repr sign parse dumps i peer text m)
    unfolding truthy
    Keeps-send i peer text m h = elim (Bool-cases (truthy peer)) [
      | inl e ↦ rw e (IsSound-same m _ refl refl h)
      | inr e ↦ rw e h
    ]

    Keeps-run_task :
        (type payload : Json) (o : Option ℕ)
        → Keeps (Drain.run_task repr sign parse dumps type payload o)
    Keeps-run_task type payload none m h = h
    Keeps-run_task type payload (some i) m h =
        elim (Bool-cases (Drain.is_text "send_message" type)) [
          | inl e ↦ rw e (
              Keeps-lift (Drain.payload_of repr sign parse dumps payload) _
                (λ fields n k.
                  Keeps-send i (get_or "peer" null fields) (get_or "text" (str "") fields) n k)
                m h)
          | inr e ↦ rw e h
        ]

    Keeps-execute_task : (task : Fields) → Keeps (Drain.execute_task repr sign parse dumps task)
    unfolding Drain.execute_task
    Keeps-execute_task task =
        Keeps-lift (Drain.to_int parse (get_or "user_id" (int (pos 0)) task)) _ (λ user_id m h.
          Keeps-run_task (get_or "type" null task) (get_or "payload" null task) _ m h)

    pub Keeps-drain_tasks :
        (queue : List Raw) → Keeps (Drain.drain_tasks repr sign parse dumps queue)
    unfolding Drain.drain_tasks
    Keeps-drain_tasks [] m h = h
    Keeps-drain_tasks (raw ∷ queue) m h =
        Keeps-lift (Loop.check dumps sign raw) _
          (λ o.
            Keeps-or_break o _
              (λ task n k. Keeps-drain_tasks queue _ (Keeps-execute_task task n k)))
          (record m { task_queue = queue }) (IsSound-same m _ refl refl h)

module _ (name host : String) (pid now : ℕ) where
  IsSound-beat_each :
      (worker_id : ℕ) (runtimes : List (ℕ × Runtime)) (m : Manager)
      → IsSound m
      → IsSound (Round.beat_each now worker_id runtimes m)
  IsSound-beat_each worker_id [] m h = h
  IsSound-beat_each worker_id ((uid, r) ∷ runtimes) m h =
      IsSound-beat_each worker_id runtimes _ (IsSound-same m _ refl refl h)

  IsSound-upsert :
      (load : ℕ) (o : Option Worker) (m : Manager)
      → IsSound m
      → IsSound (Round.upsert name host load pid now o m).1
  IsSound-upsert load none m h = IsSound-same m _ refl refl h
  IsSound-upsert load (some w) m h = IsSound-same m _ refl refl h

  pub Keeps-heartbeat : Keeps (Round.heartbeat name host pid now)
  unfolding Round.heartbeat
  Keeps-heartbeat m h =
      Keeps-lift (one_or_none (select (λ w. str_eq w.name name) (view m).workers.rows)) _
        (λ o n k.
          let w = Round.upsert name host (length n.tasks) pid now o n in
          IsSound-beat_each w.0 w.1.runtimes w.1 (IsSound-upsert (length n.tasks) o n k))
        m h
