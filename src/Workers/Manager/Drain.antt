-- ===== src/Workers/Manager/Drain.antt =====
-- `_process_commands`, `_process_tasks` and `_execute_task`.
use trelgream_self_userbot.Prelude.{
  ℕ, String, Bool, false, Option, none, some, List, [], ◌∷◌, ◌++◌, ◌==◌, str_eq, if◌then◌else◌,
}
use trelgream_self_userbot.Prelude.Int.{ℤ, pos, negsuc}
use trelgream_self_userbot.Prelude.Text.{Text, codes}
use trelgream_self_userbot.Core.Errors.{value_error, type_error}
use trelgream_self_userbot.Core.Exec.{Result, ok, err, Exec, pure, get, modify, lift, ◌>>=◌, ◌>>◌}
use trelgream_self_userbot.Core.Messages.{Raw, get_or}
use trelgream_self_userbot.Database.Json.{Json, null, bool, int, str, obj, Fields, end, get_field}
use trelgream_self_userbot.Automation.Actions.{truthy}
use trelgream_self_userbot.Workers.Commands
use trelgream_self_userbot.Scheduler.Loop
use trelgream_self_userbot.Workers.Manager.State.{Manager, Runtime}
use trelgream_self_userbot.Workers.Manager.Lifecycle.{Waiting, handle_start, handle_stop}

-- `int(text)`, and `none` for its ValueError
module _ (parse : Text → Option ℤ) where
  abbrev pub parsed : Option ℤ → Result ℤ
  parsed none = err value_error
  parsed (some n) = ok n

  unfoldable pub to_int : Json → Result ℤ
  to_int (int n) = ok n
  to_int (bool b) = ok (pos (if b then 1 else 0))
  to_int (str s) = parsed (parse (codes s))
  to_int _ = err type_error

abbrev pub is_text : String → Json → Bool
is_text s (str t) = str_eq t s
is_text s _ = false

-- no row has a negative key
abbrev pub at_key : (ℕ → Exec Manager (Unit {0})) → ℤ → Exec Manager (Unit {0})
at_key f (pos n) = f n
at_key f (negsuc n) = pure tt

abbrev pub start_at : ℕ → Exec Manager (Unit {0})
start_at target = modify (handle_start target)

-- one command: `w` is what happens while it stops a userbot
unfoldable pub run_action : Waiting → (action : Json) (target : ℤ) → Exec Manager (Unit {0})
unfolding handle_start handle_stop
run_action w action target =
    if is_text "start" action
    then at_key start_at target
    else if is_text "stop" action
    then at_key (handle_stop w) target
    else if is_text "restart" action
    then at_key (handle_stop w) target >> at_key start_at target
    else pure tt

-- `if … is None: break`
abbrev pub or_break : Option Fields → (Fields → Exec Manager (Unit {0})) → Exec Manager (Unit {0})
or_break none f = pure tt
or_break (some body) f = f body

module _ (repr : Json → Text) (sign : Text → String) (parse : Text → Option ℤ) where
  module _ (during : Fields → Waiting) (now : ℕ) where
    unfoldable pub handle_command : Fields → Exec Manager (Unit {0})
    unfolding to_int run_action get_field
    handle_command command = do
      target ← lift (to_int parse (get_or "target_id" (int (pos 0)) command))
      run_action (during command) (get_or "action" null command) target

    -- the loop over the messages in the list; each is taken out before it is looked at
    unfoldable pub drain : List Raw → Exec Manager (Unit {0})
    unfolding handle_command Commands.check
    drain [] = pure tt
    drain (raw ∷ queue) = do
      modify (λ m. record m { commands = queue })
      popped ← lift (Commands.check repr sign now raw)
      or_break popped (λ command. handle_command command >> drain queue)

    unfoldable pub process_commands : Exec Manager (Unit {0})
    unfolding drain
    process_commands m = drain m.commands m

  module _ (dumps : Fields → Text) where
    -- the first runtime of the user, by its userbot
    abbrev pub runtime_of : ℤ → List (ℕ × Runtime) → Option ℕ
    runtime_of user_id [] = none
    runtime_of (negsuc n) (r ∷ runtimes) = none
    runtime_of (pos n) ((i, r) ∷ runtimes) =
        let rest = runtime_of (pos n) runtimes in if r.user_id == n then some i else rest

    -- `task.get("payload") or {}`, of which `.get` is asked
    abbrev pub payload_of : Json → Result Fields
    payload_of (obj fields) = ok fields
    payload_of payload = if truthy payload then err type_error else ok end

    abbrev pub send_message : ℕ → Json → Json → Manager → Manager
    send_message i peer text m =
        if truthy peer
        then record m { sent = m.sent ++ record { userbot_id = i; peer = peer; text = text } ∷ [] }
        else m

    -- `.get` is only asked of the payload of a task that sends
    abbrev pub run_task : (type payload : Json) → Option ℕ → Exec Manager (Unit {0})
    run_task type payload none = pure tt
    run_task type payload (some i) =
        if is_text "send_message" type
        then lift (payload_of payload) >>= (λ fields.
          modify (send_message i (get_or "peer" null fields) (get_or "text" (str "") fields)))
        else pure tt

    unfoldable pub execute_task : Fields → Exec Manager (Unit {0})
    unfolding to_int truthy get_field
    execute_task task = do
      user_id ← lift (to_int parse (get_or "user_id" (int (pos 0)) task))
      m ← get
      run_task (get_or "type" null task) (get_or "payload" null task)
          (runtime_of user_id m.runtimes)

    -- an exception of a task is caught and logged
    abbrev pub caught : Result (Unit {0}) × Manager → Manager
    caught (r, m) = m

    unfoldable pub drain_tasks : List Raw → Exec Manager (Unit {0})
    unfolding execute_task Loop.check
    drain_tasks [] = pure tt
    drain_tasks (raw ∷ queue) = do
      modify (λ m. record m { task_queue = queue })
      popped ← lift (Loop.check dumps sign raw)
      or_break popped (λ task. modify (λ m. caught (execute_task task m)) >> drain_tasks queue)

    unfoldable pub process_tasks : Exec Manager (Unit {0})
    unfolding drain_tasks
    process_tasks m = drain_tasks m.task_queue m
