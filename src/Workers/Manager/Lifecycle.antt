-- ===== src/Workers/Manager/Lifecycle.antt =====
-- `_set_status`, `_run_userbot`, `_stop_userbot`, `_handle_start` and `_handle_stop`.
use trelgream_self_userbot.Prelude.{
  ℕ, ◌+◌, ◌^◌, String, Bool, Option, none, some, List, [], ◌∷◌, ◌++◌, ltb, is_some, or_else,
  if◌then◌else◌,
}
use trelgream_self_userbot.Prelude.Text.{prefix}
use trelgream_self_userbot.Prelude.Dict.{lookup, has, put, remove}
use trelgream_self_userbot.Core.Exec.{Result, Exec, pure, get, modify, lift, ◌>>=◌, ◌>>◌}
use trelgream_self_userbot.Database.Table.{change, find}
use trelgream_self_userbot.Database.Table.Keyed.{by_id}
use trelgream_self_userbot.Database.Models.Userbots.{Userbot, UserbotStatus, same_status}
use trelgream_self_userbot.Database.State.{Database}
use trelgream_self_userbot.Database.Repository.{change_rows}
use trelgream_self_userbot.Userbots.Model.{userbot_model}
use trelgream_self_userbot.Workers.Manager.State.{
  Phase, connecting, online, sleeping, Manager, view,
}

abbrev pub find_userbot : ℕ → Database → Option Userbot
find_userbot i db = find (by_id (λ u. u.id) i) db.userbots.rows

-- an assignment to the attributes of the userbot with the key
abbrev pub change_userbot : ℕ → (Userbot → Userbot) → Database → Database
change_userbot i f = change_rows userbot_model (by_id (λ u. u.id) i) f

abbrev pub is_running : UserbotStatus → Bool
is_running status = same_status status UserbotStatus.running

-- the assignments of `_set_status`
abbrev pub with_state : UserbotStatus → (error : Option String) → (now : ℕ) → Userbot → Userbot
with_state status error now u = record u {
  status = status;
  error_message = elim error [ none ↦ u.error_message | some e ↦ some e ];
  last_heartbeat_at = if is_running status then some now else u.last_heartbeat_at;
}

-- A session of its own, which commits at once. The retry count is only reset if the row is there.
unfoldable pub set_status :
    (userbot_id : ℕ) → UserbotStatus → (error : Option String) → (now : ℕ) → Manager → Manager
unfolding find change put
set_status userbot_id status error now m =
    if is_some (find_userbot userbot_id m.committed)
    then record m {
      committed = change_userbot userbot_id (with_state status error now) m.committed;
      retry_counts = if is_running status then put userbot_id 0 m.retry_counts else m.retry_counts;
    }
    else m

abbrev pub min : ℕ → ℕ → ℕ
min a b = if ltb b a then b else a

-- `min(2 ** n, 300)`
unfoldable pub backoff : ℕ → ℕ
backoff n = min (2 ^ n) 300

-- the `finally` of `_run_userbot`
abbrev pub finished : ℕ → Manager → Manager
finished userbot_id m = record m {
  tasks = remove userbot_id m.tasks;
  runtimes = remove userbot_id m.runtimes;
}

abbrev pub in_phase : ℕ → Phase → Manager → Manager
in_phase userbot_id phase m = record m { tasks = put userbot_id phase m.tasks }

-- What lets the coroutine of a userbot go on: `runtime.start()` returned, the client has disconnected,
-- one of them raised an exception with a text, or the sleep is over. The time is that of `_now()`.
pub data TaskEvent : Type 0 where
  started : (userbot_id now : ℕ) → TaskEvent
  disconnected : (userbot_id now : ℕ) → TaskEvent
  crashed : (userbot_id : ℕ) (message : String) (now : ℕ) → TaskEvent
  woken : (userbot_id now : ℕ) → TaskEvent

abbrev pub on_started : Option Phase → (userbot_id now : ℕ) → Manager → Manager
on_started (some connecting) i now m =
    in_phase i online (set_status i UserbotStatus.running none now m)
on_started _ i now m = m

abbrev pub on_disconnected : Option Phase → (userbot_id now : ℕ) → Manager → Manager
on_disconnected (some online) i now m = finished i (set_status i UserbotStatus.stopped none now m)
on_disconnected _ i now m = m

-- `self.retry_counts[id] = self.retry_counts.get(id, 0) + 1`
abbrev pub counted : ℕ → Manager → Manager
counted i m = record m {
  retry_counts = put i (or_else (lookup i m.retry_counts) 0 + 1) m.retry_counts;
}

abbrev pub delay_of : ℕ → Manager → ℕ
delay_of i m = backoff (or_else (lookup i m.retry_counts) 0)

-- the `except` of `_run_userbot`, up to its sleep
unfoldable pub crash : (userbot_id : ℕ) (message : String) (now : ℕ) → Manager → Manager
unfolding set_status prefix backoff lookup
crash i message now m =
    let n = counted i (set_status i UserbotStatus.error (some (prefix 500 message)) now m) in
    in_phase i (sleeping (delay_of i n)) n

abbrev pub on_crashed :
    Option Phase → (userbot_id : ℕ) (message : String) (now : ℕ) → Manager → Manager
on_crashed (some connecting) i message now m = crash i message now m
on_crashed (some online) i message now m = crash i message now m
on_crashed _ i message now m = m

abbrev pub on_woken : Option Phase → (userbot_id now : ℕ) → Manager → Manager
on_woken (some (sleeping delay)) i now m =
    finished i (set_status i UserbotStatus.recovering none now m)
on_woken _ i now m = m

-- An event that does not fit the phase of the coroutine does not occur, and changes nothing.
unfoldable pub task_step : TaskEvent → Manager → Manager
unfolding set_status crash lookup put remove
task_step (started i now) m = on_started (lookup i m.tasks) i now m
task_step (disconnected i now) m = on_disconnected (lookup i m.tasks) i now m
task_step (crashed i message now) m = on_crashed (lookup i m.tasks) i message now m
task_step (woken i now) m = on_woken (lookup i m.tasks) i now m

unfoldable pub task_steps : List TaskEvent → Manager → Manager
unfolding task_step
task_steps [] m = m
task_steps (e ∷ events) m = task_steps events (task_step e m)

-- What happens while the round waits for a userbot: what the coroutines do before `disconnect()` of its
-- client ends, how it ends, and what the coroutines do while that of the userbot is awaited.
pub record Waiting : Type 0 where
  pub before : List TaskEvent
  pub disconnect : Result (Unit {0})
  pub after : List TaskEvent

abbrev pub disconnect_client : Waiting → Exec Manager (Unit {0})
disconnect_client w = modify (task_steps w.before) >> lift w.disconnect

-- The wait takes at most 10 seconds. Then the coroutine is cancelled, if it has not ended: its exception
-- is no `Exception`, so only its `finally` runs.
abbrev pub end_task : Waiting → (uid : ℕ) → Manager → Manager
end_task w uid m = finished uid (task_steps w.after m)

-- The runtime and the coroutine are looked up first. An exception of `disconnect()` is not caught.
unfoldable pub stop_userbot : Waiting → (uid : ℕ) → Exec Manager (Unit {0})
unfolding task_steps has remove
stop_userbot w uid = do
  m ← get
  if has uid m.runtimes then disconnect_client w else pure tt
  if has uid m.tasks then modify (end_task w uid) else pure tt

-- an assignment in the session of the round
abbrev pub write : (Database → Database) → Manager → Manager
write f m = record m { writes = m.writes ++ f ∷ [] }

abbrev pub with_status : UserbotStatus → Userbot → Userbot
with_status status u = record u { status = status }

unfoldable pub handle_start : ℕ → Manager → Manager
unfolding find change remove
handle_start target m =
    if is_some (find_userbot target (view m))
    then write (change_userbot target (with_status UserbotStatus.starting))
        (record m { retry_counts = remove target m.retry_counts })
    else m

abbrev pub mark_stopped : ℕ → Manager → Manager
mark_stopped target m =
    if is_some (find_userbot target (view m))
    then write (change_userbot target (with_status UserbotStatus.stopped)) m
    else m

unfoldable pub handle_stop : Waiting → (target : ℕ) → Exec Manager (Unit {0})
unfolding find change stop_userbot
handle_stop w target = modify (mark_stopped target) >> stop_userbot w target
