-- ===== src/Workers/Manager/Round.antt =====
-- `_heartbeat`, and one round of `run`.
use trelgream_self_userbot.Prelude.{
  ℕ, String, Option, none, some, List, [], ◌∷◌, str_eq, length, refl, false,
}
use trelgream_self_userbot.Prelude.Int.{ℤ}
use trelgream_self_userbot.Prelude.Text.{Text}
use trelgream_self_userbot.Core.Errors.{Exception}
use trelgream_self_userbot.Core.Exec.{Result, ok, err, Exec, get, modify, lift, ◌>>=◌, ◌>>◌}
use trelgream_self_userbot.Core.Cipher.{Fernet}
use trelgream_self_userbot.Database.Json.{Json, Fields}
use trelgream_self_userbot.Database.Table.{select, change, insert, one_or_none}
use trelgream_self_userbot.Database.Table.Keyed.{by_id}
use trelgream_self_userbot.Database.Models.Userbots.{Userbot, Worker}
use trelgream_self_userbot.Database.Repository.{Model, change_rows}
use trelgream_self_userbot.Workers.Manager.State.{Manager, Runtime, view}
use trelgream_self_userbot.Workers.Manager.Lifecycle.{Waiting, write, change_userbot}
use trelgream_self_userbot.Workers.Manager.Drain.{process_commands, process_tasks}
use trelgream_self_userbot.Workers.Manager.Sync.{sync}

abbrev pub worker_model : Model Worker
worker_model = record {
  id = λ r. r.id;
  has_tenant = false;
  tenant = λ r. none;
  table = λ db. db.workers;
  with_table = λ t db. record db { workers = t };
  table-with_table = λ t db. refl;
}

abbrev pub alive : (load pid now : ℕ) → Worker → Worker
alive load pid now w = record w {
  status = "RUNNING";
  last_heartbeat_at = some now;
  load = load;
  pid = some pid;
}

abbrev pub new_worker : (name host : String) (load pid now i : ℕ) → Worker
new_worker name host load pid now i = alive load pid now (record {
  id = i;
  name = name;
  host = host;
  pid = some pid;
  status = "RUNNING";
  load = 0;
  capacity = 10;
  started_at = some now;
  last_heartbeat_at = none;
})

abbrev pub beating : (now worker_id : ℕ) → Userbot → Userbot
beating now worker_id u = record u {
  last_heartbeat_at = some now;
  current_worker_id = some worker_id;
}

-- the loop over the runtimes; to change a userbot that is not there changes nothing
abbrev pub beat_each : (now worker_id : ℕ) → List (ℕ × Runtime) → Manager → Manager
beat_each now worker_id [] m = m
beat_each now worker_id ((uid, r) ∷ runtimes) m =
    beat_each now worker_id runtimes (write (change_userbot uid (beating now worker_id)) m)

-- the worker's row, written or made, and its key
abbrev pub upsert : (name host : String) (load pid now : ℕ) → Option Worker → Manager → ℕ × Manager
upsert name host load pid now none m = (
  (view m).workers.next_id,
  write (λ db. record db { workers = insert (new_worker name host load pid now) db.workers }) m,
)
upsert name host load pid now (some w) m =
    (w.id, write (change_rows worker_model (by_id (λ r. r.id) w.id) (alive load pid now)) m)

unfoldable pub heartbeat : (name host : String) (pid now : ℕ) → Exec Manager (Unit {0})
unfolding insert change one_or_none select
heartbeat name host pid now = do
  m ← get
  worker ← lift (one_or_none (select (λ w. str_eq w.name name) (view m).workers.rows))
  modify (λ m.
      let (worker_id, n) = upsert name host (length m.tasks) pid now worker m in
      beat_each now worker_id n.runtimes n)

abbrev pub commit : Manager → Manager
commit m = record m { committed = view m; writes = [] }

abbrev pub rollback : Manager → Manager
rollback m = record m { writes = [] }

abbrev pub closed : Result (Unit {0}) × Manager → Manager
closed (ok u, m) = commit m
closed (err e, m) = rollback m

-- what the process is given
pub record Host : Type 0 where
  pub worker_name : String
  pub host : String
  pub pid : ℕ
  pub registered : List String
  pub fernet : Fernet
  pub repr : Json → Text
  pub dumps : Fields → Text
  pub sign : Text → String
  pub parse : Text → Option ℤ
  pub build : String → Result (Unit {0})
  pub text : Exception → String

-- what happens while the supervisor waits: in a command, and in `_sync`
pub record Meanwhile : Type 0 where
  pub in_command : Fields → Waiting
  pub in_sync : ℕ → Waiting

-- `now` is the time in seconds, and `instant` that of `_now()`. The task queue is there, as
-- `__main__` makes it.
unfoldable pub round : Host → Meanwhile → (now instant : ℕ) → Manager → Manager
unfolding heartbeat process_commands process_tasks sync
round h meanwhile now instant m = closed (
    (do
      heartbeat h.worker_name h.host h.pid instant
      process_commands h.repr h.sign h.parse meanwhile.in_command now
      process_tasks h.repr h.sign h.parse h.dumps
      sync h.registered h.fernet h.build h.text meanwhile.in_sync)
      m)
