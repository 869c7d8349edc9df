-- ===== src/Workers/Manager/State.antt =====
-- What a `WorkerManager` holds, and what its process can see.
use trelgream_self_userbot.Prelude.{ℕ, String, List, [], ◌∷◌}
use trelgream_self_userbot.Core.Messages.{Raw}
use trelgream_self_userbot.Database.Json.{Json, Fields}
use trelgream_self_userbot.Database.State.{Database}

-- where `_run_userbot` stands: before `runtime.start()` has returned, in
-- `run_until_disconnected()`, or in the sleep of the backoff, of so many seconds
pub data Phase : Type 0 where
  connecting : Phase
  online : Phase
  sleeping : ℕ → Phase

-- a call of `runtime.client.send_message`
pub record Sent : Type 0 where
  pub userbot_id : ℕ
  pub peer : Json
  pub text : Json

-- a `UserbotRuntime`: its user, and its module classes, each by its key, with their settings
pub record Runtime : Type 0 where
  pub user_id : ℕ
  pub modules : List (String × Fields)

-- `committed` is what other sessions read, and `writes` are those of the session of the supervisor's
-- round that it has not committed, the earliest first.
pub record Manager : Type 0 where
  pub committed : Database
  pub writes : List (Database → Database)
  pub commands : List Raw
  pub task_queue : List Raw
  pub tasks : List (ℕ × Phase)
  pub runtimes : List (ℕ × Runtime)
  pub retry_counts : List (ℕ × ℕ)
  pub sent : List Sent

abbrev pub apply_all : List (Database → Database) → Database → Database
apply_all [] db = db
apply_all (f ∷ writes) db = apply_all writes (f db)

-- what the session of the round reads
abbrev pub view : Manager → Database
view m = apply_all m.writes m.committed
