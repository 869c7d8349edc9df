-- ===== src/Workers/Manager/Samples.antt =====
-- A supervisor with a userbot that runs, and one that is to be started.
use trelgream_self_userbot.Prelude.{
  ℕ, ◌+◌, ◌≡◌, refl, inr, String, true, false, ◌⊎◌, Option, none, some, [], ◌∷◌, ◌==◌, str_eq,
  if◌then◌else◌,
}
use trelgream_self_userbot.Prelude.Int.{pos}
use trelgream_self_userbot.Prelude.Text.{codes}
use trelgream_self_userbot.Prelude.Dict.{lookup, has}
use trelgream_self_userbot.Core.Errors.{type_error}
use trelgream_self_userbot.Core.Exec.{Result, ok, err}
use trelgream_self_userbot.Core.Messages.{other, malformed, get_or}
use trelgream_self_userbot.Database.Json.{int, null, get_field}
use trelgream_self_userbot.Database.Models.Userbots.{Userbot, UserbotStatus, TelegramSession}
use trelgream_self_userbot.Database.State.{Database}
use trelgream_self_userbot.Database.Empty.{empty_database}
use trelgream_self_userbot.Database.Table.{select, one_or_none}
use trelgream_self_userbot.Userbots.Repository.{list_runnable}
use trelgream_self_userbot.Workers.Samples.{repr, toy_sign, start, signed_start, start_checked}
use trelgream_self_userbot.Workers.Commands
use trelgream_self_userbot.Workers.Manager.State.{view, Manager, online, sleeping}
use trelgream_self_userbot.Workers.Manager.Lifecycle
use trelgream_self_userbot.Workers.Manager.Drain
use trelgream_self_userbot.Workers.Manager.Sync
use trelgream_self_userbot.Workers.Manager.Round.{Host, Meanwhile, round}
use trelgream_self_userbot.Workers.Manager.Sound.{IsSound}
use trelgream_self_userbot.Workers.Manager.Reach.{here, after, coroutine, supervisor, Reach-IsSound}
use trelgream_self_userbot.Workers.Manager.Wanted.{sync-is_wanted}
use trelgream_self_userbot.Workers.Manager.Backoff.{crashed_lem, retries}
use trelgream_self_userbot.Workers.Manager.Discards.{round-discards}

abbrev unmark : String → Option String
unmark String.[] = none
unmark (String.◌∷◌ c s) = some s

abbrev host : Host
host = record {
  worker_name = "w";
  host = "h";
  pid = 9;
  registered = [];
  fernet = record { to_token = λ s. String.◌∷◌ "g" s; of_token = unmark };
  repr = repr;
  dumps = λ f. codes "{}";
  sign = toy_sign;
  parse = λ t. none;
  build = λ s. ok tt;
  text = λ e. "error";
}

abbrev quiet : Lifecycle.Waiting
quiet = record { before = []; disconnect = ok tt; after = [] }

abbrev meanwhile : Meanwhile
meanwhile = record { in_command = λ f. quiet; in_sync = λ i. quiet }

abbrev userbot : Userbot
userbot = record {
  id = 4;
  user_id = 7;
  telegram_account_id = 1;
  name = none;
  status = UserbotStatus.starting;
  current_worker_id = none;
  last_heartbeat_at = none;
  error_message = none;
}

abbrev session : TelegramSession
session = record {
  id = 1;
  telegram_account_id = 1;
  encrypted_session = "gold";
  is_active = true;
  revoked_at = none;
  device_model = none;
  device_app = none;
  ip_hint = none;
}

abbrev database : Database
database = record empty_database {
  userbots = record { rows = userbot ∷ []; next_id = 5 };
  sessions = record { rows = session ∷ []; next_id = 2 };
}

abbrev idle : Manager
idle = record {
  committed = database;
  writes = [];
  commands = [];
  task_queue = [];
  tasks = [];
  runtimes = [];
  retry_counts = [];
  sent = [];
}

idle-IsSound : IsSound idle
unfolding has
idle-IsSound = record { paired = λ uid. refl; short = tt }

-- the userbot is started, connects and crashes
abbrev crashed_after : Manager
crashed_after =
    Lifecycle.task_step (Lifecycle.crashed 4 "gone" 60)
      (Lifecycle.task_step (Lifecycle.started 4 50) (round host meanwhile 40 40 idle))

Reach-IsSound_example : IsSound crashed_after
Reach-IsSound_example =
    Reach-IsSound host
      (after (after (after here (supervisor meanwhile 40 40)) (coroutine (Lifecycle.started 4 50)))
        (coroutine (Lifecycle.crashed 4 "gone" 60)))
      idle-IsSound

crashed_phase : lookup 4 crashed_after.tasks ≡ some (sleeping 2)
unfolding lookup round Lifecycle.task_step
crashed_phase = refl

abbrev synced : Result (Unit {0}) × Manager
synced = Sync.sync host.registered host.fernet host.build host.text meanwhile.in_sync idle

started_there : has 4 synced.1.tasks ≡ true
unfolding has Sync.sync
started_there = refl

-- a userbot that should not run is stopped
abbrev unwanted : Manager
unwanted = record idle {
  committed = empty_database;
  tasks = (4, online) ∷ [];
  runtimes = (4, record { user_id = 7; modules = [] }) ∷ [];
}

sync-is_wanted_example :
    let r = Sync.sync host.registered host.fernet host.build host.text meanwhile.in_sync unwanted in
    (r.0 ≡ ok tt)
    × ((has 4 r.1.tasks ≡ false)
        ⊎ (Sync.is_wanted host.registered host.fernet host.build host.text meanwhile.in_sync
              (list_runnable 1000 (view unwanted))
              4
            ≡ true))
sync-is_wanted_example =
    sync-is_wanted host.registered host.fernet host.build host.text meanwhile.in_sync (λ i. refl)
      unwanted 4

stopped_there :
    (Sync.sync host.registered host.fernet host.build host.text meanwhile.in_sync unwanted).1.tasks
    ≡ []
unfolding has Sync.sync select list_runnable
stopped_there = refl

-- a client that does not disconnect ends the round, and the userbot stays
abbrev stuck : ℕ → Lifecycle.Waiting
stuck i = record { before = []; disconnect = err type_error; after = [] }

still_there :
    let r = Sync.sync host.registered host.fernet host.build host.text stuck unwanted in
    (r.0 ≡ err type_error) × (r.1.tasks ≡ (4, online) ∷ [])
unfolding has Sync.sync select list_runnable
still_there = (refl, refl)

-- a userbot that was online, after two errors in a row
abbrev shaky : Manager
shaky = record idle { tasks = (4, online) ∷ []; retry_counts = (4, 2) ∷ [] }

shaky_online : lookup 4 shaky.tasks ≡ some online
unfolding lookup
shaky_online = refl

third : retries 4 shaky + 1 ≡ 3
unfolding lookup
third = refl

crashed_lem_example :
    (retries 4 (Lifecycle.task_step (Lifecycle.crashed 4 "gone" 60) shaky) ≡ 3)
    × ((j : ℕ)
        → lookup j (Lifecycle.task_step (Lifecycle.crashed 4 "gone" 60) shaky).tasks
          ≡ (if 4 == j then some (sleeping 8) else lookup j shaky.tasks))
crashed_lem_example = crashed_lem 4 60 "gone" shaky (inr shaky_online) 3 third

-- a command to start a userbot, JSON that is no object, and one message more
abbrev commanded_manager : Manager
commanded_manager = record idle { commands = signed_start ∷ other ∷ malformed ∷ [] }

no_worker :
    one_or_none (select (λ w. str_eq w.name host.worker_name) (view commanded_manager).workers.rows)
    ≡ ok none
unfolding one_or_none select
no_worker = refl

other_raises : Commands.check host.repr host.sign 1100 other ≡ err type_error
unfolding Commands.check
other_raises = refl

start_target : Drain.to_int host.parse (get_or "target_id" (int (pos 0)) start) ≡ ok (pos 5)
unfolding Drain.to_int get_field
start_target = refl

start_action : Drain.is_text "start" (get_or "action" null start) ≡ true
unfolding get_field
start_action = refl

round-discards_example :
    let n = round host meanwhile 1100 1100 commanded_manager in
    (n.commands ≡ malformed ∷ []) × (n.committed ≡ database) × (n.writes ≡ [])
round-discards_example =
    round-discards host meanwhile 1100 1100 commanded_manager none no_worker (signed_start ∷ [])
      other type_error (malformed ∷ []) refl
      ((start, pos 5, start_checked, start_target, start_action), tt) other_raises
