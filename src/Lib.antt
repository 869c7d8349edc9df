-- ===== src/Lib.antt =====
-- A model of the Trelgream self-userbot platform, in which users buy a subscription, link a Telegram
-- account and let a userbot act for them, with modules, automation rules and scheduled tasks.
--
-- The services of app/ are methods over one database session. A method is modelled as a function
-- from the state to a result or an exception and the state after it (Core/Exec): what was written
-- before an exception stays in the session until its owner commits or rolls back, and a loop that
-- owns a session is modelled with its commit and its rollback. The state is Database/State, a record
-- of tables; a table (Database/Table) is the list of its rows in the order of insertion, with the
-- next value of its key. Queries filter, order and cut that list, and an assignment to a loaded row
-- is a change of the row under its key.
--
-- The parts, and the files that model them:
--
--   Prelude          Boolean tests, lists, integers and texts, shared by all files
--   Core/Errors      app/core/exceptions.py
--   Core/Exec        results, and methods that read and write a state and may raise
--   Core/Time        instants and durations of datetime, in microseconds
--   Core/Signer      CommandSigner, and Core/Cipher SessionCipher, of app/core/security.py
--   Core/Messages    the messages in the Redis lists
--   Core/Redis       RateLimiter and AuthStateStore of app/core/redis.py, over an interface to Redis
--   Core/Logging     the redaction of app/core/logging.py
--   Database         app/database: the rows (Models), the tables (Table), BaseRepository with its
--                    tenant isolation (Repository, Tenancy), the values of JSON columns (Json),
--                    and seed.py (Seed)
--   Security         app/security/audit.py
--   Billing          app/billing: repositories.py (Repositories) and service.py (Service); the
--                    other files of the folder hold the theorems, one topic each
--   Userbots         app/userbots: repository.py and service.py (Repository, Service)
--                    and runtime.py (Runtime: the panel; Runtime/Handlers: start)
--   Users            app/users: repository.py and service.py
--   Auth             app/auth: permissions.py and rbac.py
--   Modules          app/modules: manager.py (Manager) and registry.py (Registry)
--   Automation       app/automation: conditions.py, actions.py, repository.py and service.py
--   Scheduler        app/scheduler: next_run_after (Rules), service.py and repository.py (Service),
--                    queue.py and loop.py (Loop)
--   Telegram         app/telegram: auth_service.py (Auth) and parse_proxy (ClientFactory)
--   Bot              app/bot/state.py (State)
--   Workers          app/workers: commands.py (Commands) and manager.py (Manager)
--
-- They meet in the database and in two Redis lists. A purchase (Billing) makes a pending
-- subscription and a pending payment; the review of the payment activates or cancels the
-- subscription and sets the status of the user's userbots, which the scheduler's tick suspends when
-- the subscription expires. Modules reads the active subscription for the limit of the plan.
-- Userbots stores the session of a linked account and puts signed commands into the list that
-- Workers reads; the tick puts signed tasks into another list. Automation runs the rules of a user
-- on an event and yields the calls that are made on the Telegram client. The supervisor
-- (Workers/Manager) takes the commands and the tasks out of the lists and starts, watches and stops
-- the coroutine of each userbot. The sign-in (Telegram) keeps its state in Redis between its steps.
--
-- Concurrency. The supervisor and the coroutines of the userbots share one thread of asyncio. The
-- coroutine of a userbot, `_run_userbot`, is a phase, and what lets it go on is a TaskEvent; such
-- an event is a step of its own, and it may also come while the supervisor waits for a userbot, in
-- `_stop_userbot` and before a start: the events of those times are arguments of the round, and so
-- is whether `disconnect()` of a client returns. The writes of the round's session are kept apart
-- from the committed database until the commit, since the coroutines, and other processes, commit
-- in between. Workers/Manager/Reach puts rounds, events and the writes of other processes in any
-- order. Everything else is about one method at a time.
--
-- Parameters. HMAC, Fernet, json.dumps, the printing of lists and dictionaries, Python's int() of a
-- text, regular expressions, str.lower and the operators of Python on the values of a context are
-- arguments of the definitions that use them, and so are the readings of the clock and the
-- identifiers that are drawn at random. Redis (Core/Redis) and the Telethon client (Telegram/Auth)
-- are records of operations; what Redis does for a key, seconds that pass included, is stated as
-- laws of those. Where a theorem relies on what such code does, it says so in a hypothesis.
--
-- Bounds. Every loop of the modelled code runs over a list and is structural recursion. The only
-- fuel is that of the decimal printing in Prelude/Text, one more than the number, which has no more
-- digits than that. The backoff of the supervisor is at most 300 seconds by its own definition.
-- Keys and sums are natural numbers without an upper bound; instants have the bound of datetime,
-- and adding a duration beyond it raises OverflowError as in Python.
--
-- Not modelled: texts shown to people; foreign keys, cascades, timestamp columns and the unique
-- constraints other than that of a payment's reference; concurrent sessions other than those of the
-- supervisor; the endless loops around the scheduler's tick and the supervisor's round; the events
-- that come while the supervisor waits for the database; the handlers of the Telegram bot, the
-- built-in modules, the web interface, and the construction of Telethon clients.
pub mod Prelude
pub mod Core
pub mod Database
pub mod Security
pub mod Userbots
pub mod Users
pub mod Telegram
pub mod Auth
pub mod Billing
pub mod Automation
pub mod Workers
pub mod Scheduler
pub mod Modules
pub mod Bot
