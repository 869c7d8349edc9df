-- ===== src/Workers/Manager/Sync.antt =====
-- `_sync`, `_start_userbot` and `_load_modules`.
use trelgream_self_userbot.Prelude.{
  ℕ, String, Bool, false, Option, none, some, List, [], ◌∷◌, any, ◌==◌, str_eq, if◌then◌else◌,
}
use trelgream_self_userbot.Prelude.Text.{prefix}
use trelgream_self_userbot.Prelude.Dict.{has, put, keys}
use trelgream_self_userbot.Core.Errors.{Exception, type_error}
use trelgream_self_userbot.Core.Exec.{Result, ok, err, Exec, pure, modify, ◌>>◌}
use trelgream_self_userbot.Core.Cipher.{Fernet}
use trelgream_self_userbot.Database.Json.{Fields, end, set_field}
use trelgream_self_userbot.Database.Table.{select, find, change}
use trelgream_self_userbot.Database.Table.Keyed.{by_id}
use trelgream_self_userbot.Database.Models.Userbots.{Userbot, UserbotStatus}
use trelgream_self_userbot.Database.Models.Modules.{Module, UserModule}
use trelgream_self_userbot.Database.State.{Database}
use trelgream_self_userbot.Modules.Manager.{collect, is_enabled_for}
use trelgream_self_userbot.Userbots.Repository.{list_runnable, get_active_session}
use trelgream_self_userbot.Workers.Manager.State.{Manager, connecting, view}
use trelgream_self_userbot.Workers.Manager.Lifecycle.{
  Waiting, task_steps, stop_userbot, write, change_userbot,
}

-- `registered` are the keys of the registry
module _ (registered : List String) where
  abbrev pub is_registered : String → Bool
  is_registered key = any (λ k. str_eq k key) registered

  abbrev settings_of : ℕ → Database → Fields
  settings_of um_id db =
      collect (select (λ s. s.user_module_id == um_id) db.module_settings.rows) end

  -- a user module, put before those after it; its `module` is never missing
  abbrev pub with_module :
      UserModule
      → Database
      → Option Module
      → Result (List (String × Fields))
      → Result (List (String × Fields))
  with_module um db none rest = err type_error
  with_module um db (some row) (err e) = err e
  with_module um db (some row) (ok rest) =
      ok (if is_registered row.key then (row.key, settings_of um.id db) ∷ rest else rest)

  unfoldable pub load_each : Database → List UserModule → Result (List (String × Fields))
  unfolding find select set_field
  load_each db [] = ok []
  load_each db (um ∷ rows) =
      with_module um db (find (by_id (λ r. r.id) um.module_id) db.modules.rows) (load_each db rows)

  unfoldable pub load_modules : (user_id : ℕ) → Database → Result (List (String × Fields))
  unfolding load_each
  load_modules user_id db = load_each db (select (is_enabled_for user_id) db.user_modules.rows)

  -- `build` is `build_user_client`, which refuses what is no session, and `text` is `str` of an
  -- exception
  module _ (fernet : Fernet) (build : String → Result (Unit {0})) (text : Exception → String) where
    abbrev pub built :
        Result (List (String × Fields)) → Result (Unit {0}) → Result (List (String × Fields))
    built (ok modules) (ok u) = ok modules
    built (ok modules) (err e) = err e
    built (err e) r = err e

    abbrev pub prepared : (user_id : ℕ) → Database → Result String → Result (List (String × Fields))
    prepared user_id db (err e) = err e
    prepared user_id db (ok session) = built (load_modules user_id db) (build session)

    abbrev pub starting : Userbot → Userbot
    starting u = record u {
      status = UserbotStatus.starting;
      current_worker_id = none;
      error_message = none;
    }

    abbrev pub failed : Exception → Userbot → Userbot
    failed e u = record u {
      status = UserbotStatus.error;
      error_message = some (prefix 500 (text e));
    }

    abbrev pub launched : Userbot → Result (List (String × Fields)) → Manager → Manager
    launched u (ok modules) m = write (change_userbot u.id starting) (record m {
      runtimes = put u.id (record { user_id = u.user_id; modules = modules }) m.runtimes;
      tasks = put u.id connecting m.tasks;
    })
    launched u (err e) m = write (change_userbot u.id (failed e)) m

    unfoldable pub start_userbot : Userbot → Manager → Manager
    unfolding get_active_session load_modules prefix put change
    start_userbot u m =
        launched u
          (prepared u.user_id (view m) (get_active_session fernet u.telegram_account_id (view m)).0)
          m

    -- `during` is what happens while the round waits for a userbot: while it stops one, and, with
    -- `before` alone, before it starts one
    module _ (during : ℕ → Waiting) where
      unfoldable pub stop_unwanted : (wanted : ℕ → Bool) (uids : List ℕ) → Exec Manager (Unit {0})
      unfolding stop_userbot
      stop_unwanted wanted [] = pure tt
      stop_unwanted wanted (uid ∷ uids) =
          (if wanted uid then pure tt else stop_userbot (during uid) uid)
          >> stop_unwanted wanted uids

      -- the loop of `shutdown`
      unfoldable pub shutdown : Exec Manager (Unit {0})
      unfolding stop_unwanted
      shutdown m = stop_unwanted (λ uid. false) (keys m.tasks) m

      unfoldable pub start_missing : List Userbot → Manager → Manager
      unfolding start_userbot task_steps has
      start_missing [] m = m
      start_missing (u ∷ runnable) m =
          start_missing runnable
            (if has u.id m.tasks then m else start_userbot u (task_steps (during u.id).before m))

      abbrev pub is_wanted : List Userbot → ℕ → Bool
      is_wanted runnable uid = any (λ u. u.id == uid) runnable

      unfoldable pub sync : Exec Manager (Unit {0})
      unfolding stop_unwanted start_missing list_runnable
      sync m =
          let runnable = list_runnable 1000 (view m) in
          (stop_unwanted (is_wanted runnable) (keys m.tasks) >> modify (start_missing runnable)) m
