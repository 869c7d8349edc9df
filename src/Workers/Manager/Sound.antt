-- ===== src/Workers/Manager/Sound.antt =====
-- What holds of a manager between two segments: coroutines and runtimes belong together, and no backoff
-- sleeps for long.
use trelgream_self_userbot.Prelude.{
  ℕ, ◌≤◌, ◌≡◌, refl, sym, ap, ◌∙◌, String, true, Option, none, some, List, [], ◌∷◌, is_some,
  or_else, arith,
}
use trelgream_self_userbot.Prelude.Text.{prefix}
use trelgream_self_userbot.Prelude.Dict.{
  lookup, has, has-put, has-remove, has-lookup, AllValues, AllValues-put, AllValues-remove,
}
use trelgream_self_userbot.Database.Models.Userbots.{UserbotStatus}
use trelgream_self_userbot.Workers.Manager.State.{Phase, connecting, online, sleeping, Manager}
use trelgream_self_userbot.Workers.Manager.Lifecycle

abbrev pub IsShort : Phase → Type 0
IsShort connecting = Unit {0}
IsShort online = Unit {0}
IsShort (sleeping delay) = delay ≤ 300

-- every coroutine has its runtime, every runtime its coroutine, and a sleep takes at most 300 seconds
pub record IsSound (m : Manager) : Type 0 where
  pub paired : (uid : ℕ) → has uid m.runtimes ≡ has uid m.tasks
  pub short : AllValues IsShort m.tasks

pub backoff-le : (n : ℕ) → Lifecycle.backoff n ≤ 300
unfolding Lifecycle.backoff
backoff-le n = ground arith

module _ (i : ℕ) (status : UserbotStatus) (error : Option String) (now : ℕ) (m : Manager) where
  pub tasks-set_status : (Lifecycle.set_status i status error now m).tasks ≡ m.tasks
  unfolding Lifecycle.set_status
  tasks-set_status = ground arith

  pub runtimes-set_status : (Lifecycle.set_status i status error now m).runtimes ≡ m.runtimes
  unfolding Lifecycle.set_status
  runtimes-set_status = ground arith

-- tasks and runtimes are all that counts
pub IsSound-same :
    (m n : Manager) → n.tasks ≡ m.tasks → n.runtimes ≡ m.runtimes → IsSound m → IsSound n
IsSound-same m n t r h = record {
  paired = λ uid. ap (has uid) r ∙ h.paired uid ∙ sym (ap (has uid) t);
  short = rw t h.short;
}

IsSound-set_status :
    (i : ℕ) (status : UserbotStatus) (error : Option String) (now : ℕ) (m : Manager)
    → IsSound m
    → IsSound (Lifecycle.set_status i status error now m)
IsSound-set_status i status error now m h =
    IsSound-same m (Lifecycle.set_status i status error now m)
      (tasks-set_status i status error now m) (runtimes-set_status i status error now m) h

-- a new phase of a userbot that has a coroutine
IsSound-in_phase :
    (i : ℕ) (phase : Phase) (m : Manager)
    → has i m.tasks ≡ true
    → IsShort phase
    → IsSound m
    → IsSound (Lifecycle.in_phase i phase m)
IsSound-in_phase i phase m there s h = record {
  paired = λ uid. ground (arith, has-put i uid phase m.tasks, h.paired uid, there);
  short = AllValues-put IsShort i phase m.tasks s h.short;
}

pub IsSound-finished : (i : ℕ) (m : Manager) → IsSound m → IsSound (Lifecycle.finished i m)
IsSound-finished i m h = record {
  paired =
      λ uid. ground (arith, has-remove i uid m.tasks, has-remove i uid m.runtimes, h.paired uid);
  short = AllValues-remove IsShort i m.tasks h.short;
}

IsSound-crash :
    (i : ℕ) (message : String) (now : ℕ) (m : Manager)
    → has i m.tasks ≡ true
    → IsSound m
    → IsSound (Lifecycle.crash i message now m)
unfolding Lifecycle.crash
IsSound-crash i message now m there h =
    let error = some (prefix 500 message) in
    let stored = Lifecycle.set_status i UserbotStatus.error error now m in
    let counted = Lifecycle.counted i stored in
    IsSound-in_phase i (sleeping (Lifecycle.delay_of i counted)) counted
      (ap (has i) (tasks-set_status i UserbotStatus.error error now m) ∙ there)
      (backoff-le (or_else (lookup i counted.retry_counts) 0))
      (IsSound-same stored counted refl refl
        (IsSound-set_status i UserbotStatus.error error now m h))

found-has : (i : ℕ) (m : Manager) (p : Phase) → lookup i m.tasks ≡ some p → has i m.tasks ≡ true
found-has i m p e = has-lookup i m.tasks ∙ ap is_some e

module _ (i now : ℕ) (m : Manager) (h : IsSound m) where
  IsSound-on_started :
      (o : Option Phase) → lookup i m.tasks ≡ o → IsSound (Lifecycle.on_started o i now m)
  IsSound-on_started (some connecting) e =
      let there =
        ap (has i) (tasks-set_status i UserbotStatus.running none now m)
        ∙ found-has i m connecting e in
      IsSound-in_phase i online (Lifecycle.set_status i UserbotStatus.running none now m) there tt
        (IsSound-set_status i UserbotStatus.running none now m h)
  IsSound-on_started (some online) e = h
  IsSound-on_started (some (sleeping d)) e = h
  IsSound-on_started none e = h

  IsSound-on_disconnected : (o : Option Phase) → IsSound (Lifecycle.on_disconnected o i now m)
  IsSound-on_disconnected (some online) =
      IsSound-finished i _ (IsSound-set_status i UserbotStatus.stopped none now m h)
  IsSound-on_disconnected (some connecting) = h
  IsSound-on_disconnected (some (sleeping d)) = h
  IsSound-on_disconnected none = h

  IsSound-on_woken : (o : Option Phase) → IsSound (Lifecycle.on_woken o i now m)
  IsSound-on_woken (some (sleeping d)) =
      IsSound-finished i _ (IsSound-set_status i UserbotStatus.recovering none now m h)
  IsSound-on_woken (some online) = h
  IsSound-on_woken (some connecting) = h
  IsSound-on_woken none = h

  IsSound-on_crashed :
      (message : String) (o : Option Phase)
      → lookup i m.tasks ≡ o
      → IsSound (Lifecycle.on_crashed o i message now m)
  IsSound-on_crashed message (some connecting) e =
      IsSound-crash i message now m (found-has i m connecting e) h
  IsSound-on_crashed message (some online) e =
      IsSound-crash i message now m (found-has i m online e) h
  IsSound-on_crashed message (some (sleeping d)) e = h
  IsSound-on_crashed message none e = h

pub IsSound-task_step :
    (e : Lifecycle.TaskEvent) (m : Manager) → IsSound m → IsSound (Lifecycle.task_step e m)
unfolding Lifecycle.task_step
IsSound-task_step (Lifecycle.started i now) m h =
    IsSound-on_started i now m h (lookup i m.tasks) refl
IsSound-task_step (Lifecycle.disconnected i now) m h =
    IsSound-on_disconnected i now m h (lookup i m.tasks)
IsSound-task_step (Lifecycle.crashed i message now) m h =
    IsSound-on_crashed i now m h message (lookup i m.tasks) refl
IsSound-task_step (Lifecycle.woken i now) m h = IsSound-on_woken i now m h (lookup i m.tasks)

pub IsSound-task_steps :
    (es : List Lifecycle.TaskEvent) (m : Manager) → IsSound m → IsSound (Lifecycle.task_steps es m)
unfolding Lifecycle.task_steps
IsSound-task_steps [] m h = h
IsSound-task_steps (e ∷ es) m h =
    IsSound-task_steps es (Lifecycle.task_step e m) (IsSound-task_step e m h)
