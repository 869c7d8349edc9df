-- ===== src/Workers/Manager/Fewer.antt =====
-- What happens to the coroutines never makes one more.
use trelgream_self_userbot.Prelude.{
  ℕ, ◌≡◌, refl, sym, ap, ◌∙◌, String, true, Option, none, some, List, [], ◌∷◌, ◌==◌, Bool-cases,
  inl, inr, arith, is_some,
}
use trelgream_self_userbot.Prelude.Dict.{has, has-put, has-remove, has-lookup, lookup}
use trelgream_self_userbot.Prelude.Text.{prefix}
use trelgream_self_userbot.Database.Models.Userbots.{UserbotStatus}
use trelgream_self_userbot.Workers.Manager.State.{Manager, Phase, connecting, online, sleeping}
use trelgream_self_userbot.Workers.Manager.Lifecycle
use trelgream_self_userbot.Workers.Manager.Sound.{tasks-set_status}

-- every coroutine of the one manager is one of the other
abbrev pub Fewer : Manager → Manager → Type 0
Fewer n m = (uid : ℕ) → has uid n.tasks ≡ true → has uid m.tasks ≡ true

same : (m : Manager) → Fewer m m
same m uid h = h

Fewer-set_status :
    (i : ℕ) (status : UserbotStatus) (error : Option String) (now : ℕ) (m : Manager)
    → Fewer (Lifecycle.set_status i status error now m) m
Fewer-set_status i status error now m uid h =
    sym (ap (has uid) (tasks-set_status i status error now m)) ∙ h

Fewer-finished :
    (i : ℕ) (status : UserbotStatus) (now : ℕ) (m : Manager)
    → Fewer (Lifecycle.finished i (Lifecycle.set_status i status none now m)) m
Fewer-finished i status now m uid h =
    let n = Lifecycle.set_status i status none now m in
    Fewer-set_status i status none now m uid (ground (arith, has-remove i uid n.tasks, h))

-- a new phase of a coroutine that is there
Fewer-in_phase :
    (i : ℕ) (phase : Phase) (n m : Manager)
    → Fewer n m
    → has i m.tasks ≡ true
    → Fewer (Lifecycle.in_phase i phase n) m
Fewer-in_phase i phase n m f there uid h = elim (Bool-cases (i == uid)) [
  | inl e ↦ ground (arith, e, there)
  | inr e ↦ f uid (ground (arith, e, has-put i uid phase n.tasks, h))
]

module _ (i now : ℕ) (m : Manager) where
  Fewer-crash :
      (message : String) → has i m.tasks ≡ true → Fewer (Lifecycle.crash i message now m) m
  unfolding Lifecycle.crash
  Fewer-crash message there =
      let error = some (prefix 500 message) in
      let counted = Lifecycle.counted i (Lifecycle.set_status i UserbotStatus.error error now m) in
      Fewer-in_phase i (sleeping (Lifecycle.delay_of i counted)) counted m
        (Fewer-set_status i UserbotStatus.error error now m) there

  there_of : (p : Phase) → lookup i m.tasks ≡ some p → has i m.tasks ≡ true
  there_of p e = has-lookup i m.tasks ∙ ap is_some e

  Fewer-on_started :
      (o : Option Phase) → lookup i m.tasks ≡ o → Fewer (Lifecycle.on_started o i now m) m
  Fewer-on_started (some connecting) e =
      Fewer-in_phase i online (Lifecycle.set_status i UserbotStatus.running none now m) m
        (Fewer-set_status i UserbotStatus.running none now m) (there_of connecting e)
  Fewer-on_started (some online) e = same m
  Fewer-on_started (some (sleeping d)) e = same m
  Fewer-on_started none e = same m

  Fewer-on_disconnected : (o : Option Phase) → Fewer (Lifecycle.on_disconnected o i now m) m
  Fewer-on_disconnected (some online) = Fewer-finished i UserbotStatus.stopped now m
  Fewer-on_disconnected (some connecting) = same m
  Fewer-on_disconnected (some (sleeping d)) = same m
  Fewer-on_disconnected none = same m

  Fewer-on_woken : (o : Option Phase) → Fewer (Lifecycle.on_woken o i now m) m
  Fewer-on_woken (some (sleeping d)) = Fewer-finished i UserbotStatus.recovering now m
  Fewer-on_woken (some connecting) = same m
  Fewer-on_woken (some online) = same m
  Fewer-on_woken none = same m

  Fewer-on_crashed :
      (message : String) (o : Option Phase)
      → lookup i m.tasks ≡ o
      → Fewer (Lifecycle.on_crashed o i message now m) m
  Fewer-on_crashed message (some connecting) e = Fewer-crash message (there_of connecting e)
  Fewer-on_crashed message (some online) e = Fewer-crash message (there_of online e)
  Fewer-on_crashed message (some (sleeping d)) e = same m
  Fewer-on_crashed message none e = same m

Fewer-task_step : (e : Lifecycle.TaskEvent) (m : Manager) → Fewer (Lifecycle.task_step e m) m
unfolding Lifecycle.task_step
Fewer-task_step (Lifecycle.started i now) m = Fewer-on_started i now m (lookup i m.tasks) refl
Fewer-task_step (Lifecycle.disconnected i now) m = Fewer-on_disconnected i now m (lookup i m.tasks)
Fewer-task_step (Lifecycle.crashed i message now) m =
    Fewer-on_crashed i now m message (lookup i m.tasks) refl
Fewer-task_step (Lifecycle.woken i now) m = Fewer-on_woken i now m (lookup i m.tasks)

pub Fewer-task_steps :
    (es : List Lifecycle.TaskEvent) (m : Manager) → Fewer (Lifecycle.task_steps es m) m
unfolding Lifecycle.task_steps
Fewer-task_steps [] m uid h = h
Fewer-task_steps (e ∷ es) m uid h =
    Fewer-task_step e m uid (Fewer-task_steps es (Lifecycle.task_step e m) uid h)
