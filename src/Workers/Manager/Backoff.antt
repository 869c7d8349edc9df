-- ===== src/Workers/Manager/Backoff.antt =====
-- How long the coroutine of a userbot sleeps after an error.
use trelgream_self_userbot.Prelude.{
  ℕ, ◌+◌, ◌^◌, ◌≤◌, ◌≡◌, ap, ◌∙◌, ◌⊎◌, inl, inr, String, Option, some, ltb, ◌==◌, ==_refl, or_else,
  if◌then◌else◌, arith, Bool-cases,
}
use mathlib.Core.Path.{ap₂}
use native.Mathlib.Nat.{pow-le-pow_right}
use trelgream_self_userbot.Prelude.Text.{prefix}
use trelgream_self_userbot.Prelude.Dict.{lookup, lookup-put}
use trelgream_self_userbot.Database.Models.Userbots.{UserbotStatus}
use trelgream_self_userbot.Workers.Manager.State.{Manager, connecting, online, sleeping}
use trelgream_self_userbot.Workers.Manager.Lifecycle.{
  task_step, crashed, crash, backoff, set_status, counted,
}
use trelgream_self_userbot.Workers.Manager.Sound.{tasks-set_status}

retries-set_status :
    (i : ℕ) (error : Option String) (now : ℕ) (m : Manager)
    → (set_status i UserbotStatus.error error now m).retry_counts ≡ m.retry_counts
unfolding set_status
retries-set_status i error now m = ground arith

-- the errors of a userbot in a row
abbrev pub retries : ℕ → Manager → ℕ
retries i m = or_else (lookup i m.retry_counts) 0

backoff_lem : (n : ℕ) → backoff n ≡ (if ltb 8 n then 300 else 2 ^ n)
unfolding backoff
backoff_lem n = elim (Bool-cases (ltb 8 n)) [
  | inl e ↦
      let more : 9 ≤ n = ground (arith, e) in
      let large : 2 ^ 9 ≤ 2 ^ n = pow-le-pow_right (omega arith) more in ground (arith, large)
  | inr e ↦
      let less : n ≤ 8 = ground (arith, e) in
      let small : 2 ^ n ≤ 2 ^ 8 = pow-le-pow_right (omega arith) less in ground (arith, small)
]

module _ (i now : ℕ) (message : String) (m : Manager) where
  retries-crash : retries i (crash i message now m) ≡ retries i m + 1
  unfolding crash
  retries-crash =
      let error = some (prefix 500 message) in
      rw (
        lookup-put i i _ (set_status i UserbotStatus.error error now m).retry_counts,
        ==_refl i,
        retries-set_status i error now m,
      )

  lookup-crash :
      (j : ℕ)
      → lookup j (crash i message now m).tasks
        ≡ (if i == j then some (sleeping (backoff (retries i m + 1))) else lookup j m.tasks)
  unfolding crash
  lookup-crash j =
      let error = some (prefix 500 message) in
      let n = set_status i UserbotStatus.error error now m in
      let e : backoff (retries i (counted i n)) ≡ backoff (retries i m + 1) =
        ap backoff retries-crash in
      lookup-put i j _ n.tasks
      ∙ ap₂ (λ k d. if i == j then some (sleeping k) else lookup j d) e
          (tasks-set_status i UserbotStatus.error error now m)

  by_crash :
      (n : ℕ)
      → retries i m + 1 ≡ n
      → (retries i (crash i message now m) ≡ n)
        × ((j : ℕ)
            → lookup j (crash i message now m).tasks ≡ (
                if i == j
                then some (sleeping (if ltb 8 n then 300 else 2 ^ n))
                else lookup j m.tasks))
  by_crash n h = (
    retries-crash ∙ h,
    λ j.
        lookup-crash j
        ∙ ap (λ k. if i == j then some (sleeping k) else lookup j m.tasks)
            (ap backoff h ∙ backoff_lem n),
  )

  -- A client that was connecting or online fails for the n-th time in a row: the counter of its errors
  -- is n, its coroutine sleeps for 2 ^ n seconds, from the ninth time on for 300, and the other
  -- coroutines go on.
  pub crashed_lem :
      (lookup i m.tasks ≡ some connecting) ⊎ (lookup i m.tasks ≡ some online)
      → (n : ℕ) → retries i m + 1 ≡ n
      → (retries i (task_step (crashed i message now) m) ≡ n)
        × ((j : ℕ)
            → lookup j (task_step (crashed i message now) m).tasks ≡ (
                if i == j
                then some (sleeping (if ltb 8 n then 300 else 2 ^ n))
                else lookup j m.tasks))
  unfolding task_step
  crashed_lem (inl e) n h = rw e (by_crash n h)
  crashed_lem (inr e) n h = rw e (by_crash n h)
