-- ===== src/Workers/Manager/Wanted.antt =====
-- Which userbots have a coroutine after `_sync`.
use trelgream_self_userbot.Prelude.{
  ℕ, ◌≡◌, refl, sym, ap, ◌∙◌, String, Bool, true, false, ◌||◌, List, [], ◌∷◌, ◌==◌, ==_iff, any,
  Bool-cases, inl, inr, arith, ◌⊎◌, if◌then◌else◌,
}
use trelgream_self_userbot.Prelude.Dict.{has, has-put, has-remove, keys}
use trelgream_self_userbot.Core.Errors.{Exception}
use trelgream_self_userbot.Core.Exec.{Result, ok, err, Exec, pure, modify}
use trelgream_self_userbot.Core.Cipher.{Fernet}
use trelgream_self_userbot.Database.Json.{Fields}
use trelgream_self_userbot.Database.Models.Userbots.{Userbot}
use trelgream_self_userbot.Userbots.Repository.{list_runnable, get_active_session}
use trelgream_self_userbot.Workers.Manager.State.{Manager, connecting, view}
use trelgream_self_userbot.Workers.Manager.Lifecycle
use trelgream_self_userbot.Workers.Manager.Sync
use trelgream_self_userbot.Workers.Manager.Fewer.{Fewer, Fewer-task_steps}

apart :
    {A : Type 0} (i uid : ℕ) (d : List (ℕ × A))
    → has i d ≡ false
    → has uid d ≡ true
    → i == uid ≡ false
apart i uid d absent there = elim (Bool-cases (i == uid)) [
  | inl s ↦
      let one : i ≡ uid = (==_iff i uid).0 s in
      let both : true ≡ false = sym there ∙ sym (ap (λ k. has k d) one) ∙ absent in ground arith
  | inr d ↦ d
]

not_there : (a b : Bool) → (a ≡ true → b ≡ true) → b ≡ false → a ≡ false
not_there true b f e = sym (f refl) ∙ e
not_there false b f e = refl

head_or :
    (a b : Bool) {c : Bool}
    → a || b ≡ true
    → (a ≡ true → c ≡ true)
    → (b ≡ true → c ≡ true)
    → c ≡ true
head_or true b h f g = f refl
head_or false b h f g = g h

started_or :
    (a w : Bool) {s h g : Bool}
    → w || s ≡ true
    → (s ≡ true → a || h ≡ true)
    → (h ≡ true → g ≡ true)
    → (a || w) || g ≡ true
started_or true w k f l = refl
started_or false true k f l = refl
started_or false false k f l = l (f k)

has-keys : {A : Type 0} (k : ℕ) (d : List (ℕ × A)) → any (λ i. i == k) (keys d) ≡ has k d
unfolding has
has-keys k [] = refl
has-keys k ((i, a) ∷ d) = ap (λ b. i == k || b) (has-keys k d)

-- what `_stop_userbot` leaves, if `disconnect()` returns: nothing more, and not the userbot
ended :
    (w : Lifecycle.Waiting) (i : ℕ) (b : Bool) (n : Manager) (uid : ℕ)
    → (b ≡ false → has i n.tasks ≡ false)
    → has uid ((if b then modify (Lifecycle.end_task w i) else pure tt) n).1.tasks ≡ true
    → (has uid n.tasks ≡ true) × (i == uid ≡ false)
ended w i true n uid absent h =
    let o = Lifecycle.task_steps w.after n in
    let still : (has uid o.tasks ≡ true) × (i == uid ≡ false) =
      ground (arith, has-remove i uid o.tasks, h) in
    (Fewer-task_steps w.after n uid still.0, still.1)
ended w i false n uid absent h = (h, apart i uid n.tasks (absent refl) h)

-- the manager when `disconnect()` has returned
abbrev parted : Lifecycle.Waiting → ℕ → Manager → Manager
parted w i m = if has i m.runtimes then Lifecycle.task_steps w.before m else m

Fewer-parted : (w : Lifecycle.Waiting) (i : ℕ) (m : Manager) → Fewer (parted w i m) m
Fewer-parted w i m = elim (Bool-cases (has i m.runtimes)) [
  | inl e ↦ rw e (Fewer-task_steps w.before m)
  | inr e ↦ rw e (λ uid h. h)
]

stop_userbot-eq :
    (w : Lifecycle.Waiting) (i : ℕ) (m : Manager)
    → w.disconnect ≡ ok tt
    → Lifecycle.stop_userbot w i m
      ≡ (if has i m.tasks then modify (Lifecycle.end_task w i) else pure tt) (parted w i m)
unfolding Lifecycle.stop_userbot
stop_userbot-eq w i m d = elim (Bool-cases (has i m.runtimes)) [ inl e ↦ rw (e, d) | inr e ↦ rw e ]

returns-stop_userbot :
    (w : Lifecycle.Waiting) (i : ℕ) (m : Manager)
    → w.disconnect ≡ ok tt
    → (Lifecycle.stop_userbot w i m).0 ≡ ok tt
returns-stop_userbot w i m d =
    ap (λ p. p.0) (stop_userbot-eq w i m d)
    ∙ elim (Bool-cases (has i m.tasks)) [ inl e ↦ rw e refl | inr e ↦ rw e refl ]

left-stop_userbot :
    (w : Lifecycle.Waiting) (i : ℕ) (m : Manager) (uid : ℕ)
    → w.disconnect ≡ ok tt
    → has uid (Lifecycle.stop_userbot w i m).1.tasks ≡ true
    → (has uid m.tasks ≡ true) × (i == uid ≡ false)
left-stop_userbot w i m uid d h =
    let n = parted w i m in
    let absent : has i m.tasks ≡ false → has i n.tasks ≡ false =
      λ e. not_there (has i n.tasks) (has i m.tasks) (Fewer-parted w i m i) e in
    let k =
      ended w i (has i m.tasks) n uid absent
        (sym (ap (λ p. has uid p.1.tasks) (stop_userbot-eq w i m d)) ∙ h) in
    (Fewer-parted w i m uid k.0, k.1)

module _ (registered : List String) (fernet : Fernet) (build : String → Result (Unit {0}))
    (text : Exception → String) where
  left-start_userbot :
      (u : Userbot) (m : Manager) (uid : ℕ)
      → has uid (Sync.start_userbot registered fernet build text u m).tasks ≡ true
      → u.id == uid || has uid m.tasks ≡ true
  unfolding Sync.start_userbot
  left-start_userbot u m uid h =
      left-launched
        (Sync.prepared registered fernet build text u.user_id (view m)
          (get_active_session fernet u.telegram_account_id (view m)).0)
        h
    where
      left-launched :
          (r : Result (List (String × Fields)))
          → has uid (Sync.launched registered fernet build text u r m).tasks ≡ true
          → u.id == uid || has uid m.tasks ≡ true
      left-launched (ok modules) h = sym (has-put u.id uid connecting m.tasks) ∙ h
      left-launched (err e) h = ground (arith, h)

  module _ (during : ℕ → Lifecycle.Waiting) (quiet : (i : ℕ) → (during i).disconnect ≡ ok tt) where
    abbrev stop_all : (wanted : ℕ → Bool) (uids : List ℕ) → Exec Manager (Unit {0})
    stop_all wanted uids = Sync.stop_unwanted registered fernet build text during wanted uids

    stop_unwanted-nil : (wanted : ℕ → Bool) (m : Manager) → stop_all wanted [] m ≡ (ok tt, m)
    unfolding Sync.stop_unwanted
    stop_unwanted-nil wanted m = refl

    -- the rest of the loop, after one userbot
    stop_unwanted-eq :
        (wanted : ℕ → Bool) (i : ℕ) (uids : List ℕ) (m : Manager)
        → stop_all wanted (i ∷ uids) m
          ≡ stop_all wanted uids (if wanted i then m else (Lifecycle.stop_userbot (during i) i m).1)
    unfolding Sync.stop_unwanted
    stop_unwanted-eq wanted i uids m = elim (Bool-cases (wanted i)) [
      | inl e ↦ rw e refl
      | inr e ↦ rw (e, returns-stop_userbot (during i) i m (quiet i)) refl
    ]

    returns-stop_unwanted :
        (wanted : ℕ → Bool) (uids : List ℕ) (m : Manager) → (stop_all wanted uids m).0 ≡ ok tt
    returns-stop_unwanted wanted [] m = ap (λ p. p.0) (stop_unwanted-nil wanted m)
    returns-stop_unwanted wanted (i ∷ uids) m =
        ap (λ p. p.0) (stop_unwanted-eq wanted i uids m) ∙ returns-stop_unwanted wanted uids _

    left-stop_unwanted :
        (wanted : ℕ → Bool) (uids : List ℕ) (m : Manager) (uid : ℕ)
        → has uid (stop_all wanted uids m).1.tasks ≡ true
        → (has uid m.tasks ≡ true) × ((any (λ i. i == uid) uids ≡ true) → wanted uid ≡ true)
    left-stop_unwanted wanted [] m uid h =
        (sym (ap (λ p. has uid p.1.tasks) (stop_unwanted-nil wanted m)) ∙ h, λ a. ground (arith, a))
    left-stop_unwanted wanted (i ∷ uids) m uid h =
        let g = sym (ap (λ p. has uid p.1.tasks) (stop_unwanted-eq wanted i uids m)) ∙ h in
        elim (Bool-cases (wanted i)) [
          | inl e ↦
              let k = left-stop_unwanted wanted uids m uid (rw e at g) in
              (
                k.0,
                λ a.
                    head_or (i == uid) (any (λ j. j == uid) uids) a
                      (λ s. ap wanted (sym ((==_iff i uid).0 s)) ∙ e) k.1,
              )
          | inr e ↦
              let n = (Lifecycle.stop_userbot (during i) i m).1 in
              let k = left-stop_unwanted wanted uids n uid (rw e at g) in
              let l = left-stop_userbot (during i) i m uid (quiet i) k.0 in
              (l.0, λ a. k.1 (ground (arith, a, l.1)))
        ]

    left-start_missing :
        (runnable : List Userbot) (m : Manager) (uid : ℕ)
        → has uid (Sync.start_missing registered fernet build text during runnable m).tasks ≡ true
        → Sync.is_wanted registered fernet build text during runnable uid || has uid m.tasks ≡ true
    unfolding Sync.start_missing
    left-start_missing [] m uid h = h
    left-start_missing (u ∷ runnable) m uid h = elim (Bool-cases (has u.id m.tasks)) [
      | inl e ↦
          let k = left-start_missing runnable m uid (rw (e, Sync.start_missing) at h) in
          ground (arith, k)
      | inr e ↦
          let n = Lifecycle.task_steps (during u.id).before m in
          let k =
            left-start_missing runnable (Sync.start_userbot registered fernet build text u n) uid
              (rw (e, Sync.start_missing) at h) in
          started_or (u.id == uid) _ k (left-start_userbot u n uid)
            (Fewer-task_steps (during u.id).before m uid)
    ]

    -- Let `disconnect()` of the clients raise nothing. Then, whatever the coroutines do while `_sync`
    -- waits, it returns, and a userbot that is not among those that it found runnable has no coroutine
    -- after it.
    pub sync-is_wanted :
        (m : Manager) (uid : ℕ)
        → let r = Sync.sync registered fernet build text during m in
          (r.0 ≡ ok tt)
          × ((has uid r.1.tasks ≡ false)
              ⊎ (Sync.is_wanted registered fernet build text during
                    (list_runnable 1000 (view m))
                    uid
                  ≡ true))
    unfolding Sync.sync
    sync-is_wanted m uid =
        let runnable = list_runnable 1000 (view m) in
        let wanted = Sync.is_wanted registered fernet build text during runnable in
        let uids = keys m.tasks in
        let n = (stop_all wanted uids m).1 in
        rw (returns-stop_unwanted wanted uids m) (
          refl,
          elim (Bool-cases (wanted uid)) [
            | inl e ↦ inr e
            | inr e ↦ inl (
                not_there
                  (has uid
                    (Sync.start_missing registered fernet build text during runnable n).tasks)
                  (wanted uid)
                  (λ h.
                    let k : has uid n.tasks ≡ true =
                      ground (arith, e, left-start_missing runnable n uid h) in
                    let l = left-stop_unwanted wanted uids m uid k in
                    l.1 (has-keys uid m.tasks ∙ l.0))
                  e)
          ],
        )
