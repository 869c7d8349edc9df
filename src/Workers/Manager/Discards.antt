-- ===== src/Workers/Manager/Discards.antt =====
-- A round that a message ends with an exception.
use trelgream_self_userbot.Prelude.{
  ℕ, ◌≡◌, refl, ◌∙◌, String, true, Option, none, some, List, [], ◌∷◌, ◌++◌, Bool-cases, inl, inr,
  str_eq, length, is_some,
}
use trelgream_self_userbot.Prelude.Int.{ℤ, pos, negsuc}
use trelgream_self_userbot.Prelude.Text.{Text}
use trelgream_self_userbot.Core.Errors.{Exception}
use trelgream_self_userbot.Core.Exec.{ok, err, Exec, ◌>>=◌}
use trelgream_self_userbot.Core.Messages.{Raw, get_or}
use trelgream_self_userbot.Database.Json.{Json, Fields, null, int}
use trelgream_self_userbot.Database.Table.{select, one_or_none}
use trelgream_self_userbot.Database.Models.Userbots.{Worker}
use trelgream_self_userbot.Workers.Commands
use trelgream_self_userbot.Workers.Manager.State.{Manager, Runtime, view}
use trelgream_self_userbot.Workers.Manager.Lifecycle.{
  Waiting, handle_start, find_userbot, write, change_userbot,
}
use trelgream_self_userbot.Workers.Manager.Drain
use trelgream_self_userbot.Workers.Manager.Round
use trelgream_self_userbot.Workers.Manager.Round.{Host, Meanwhile}

committed-handle_start : (i : ℕ) (m : Manager) → (handle_start i m).committed ≡ m.committed
unfolding handle_start
committed-handle_start i m = elim (Bool-cases (is_some (find_userbot i (view m)))) [
  | inl e ↦ rw e
  | inr e ↦ rw e
]

-- a command to start a userbot never raises, and commits nothing
abbrev Starts : Exec Manager (Unit {0}) → Manager → Type 0
Starts x m = ((x m).0 ≡ ok tt) × ((x m).1.committed ≡ m.committed)

Starts-at_key : (t : ℤ) (m : Manager) → Starts (Drain.at_key Drain.start_at t) m
Starts-at_key (pos n) m = (refl, committed-handle_start n m)
Starts-at_key (negsuc n) m = (refl, refl)

Starts-run_action :
    (w : Waiting) (action : Json) (t : ℤ) (m : Manager)
    → Drain.is_text "start" action ≡ true
    → Starts (Drain.run_action w action t) m
unfolding Drain.run_action
Starts-run_action w action t m e = rw e (Starts-at_key t m)

-- the list and the database, which `_heartbeat` leaves
abbrev Leaves : Manager → Manager → Type 0
Leaves n m = (n.commands ≡ m.commands) × (n.committed ≡ m.committed)

Leaves-beat_each :
    (now worker_id : ℕ) (runtimes : List (ℕ × Runtime)) (m : Manager)
    → Leaves (Round.beat_each now worker_id runtimes m) m
Leaves-beat_each now worker_id [] m = (refl, refl)
Leaves-beat_each now worker_id ((uid, r) ∷ runtimes) m =
    Leaves-beat_each now worker_id runtimes
      (write (change_userbot uid (Round.beating now worker_id)) m)

module _ (repr : Json → Text) (sign : Text → String) (parse : Text → Option ℤ)
    (during : Fields → Waiting) (now : ℕ) where
  -- a genuine command to start a userbot
  abbrev pub IsStart : Raw → Type 0
  IsStart raw =
      (command : Fields) × (target : ℤ) × (Commands.check repr sign now raw ≡ ok (some command))
      × (Drain.to_int parse (get_or "target_id" (int (pos 0)) command) ≡ ok target)
      × (Drain.is_text "start" (get_or "action" null command) ≡ true)

  abbrev pub AllStart : List Raw → Type 0
  AllStart [] = Unit {0}
  AllStart (raw ∷ queue) = IsStart raw × AllStart queue

  drain-discards :
      (good : List Raw) (raw : Raw) (e : Exception) (rest : List Raw) (m : Manager)
      → AllStart good
      → Commands.check repr sign now raw ≡ err e
      → let r = Drain.drain repr sign parse during now (good ++ raw ∷ rest) m in
        (r.0 ≡ err e) × (r.1.commands ≡ rest) × (r.1.committed ≡ m.committed)
  unfolding Drain.drain Drain.handle_command
  drain-discards [] raw e rest m s h = rw h (refl, refl, refl)
  drain-discards (g ∷ good) raw e rest m ((command, target, c, t, a), s) h =
      let n = record m { commands = good ++ raw ∷ rest } in
      let action = get_or "action" null command in
      let o = (Drain.run_action (during command) action target n).1 in
      let run = Starts-run_action (during command) action target n a in
      let k = drain-discards good raw e rest o s h in rw (c, t, run.0) (k.0, k.1, k.2 ∙ run.1)

closed-raised :
    {A : Type 0} (x : Exec Manager A) (f : A → Exec Manager (Unit {0})) (m : Manager)
    (e : Exception)
    → (x m).0 ≡ err e
    → Round.closed ((x >>= f) m) ≡ Round.rollback (x m).1
closed-raised x f m e h = rw h

module _ (name host : String) (load pid now : ℕ) where
  -- the manager after `_heartbeat`, and what of it stays
  abbrev beaten : Option Worker → Manager → Manager
  beaten w m =
      let (worker_id, n) = Round.upsert name host load pid now w m in
      Round.beat_each now worker_id n.runtimes n

  Leaves-beaten : (w : Option Worker) (m : Manager) → Leaves (beaten w m) m
  Leaves-beaten none m =
      let (worker_id, n) = Round.upsert name host load pid now none m in
      Leaves-beat_each now worker_id n.runtimes n
  Leaves-beaten (some w) m =
      let (worker_id, n) = Round.upsert name host load pid now (some w) m in
      Leaves-beat_each now worker_id n.runtimes n

-- A round that finds genuine commands to start userbots in the list, and behind them a message that
-- raises: it takes out all these messages and this one, leaves the rest of the list, and commits nothing.
pub round-discards :
    (h : Host) (meanwhile : Meanwhile) (now instant : ℕ) (m : Manager) (w : Option Worker)
    → one_or_none (select (λ w. str_eq w.name h.worker_name) (view m).workers.rows) ≡ ok w
    → (good : List Raw) (raw : Raw) (e : Exception) (rest : List Raw)
    → m.commands ≡ good ++ raw ∷ rest
    → AllStart h.repr h.sign h.parse meanwhile.in_command now good
    → Commands.check h.repr h.sign now raw ≡ err e
    → let n = Round.round h meanwhile now instant m in
      (n.commands ≡ rest) × (n.committed ≡ m.committed) × (n.writes ≡ [])
unfolding Round.round Round.heartbeat Drain.process_commands
round-discards h meanwhile now instant m w one good raw e rest q s c =
    let b = beaten h.worker_name h.host (length m.tasks) h.pid instant w m in
    let leaves = Leaves-beaten h.worker_name h.host (length m.tasks) h.pid instant w m in
    let queue : b.commands ≡ good ++ raw ∷ rest = leaves.0 ∙ q in
    let k = drain-discards h.repr h.sign h.parse meanwhile.in_command now good raw e rest b s c in
    rw (one, queue, k.0) (k.1, k.2 ∙ leaves.1, refl)
