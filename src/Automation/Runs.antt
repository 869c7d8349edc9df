-- ===== src/Automation/Runs.antt =====
-- What an event runs: the rules that hold, in the order of their priorities.
use trelgream_self_userbot.Prelude.{
  ℕ, suc, ◌+◌, String, ◌≡◌, sym, ap, ◌∙◌, Bool, true, false, List, [], ◌∷◌, ◌++◌, arith, length,
  Bool-cases, inl, inr, eq_iff,
}
use mathlib.Core.List.{append_assoc, append-nil}
use native.Mathlib.Nat.{zero-add}
use trelgream_self_userbot.Core.Errors.{Exception}
use trelgream_self_userbot.Core.Exec.{ok, err}
use trelgream_self_userbot.Database.Table.{select}
use trelgream_self_userbot.Database.Table.Find.{All}
use trelgream_self_userbot.Database.Table.Order.{All-order_by, Ordered, order_by-Ordered}
use trelgream_self_userbot.Database.Tenancy.{All-select}
use trelgream_self_userbot.Database.Models.Automation.{AutomationRule}
use trelgream_self_userbot.Database.State.{Database}
use trelgream_self_userbot.Automation.Conditions.{Python, Context, evaluate_all}
use trelgream_self_userbot.Automation.Actions.{Call, execute_actions}
use trelgream_self_userbot.Automation.Service.{
  Handled, prepend, run_rules, handle_event, list_enabled_for, listens, by_priority,
}

-- the calls of the actions of some rules, in turn
abbrev pub calls_of : List AutomationRule → List Call
calls_of [] = []
calls_of (rule ∷ rules) = execute_actions rule.actions ++ calls_of rules

module _ (py : Python) (context : Context) (holds : AutomationRule → Bool) where
  -- the conditions of no rule raise, and `holds` is what they give
  abbrev pub Decides : AutomationRule → Type 0
  Decides rule = evaluate_all py rule.conditions context ≡ ok (holds rule)

  prepend-prepend : (a b : List Call) (h : Handled) → prepend a (prepend b h) ≡ prepend (a ++ b) h
  prepend-prepend a b (r, more) = ap (λ l. (r, l)) (sym (append_assoc a b more))

  run_rules_lem :
      (rules rest : List AutomationRule) (n : ℕ)
      → All Decides rules
      → run_rules py context (rules ++ rest) n
        ≡ prepend
            (calls_of (select holds rules))
            (run_rules py context rest (n + length (select holds rules)))
  unfolding run_rules select
  run_rules_lem [] rest n h = ap (run_rules py context rest) (omega arith)
  run_rules_lem (rule ∷ rules) rest n h = elim (Bool-cases (holds rule)) [
    | inl t ↦
        rw (h.0, t)
          (ap (prepend (execute_actions rule.actions)) (run_rules_lem rules rest (suc n) h.1)
            ∙ prepend-prepend (execute_actions rule.actions) (calls_of (select holds rules)) _
            ∙ ap
                (λ k.
                  prepend (execute_actions rule.actions ++ calls_of (select holds rules))
                    (run_rules py context rest k))
                (omega arith))
    | inr t ↦ rw (h.0, t) (run_rules_lem rules rest n h.1)
  ]

  module _ (user_id : ℕ) (trigger_type : String) (db : Database) where
    -- If no rule of the user for the trigger has conditions that raise, the event runs the actions of
    -- the rules that hold, in the order of the listing, and returns their number.
    pub handle_event_lem :
        All Decides (list_enabled_for user_id trigger_type db)
        → handle_event py user_id trigger_type context db ≡ (
          ok (length (select holds (list_enabled_for user_id trigger_type db))),
          calls_of (select holds (list_enabled_for user_id trigger_type db)),
        )
    unfolding handle_event run_rules
    handle_event_lem h =
        let rules = list_enabled_for user_id trigger_type db in
        ap (λ l. run_rules py context l 0) (sym (append-nil rules))
        ∙ run_rules_lem rules [] 0 h
        ∙ finish (calls_of (select holds rules)) (length (select holds rules))
      where
        finish :
            (calls : List Call) (n : ℕ) → ◌≡◌ {A = Handled} (ok (0 + n), calls ++ []) (ok n, calls)
        finish calls n = cc (append-nil calls, zero-add n)

    -- A rule whose conditions raise ends the event with that error: the rules listed before it have
    -- run, and no rule listed after it does, whatever its conditions are.
    pub handle_event_raises :
        (before rest : List AutomationRule) (bad : AutomationRule) (e : Exception)
        → list_enabled_for user_id trigger_type db ≡ before ++ bad ∷ rest
        → All Decides before
        → evaluate_all py bad.conditions context ≡ err e
        → handle_event py user_id trigger_type context db ≡ (err e, calls_of (select holds before))
    unfolding handle_event run_rules
    handle_event_raises before rest bad e listed h raises =
        ap (λ l. run_rules py context l 0) listed
        ∙ run_rules_lem before (bad ∷ rest) 0 h
        ∙ rw raises (ap (λ l. (err e, l)) (append-nil _))

by_priority_asym : (r q : AutomationRule) → by_priority q r ≡ true → by_priority r q ≡ false
by_priority_asym r q h = ground arith

listens-parts :
    (user_id : ℕ) (trigger_type : String) (r : AutomationRule)
    → listens user_id trigger_type r ≡ true
    → (r.user_id ≡ user_id) × (r.enabled ≡ true) × (r.trigger_type ≡ trigger_type)
listens-parts user_id trigger_type r h = ground (arith, eq_iff r.trigger_type trigger_type)

-- The rules that an event may run all belong to the user, are enabled and have the trigger, and they
-- are listed by priority and, at equal priority, by id.
pub list_enabled_for_lem :
    (user_id : ℕ) (trigger_type : String) (db : Database)
    → All
        (λ r. (r.user_id ≡ user_id) × (r.enabled ≡ true) × (r.trigger_type ≡ trigger_type))
        (list_enabled_for user_id trigger_type db)
      × Ordered by_priority (list_enabled_for user_id trigger_type db)
unfolding list_enabled_for
list_enabled_for_lem user_id trigger_type db = (
  All-order_by by_priority _ _ (
      All-select _ (listens user_id trigger_type) db.automation_rules.rows
        (listens-parts user_id trigger_type)),
  order_by-Ordered by_priority by_priority_asym _,
)
