-- ===== src/Automation/Service.antt =====
-- app/automation/repository.py and service.py: the rules that an event runs.
use trelgream_self_userbot.Prelude.{
  ℕ, suc, String, Bool, true, false, ◌&&◌, ◌||◌, some, List, [], ◌∷◌, ◌++◌, ◌==◌, ltb, str_eq, refl,
}
use trelgream_self_userbot.Core.Exec.{Result, ok, err}
use trelgream_self_userbot.Database.Table.{select}
use trelgream_self_userbot.Database.Table.Order.{order_by}
use trelgream_self_userbot.Database.Models.Automation.{AutomationRule}
use trelgream_self_userbot.Database.State.{Database}
use trelgream_self_userbot.Database.Repository.{Model}
use trelgream_self_userbot.Automation.Conditions.{Python, Context, evaluate_all}
use trelgream_self_userbot.Automation.Actions.{Call, execute_actions}

abbrev pub rule_model : Model AutomationRule
rule_model = record {
  id = λ r. r.id;
  has_tenant = true;
  tenant = λ r. some r.user_id;
  table = λ db. db.automation_rules;
  with_table = λ t db. record db { automation_rules = t };
  table-with_table = λ t db. refl;
}

-- the rules that `list_enabled_for` selects
abbrev pub listens : (user_id : ℕ) (trigger_type : String) → AutomationRule → Bool
listens user_id trigger_type r =
    r.user_id == user_id && (r.enabled && str_eq r.trigger_type trigger_type)

abbrev pub by_priority : AutomationRule → AutomationRule → Bool
by_priority r q = ltb r.priority q.priority || r.priority == q.priority && ltb r.id q.id

unfoldable pub list_enabled_for :
    (user_id : ℕ) (trigger_type : String) → Database → List AutomationRule
list_enabled_for user_id trigger_type db =
    order_by by_priority (select (listens user_id trigger_type) db.automation_rules.rows)

-- The result of a handler, and the calls that it made, also before an exception.
abbrev pub Handled : Type 0
Handled = Result ℕ × List Call

abbrev pub prepend : List Call → Handled → Handled
prepend calls (r, more) = (r, calls ++ more)

-- the body of the loop for one rule whose conditions gave `holds`, before the rest of the loop
abbrev pub run_rule : Result Bool → AutomationRule → (ℕ → Handled) → ℕ → Handled
run_rule (err e) rule rest executed = (err e, [])
run_rule (ok false) rule rest executed = rest executed
run_rule (ok true) rule rest executed = prepend (execute_actions rule.actions) (rest (suc executed))

module _ (py : Python) where
  unfoldable pub run_rules : Context → List AutomationRule → ℕ → Handled
  run_rules context [] executed = (ok executed, [])
  run_rules context (rule ∷ rules) executed =
      run_rule (evaluate_all py rule.conditions context) rule (run_rules context rules) executed

  -- `handle_event`, where `context` is what `build_context` extracts from the event
  unfoldable pub handle_event : (user_id : ℕ) (trigger_type : String) → Context → Database → Handled
  unfolding run_rules list_enabled_for
  handle_event user_id trigger_type context db =
      run_rules context (list_enabled_for user_id trigger_type db) 0
