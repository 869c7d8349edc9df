-- ===== src/Automation/Samples.antt =====
-- Small rules, and the theorems of the automation at them.
use trelgream_self_userbot.Prelude.{
  ℕ, String, ◌≡◌, refl, Bool, true, false, none, some, List, [], ◌∷◌, ◌++◌, ltb, leb, ◌==◌, length,
  if◌then◌else◌,
}
use trelgream_self_userbot.Prelude.Int.{pos}
use trelgream_self_userbot.Prelude.Text.{Text, codes, text_eq, contains}
use trelgream_self_userbot.Core.Errors.{regex_error, type_error}
use trelgream_self_userbot.Core.Exec.{Result, ok, err}
use trelgream_self_userbot.Database.Json.{Json, null, int, str, end, field, get_field}
use trelgream_self_userbot.Database.Table.{select}
use trelgream_self_userbot.Database.Table.Find.{All}
use trelgream_self_userbot.Database.Table.Order.{order_by, Ordered}
use trelgream_self_userbot.Database.Models.Automation.{AutomationCondition, AutomationRule}
use trelgream_self_userbot.Database.State.{Database}
use trelgream_self_userbot.Database.Empty.{empty_database}
use trelgream_self_userbot.Automation.Conditions.{
  Python, Context, evaluate_condition, evaluate_all, is_or, and_then,
}
use trelgream_self_userbot.Automation.Actions.{execute_actions}
use trelgream_self_userbot.Automation.Service.{handle_event, list_enabled_for, by_priority}
use trelgream_self_userbot.Automation.Logic.{
  last_round, evaluate_all-append, evaluate_all_uniform, disj,
}
use trelgream_self_userbot.Automation.Runs.{
  calls_of, handle_event_lem, handle_event_raises, list_enabled_for_lem,
}

-- values compared as texts, numbers read as they are, and an engine that knows plain patterns and
-- refuses "["
text_of_value : Json → Text
text_of_value (str s) = codes s
text_of_value _ = []

number_of_value : Json → Result ℕ
number_of_value (int (pos n)) = ok n
number_of_value _ = err type_error

abbrev plain : Python
plain = record {
  Float = ℕ;
  same = λ a b. text_eq (text_of_value a) (text_of_value b);
  str = text_of_value;
  float = number_of_value;
  less = ltb;
  at_most = leb;
  search = λ p s. if text_eq p (codes "[") then err regex_error else ok (contains p s);
}

abbrev condition : (operator : String) → Json → (logic : String) → AutomationCondition
condition operator value logic = record {
  field = "text";
  operator = operator;
  value = value;
  logic = some logic;
}

abbrev hello : Context
hello = field "text" (str "hello") end

abbrev says_hello : AutomationCondition
says_hello = condition "contains" (str "hell") "AND"

abbrev or_bye : AutomationCondition
or_bye = condition "eq" (str "bye") "or"

abbrev never : AutomationCondition
never = condition "not_exists" null "AND"

abbrev broken : AutomationCondition
broken = condition "regex" (str "[") "AND"

abbrev rule : (id user_id priority : ℕ) → List AutomationCondition → AutomationRule
rule id user_id priority conditions = record {
  id = id;
  user_id = user_id;
  name = "rule";
  trigger_type = "new_message";
  enabled = true;
  priority = priority;
  conditions = conditions;
  actions = record { action_type = "delete"; payload = none; sort_order = 0 } ∷ [];
}

abbrev rules : Database
rules = record empty_database {
  automation_rules = record {
    rows = rule 1 7 20 (never ∷ []) ∷ rule 2 7 10 (says_hello ∷ or_bye ∷ []) ∷ rule 3 8 1 [] ∷ [];
    next_id = 4;
  };
}

abbrev with_broken : Database
with_broken = record empty_database {
  automation_rules = record {
    rows = rule 1 7 20 [] ∷ rule 2 7 15 (broken ∷ []) ∷ rule 3 7 10 [] ∷ [];
    next_id = 4;
  };
}

program : Unit {0}
unfolding evaluate_all evaluate_condition is_or handle_event list_enabled_for order_by select
    execute_actions text_of_value number_of_value text_eq contains get_field
program = tt

-- the precedence of AND over OR would give true
from_the_left : evaluate_all plain (says_hello ∷ or_bye ∷ never ∷ []) hello ≡ ok false
unfolding program
from_the_left = refl

evaluate_all-append_example :
    evaluate_all plain ((says_hello ∷ or_bye ∷ []) ++ never ∷ []) hello
    ≡ and_then (evaluate_all plain (says_hello ∷ or_bye ∷ []) hello) (last_round plain hello never)
evaluate_all-append_example = evaluate_all-append plain hello says_hello (or_bye ∷ []) never

evaluate_all_uniform_example :
    evaluate_all plain (says_hello ∷ or_bye ∷ []) hello ≡ ok (disj (true ∷ false ∷ []))
unfolding program
evaluate_all_uniform_example =
    evaluate_all_uniform plain hello says_hello (or_bye ∷ []) true (false ∷ []) true
      (refl, (refl, tt)) (refl, tt)

abbrev second_holds : AutomationRule → Bool
second_holds r = r.id == 2

handle_event_lem_example : handle_event plain 7 "new_message" hello rules ≡ (
  ok (length (select second_holds (list_enabled_for 7 "new_message" rules))),
  calls_of (select second_holds (list_enabled_for 7 "new_message" rules)),
)
unfolding program
handle_event_lem_example =
    handle_event_lem plain hello second_holds 7 "new_message" rules (refl, (refl, tt))

handle_event_raises_example :
    handle_event plain 7 "new_message" hello with_broken
    ≡ (err regex_error, calls_of (select (λ r. true) (rule 3 7 10 [] ∷ [])))
unfolding program
handle_event_raises_example =
    handle_event_raises plain hello (λ r. true) 7 "new_message" with_broken (rule 3 7 10 [] ∷ [])
      (rule 1 7 20 [] ∷ []) (rule 2 7 15 (broken ∷ [])) regex_error refl (refl, tt) refl

list_enabled_for_lem_example :
    All
      (λ r. (r.user_id ≡ 7) × (r.enabled ≡ true) × (r.trigger_type ≡ "new_message"))
      (list_enabled_for 7 "new_message" rules)
    × Ordered by_priority (list_enabled_for 7 "new_message" rules)
list_enabled_for_lem_example = list_enabled_for_lem 7 "new_message" rules
