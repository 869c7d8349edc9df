-- ===== src/Automation/Conditions.antt =====
-- app/automation/conditions.py. What Python does with values whose type is known only at run time
-- (`==`, `str`, `float`, the order of floats) and the engine of `re` are the parameter `Python`.
use trelgream_self_userbot.Prelude.{
  ℕ, ◌-◌, String, Bool, true, false, not, ◌&&◌, ◌||◌, Option, none, some, List, [], ◌∷◌, map, leb,
  str_eq, if◌then◌else◌,
}
use trelgream_self_userbot.Prelude.Text.{Text, codes, text_eq, starts_with, contains, ends_with}
use trelgream_self_userbot.Core.Errors.{type_error, value_error}
use trelgream_self_userbot.Core.Exec.{Result, ok, err}
use trelgream_self_userbot.Database.Json.{Json, null, obj, arr, Items, nil, cons, Fields, get_field}
use trelgream_self_userbot.Database.Models.Automation.{AutomationCondition}

pub record Python : Type 1 where
  pub Float : Type 0
  pub same : Json → Json → Bool
  pub str : Json → Text
  pub float : Json → Result Float
  pub less : Float → Float → Bool
  pub at_most : Float → Float → Bool
  -- `re.search(pattern, text) is not None`; a bad pattern raises `re.error`
  pub search : Text → Text → Result Bool

-- `context.get(field)` and `value.get("value")`; a missing key and a JSON null are both `None`
abbrev pub Context : Type 0
Context = Fields

abbrev pub value_at : String → Fields → Json
value_at key fields = elim (get_field key fields) [ none ↦ null | some v ↦ v ]

abbrev pub is_none : Json → Bool
is_none null = true
is_none _ = false

-- `value if not isinstance(value, dict) else value.get("value")`
unfoldable pub expected_of : Json → Json
expected_of (obj fields) = value_at "value" fields
expected_of value = value

-- `except (TypeError, ValueError): return False`
abbrev pub or_false : Result Bool → Result Bool
or_false (ok b) = ok b
or_false (err type_error) = ok false
or_false (err value_error) = ok false
or_false (err e) = err e

abbrev pub negated : Result Bool → Result Bool
negated (ok b) = ok (not b)
negated (err e) = err e

-- `str.upper`, as far as it can give "OR"
abbrev upper : ℕ → ℕ
upper c = if leb b'a' c && leb c b'z' then c - 32 else c

-- `(cond.logic or "AND").upper() == "OR"`
unfoldable pub is_or : Option String → Bool
is_or none = false
is_or (some logic) = text_eq (map upper (codes logic)) (codes "OR")

abbrev pub join : Option Bool → Bool → Bool → Bool
join none disjunctive this = this
join (some result) true this = result || this
join (some result) false this = result && this

abbrev pub and_then : {A B : Type 0} → Result A → (A → Result B) → Result B
and_then (ok a) f = f a
and_then (err e) f = err e

module _ (py : Python) where
  open py use {Float, same, str, float, less, at_most, search}

  any_same : Json → Items → Bool
  any_same actual nil = false
  any_same actual (cons x xs) = same actual x || any_same actual xs

  -- `actual in (expected if isinstance(expected, (list, tuple, set)) else [expected])`
  unfoldable pub is_in : Json → Json → Bool
  unfolding any_same
  is_in actual (arr items) = any_same actual items
  is_in actual expected = same actual expected

  abbrev compare_floats : (Float → Float → Bool) → Result Float → Result Float → Result Bool
  compare_floats test (ok a) (ok b) = ok (test a b)
  compare_floats test (err e) b = err e
  compare_floats test (ok a) (err e) = err e

  -- the body of the `try`, where `actual` is not `None`
  unfoldable pub apply_operator : (operator : String) (actual expected : Json) → Result Bool
  unfolding is_in
  apply_operator operator actual expected =
      if str_eq operator "eq"
      then ok (same actual expected)
      else if str_eq operator "neq"
      then ok (not (same actual expected))
      else if str_eq operator "contains"
      then ok (contains (str expected) (str actual))
      else if str_eq operator "not_contains"
      then ok (not (contains (str expected) (str actual)))
      else if str_eq operator "startswith"
      then ok (starts_with (str expected) (str actual))
      else if str_eq operator "endswith"
      then ok (ends_with (str expected) (str actual))
      else if str_eq operator "regex"
      then search (str expected) (str actual)
      else if str_eq operator "gt"
      then compare_floats (λ a b. less b a) (float actual) (float expected)
      else if str_eq operator "lt"
      then compare_floats less (float actual) (float expected)
      else if str_eq operator "gte"
      then compare_floats (λ a b. at_most b a) (float actual) (float expected)
      else if str_eq operator "lte"
      then compare_floats at_most (float actual) (float expected)
      else if str_eq operator "in"
      then ok (is_in actual expected)
      else if str_eq operator "not_in"
      then ok (not (is_in actual expected))
      else ok false

  unfoldable pub evaluate_condition :
      (field operator : String) (value : Json) (context : Context) → Result Bool
  unfolding apply_operator expected_of
  evaluate_condition field operator value context =
      let actual = value_at field context in
      if str_eq operator "exists"
      then ok (not (is_none actual))
      else if str_eq operator "not_exists"
      then ok (is_none actual)
      else if is_none actual
      then ok false
      else or_false (apply_operator operator actual (expected_of value))

  abbrev pub evaluated : Context → AutomationCondition → Result Bool
  evaluated context c = evaluate_condition c.field c.operator c.value context

  -- the loop of `evaluate_all`: `result` is `None` before the first condition
  unfoldable pub evaluate_from : Context → Option Bool → List AutomationCondition → Result Bool
  evaluate_from context none [] = ok false
  evaluate_from context (some result) [] = ok result
  evaluate_from context result (c ∷ cs) =
      and_then (evaluated context c)
        λ this. evaluate_from context (some (join result (is_or c.logic) this)) cs

  unfoldable pub evaluate_all : List AutomationCondition → Context → Result Bool
  unfolding evaluate_from
  evaluate_all [] context = ok true
  evaluate_all (c ∷ cs) context = evaluate_from context none (c ∷ cs)
