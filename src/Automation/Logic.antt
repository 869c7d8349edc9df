-- ===== src/Automation/Logic.antt =====
-- How the conditions of a rule are joined: from the left, with no precedence.
use trelgream_self_userbot.Prelude.{
  ◌≡◌, refl, sym, ap, ◌∙◌, if◌then◌else◌, Bool, true, false, ◌&&◌, ◌||◌, some, List, [], ◌∷◌, ◌++◌,
  arith,
}
use mathlib.Core.Path.{fun_ext}
use trelgream_self_userbot.Core.Exec.{Result, ok, err}
use trelgream_self_userbot.Database.Models.Automation.{AutomationCondition}
use trelgream_self_userbot.Automation.Conditions.{
  Python, Context, evaluated, evaluate_from, evaluate_all, is_or, join, and_then,
}

abbrev pub conj : List Bool → Bool
conj [] = true
conj (b ∷ bs) = b && conj bs

abbrev pub disj : List Bool → Bool
disj [] = false
disj (b ∷ bs) = b || disj bs

and_then_assoc :
    {A B C : Type 0} (r : Result A) (f : A → Result B) (g : B → Result C)
    → and_then (and_then r f) g ≡ and_then r (λ a. and_then (f a) g)
and_then_assoc (ok a) f g = refl
and_then_assoc (err e) f g = refl

module _ (py : Python) (context : Context) where
  -- the last round of the loop, after `result` of the rounds before it
  abbrev pub last_round : AutomationCondition → Bool → Result Bool
  last_round c result =
      and_then (evaluated py context c) λ this. ok (join (some result) (is_or c.logic) this)

  abbrev next : Bool → AutomationCondition → Bool → Bool
  next result d this = join (some result) (is_or d.logic) this

  evaluate_from-append :
      (result : Bool) (cs : List AutomationCondition) (c : AutomationCondition)
      → evaluate_from py context (some result) (cs ++ c ∷ [])
        ≡ and_then (evaluate_from py context (some result) cs) (last_round c)
  unfolding evaluate_from
  evaluate_from-append result [] c = refl
  evaluate_from-append result (d ∷ cs) c =
      ap (and_then (evaluated py context d))
        (fun_ext λ this. evaluate_from-append (next result d this) cs c)
      ∙ sym (and_then_assoc (evaluated py context d) _ _)

  -- The conditions are joined from the left, in their order: one more condition at the end is joined
  -- to the result of all the conditions before it, by OR if its logic is OR and by AND otherwise. A
  -- condition that raises makes the whole raise, and the first one that raises decides the error.
  pub evaluate_all-append :
      (d : AutomationCondition) (cs : List AutomationCondition) (c : AutomationCondition)
      → evaluate_all py ((d ∷ cs) ++ c ∷ []) context
        ≡ and_then (evaluate_all py (d ∷ cs) context) (last_round c)
  unfolding evaluate_all
  evaluate_all-append d cs c =
      ap (and_then (evaluated py context d)) (fun_ext λ this. evaluate_from-append this cs c)
      ∙ sym (and_then_assoc (evaluated py context d) _ _)

  -- `bs` are the values of the conditions, none of which raises.
  abbrev pub Values : List AutomationCondition → List Bool → Type 0
  Values [] [] = Unit
  Values [] (b ∷ bs) = ⊥
  Values (c ∷ cs) [] = ⊥
  Values (c ∷ cs) (b ∷ bs) = (evaluated py context c ≡ ok b) × Values cs bs

  abbrev pub AllJoined : Bool → List AutomationCondition → Type 0
  AllJoined disjunctive [] = Unit
  AllJoined disjunctive (c ∷ cs) = (is_or c.logic ≡ disjunctive) × AllJoined disjunctive cs

  evaluate_from-and :
      (result : Bool) (cs : List AutomationCondition) (bs : List Bool)
      → Values cs bs
      → AllJoined false cs
      → evaluate_from py context (some result) cs ≡ ok (result && conj bs)
  unfolding evaluate_from
  evaluate_from-and result [] [] v j = ground arith
  evaluate_from-and result [] (b ∷ bs) v j = elim v [ ]
  evaluate_from-and result (c ∷ cs) [] v j = elim v [ ]
  evaluate_from-and result (c ∷ cs) (b ∷ bs) v j =
      rw (v.0, j.0) (evaluate_from-and (result && b) cs bs v.1 j.1 ∙ ground arith)

  evaluate_from-or :
      (result : Bool) (cs : List AutomationCondition) (bs : List Bool)
      → Values cs bs
      → AllJoined true cs
      → evaluate_from py context (some result) cs ≡ ok (result || disj bs)
  unfolding evaluate_from
  evaluate_from-or result [] [] v j = ground arith
  evaluate_from-or result [] (b ∷ bs) v j = elim v [ ]
  evaluate_from-or result (c ∷ cs) [] v j = elim v [ ]
  evaluate_from-or result (c ∷ cs) (b ∷ bs) v j =
      rw (v.0, j.0) (evaluate_from-or (result || b) cs bs v.1 j.1 ∙ ground arith)

  -- If no condition raises, and all conditions after the first are joined by AND, the result is the
  -- conjunction of their values; if all are joined by OR, it is the disjunction. The logic of the
  -- first condition does not matter.
  pub evaluate_all_uniform :
      (d : AutomationCondition) (cs : List AutomationCondition) (b : Bool) (bs : List Bool)
      (disjunctive : Bool)
      → Values (d ∷ cs) (b ∷ bs)
      → AllJoined disjunctive cs
      → evaluate_all py (d ∷ cs) context ≡ ok (if disjunctive then disj (b ∷ bs) else conj (b ∷ bs))
  unfolding evaluate_all
  evaluate_all_uniform d cs b bs true v j = rw v.0 (evaluate_from-or b cs bs v.1 j)
  evaluate_all_uniform d cs b bs false v j = rw v.0 (evaluate_from-and b cs bs v.1 j)
