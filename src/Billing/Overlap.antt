-- ===== src/Billing/Overlap.antt =====
-- `purchase` looks for an active subscription and `approve_payment` does not: two purchases before the
-- first approval give a user two active subscriptions, and `scalar_one_or_none` refuses two rows.
use trelgream_self_userbot.Prelude.{
  ℕ, ◌+◌, ◌*◌, String, ◌≡◌, ◌≢◌, refl, sym, ap, ◌∙◌, Bool, true, Option, none, some, if◌then◌else◌,
  List, [], ◌∷◌, ◌==◌, arith, ==_refl, Bool-cases, inl, inr,
}
use trelgream_self_userbot.Core.Errors.{Exception, multiple_results_found, not_found, conflict}
use trelgream_self_userbot.Core.Exec.{ok, err}
use trelgream_self_userbot.Core.Time.{day}
use trelgream_self_userbot.Database.Table.{select, find, one_or_none}
use trelgream_self_userbot.Database.Table.Keyed.{by_id}
use trelgream_self_userbot.Database.Models.Billing.{Subscription, Payment, Plan}
use trelgream_self_userbot.Database.State.{Database}
use trelgream_self_userbot.Database.Repository.{get_or_raise}
use trelgream_self_userbot.Billing.Repositories.{active_for_user, active_of}
use trelgream_self_userbot.Billing.Service.{approve_payment, purchase, activated}
use trelgream_self_userbot.Billing.Approval.{payment_at, subscription_at, plan_at}
use trelgream_self_userbot.Billing.Review.{approve_payment-IsApproved}

module _ {Row : Type 0} (test : Row → Bool) where
  select-ne-nil :
      (p : Row → Bool) (rs : List Row) (a : Row)
      → find p rs ≡ some a
      → test a ≡ true
      → select test rs ≢ []
  unfolding select find
  select-ne-nil p [] a found t = cc found
  select-ne-nil p (r ∷ rs) a found t = elim (Bool-cases (p r)) [
    | inl e ↦ ground arith
    | inr e ↦ ground (arith, select-ne-nil p rs a (ground arith) t)
  ]

  one_or_none_cons :
      (r : Row) (rs : List Row) → rs ≢ [] → one_or_none (r ∷ rs) ≡ err multiple_results_found
  unfolding one_or_none
  one_or_none_cons r [] ne = absurd (ne refl)
  one_or_none_cons r (q ∷ rs) ne = refl

  -- two rows that fit, found under different keys
  pub one_or_none_two :
      (key : Row → ℕ) (i j : ℕ) (rs : List Row) (a b : Row)
      → i ≢ j
      → find (by_id key i) rs ≡ some a
      → find (by_id key j) rs ≡ some b
      → test a ≡ true
      → test b ≡ true
      → one_or_none (select test rs) ≡ err multiple_results_found
  unfolding find select
  one_or_none_two key i j [] a b ne fa fb ta tb = cc fa
  one_or_none_two key i j (r ∷ rs) a b ne fa fb ta tb = elim (Bool-cases (key r == i)) [
    | inl e ↦ ground (
      arith,
      one_or_none_cons r (select test rs),
      select-ne-nil (by_id key j) rs b (ground arith) tb,
    )
    | inr e ↦ elim (Bool-cases (key r == j)) [
      | inl d ↦ ground (
        arith,
        one_or_none_cons r (select test rs),
        select-ne-nil (by_id key i) rs a (ground arith) ta,
      )
      | inr d ↦ elim (Bool-cases (test r)) [
        | inl t ↦ rw t (
            one_or_none_cons r (select test rs)
              (select-ne-nil (by_id key i) rs a (ground arith) ta))
        | inr t ↦ rw t (one_or_none_two key i j rs a b ne (ground arith) (ground arith) ta tb)
      ]
    ]
  ]

-- A purchase by a user whose active subscription cannot be looked up: a plan that is not there or not on
-- sale is refused first.
abbrev pub refused : (found : Option Plan) → Exception
refused none = not_found
refused (some plan) = if plan.is_active then multiple_results_found else conflict

purchase_two :
    (user_id : ℕ) (db : Database) (plan_id : ℕ) (found : Option Plan)
    → plan_at plan_id db ≡ found
    → active_for_user user_id db ≡ (err multiple_results_found, db)
    → purchase user_id plan_id db ≡ (err (refused found), db)
unfolding purchase get_or_raise
purchase_two user_id db plan_id none found two = rw found
purchase_two user_id db plan_id (some plan) found two = elim (Bool-cases plan.is_active) [
  | inl e ↦ rw (found, e, two)
  | inr e ↦ rw (found, e)
]

module _ (i admin_id : ℕ) (admin_role : String) (now ts : ℕ) (db : Database) {q : Payment}
    {db' : Database} (success : approve_payment i admin_id admin_role now ts db ≡ (ok q, db'))
    (p : Payment) (s r : Subscription) (found : payment_at i db ≡ some p)
    (linked : p.subscription_id ≡ some s.id) (found_s : subscription_at s.id db ≡ some s)
    (found_r : subscription_at r.id db ≡ some r) (other : r.id ≢ s.id)
    (active : active_of s.user_id r ≡ true) where
  two_rows : active_for_user s.user_id db' ≡ (err multiple_results_found, db')
  unfolding active_for_user
  two_rows =
      let (p', plan', s', _, found', linked', found_s', after) =
        approve_payment-IsApproved i admin_id admin_role now ts db success in
      let same_key : s'.id ≡ s.id = cc in
      let same : s' ≡ s = cc (ap (λ k. subscription_at k db) same_key, found_s, found_s') in
      let began = activated plan'.id now (now + plan'.duration_days * day) s' in
      let here : subscription_at s.id db' ≡ some began = after.subscriptions s.id ∙ ground arith in
      let there : subscription_at r.id db' ≡ some r = after.subscriptions r.id ∙ ground arith in
      ap (λ o. (o, db'))
        (one_or_none_two (active_of s.user_id) (λ q. q.id) s.id r.id db'.subscriptions.rows began r
          (λ e. other (sym e)) here there (rw same (rw (==_refl s.user_id))) active)

  -- When the approval of a payment succeeds for a user who has another active subscription, then in the
  -- database that it leaves the lookup of the user's active subscription raises MultipleResultsFound,
  -- and so does a purchase by that user of any plan on sale; a purchase of another plan raises the
  -- NotFoundError or ConflictError of that plan. None of them writes.
  pub approve_payment_overlap :
      (plan_id : ℕ)
      → (active_for_user s.user_id db' ≡ (err multiple_results_found, db'))
        × (purchase s.user_id plan_id db' ≡ (err (refused (plan_at plan_id db')), db'))
  approve_payment_overlap plan_id =
      (two_rows, purchase_two s.user_id db' plan_id (plan_at plan_id db') refl two_rows)
