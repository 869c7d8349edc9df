-- ===== src/Billing/Once.antt =====
-- A payment is reviewed once.
use trelgream_self_userbot.Prelude.{
  ℕ, String, ◌≡◌, refl, sym, ap, ◌∙◌, false, Option, some, ==_refl, ◌⊎◌, Bool-cases, Option-cases,
  inl, inr,
}
use trelgream_self_userbot.Core.Errors.{not_found, conflict}
use trelgream_self_userbot.Core.Exec.{ok, err}
use trelgream_self_userbot.Database.Models.Billing.{Payment, is_pending}
use trelgream_self_userbot.Database.State.{Database}
use trelgream_self_userbot.Database.Repository.{get_or_raise}
use trelgream_self_userbot.Billing.Service.{
  approve_payment, reject_payment, add_receipt, approved, rejected,
}
use trelgream_self_userbot.Billing.Approval.{payment_at}
use trelgream_self_userbot.Billing.Review.{approve_payment-IsApproved, is_pending-eq}
use trelgream_self_userbot.Billing.Rejection.{reject_payment_lem}

-- Every further review of payment `i`, and every receipt for it, is refused and changes nothing.
pub record IsClosed (i : ℕ) (db : Database) : Type 0 where
  pub approve :
      (admin_id : ℕ) (admin_role : String) (now ts : ℕ)
      → approve_payment i admin_id admin_role now ts db ≡ (err conflict, db)
  pub reject :
      (admin_id : ℕ) (admin_role : String) (reason : Option String) (now ts : ℕ)
      → reject_payment i admin_id admin_role reason now ts db ≡ (err conflict, db)
  pub receipt :
      (storage_key : String) (file_name mime_type : Option String) (size : ℕ)
      → add_receipt i storage_key file_name mime_type size db ≡ (err conflict, db)

module _ (i : ℕ) (db : Database) where
  IsClosed-of_status :
      (p : Payment) → payment_at i db ≡ some p → is_pending p.status ≡ false → IsClosed i db
  unfolding approve_payment reject_payment add_receipt get_or_raise
  IsClosed-of_status p found closed = record {
    approve = λ a role now ts. rw (found, closed);
    reject = λ a role reason now ts. rw (found, closed);
    receipt = λ key name type size. rw (found, closed);
  }

module _ (i admin_id : ℕ) (admin_role : String) (now ts : ℕ) (db : Database) where
  pub approve_payment-IsClosed :
      {q : Payment} {db' : Database}
      → approve_payment i admin_id admin_role now ts db ≡ (ok q, db')
      → IsClosed i db'
  approve_payment-IsClosed {db' = db'} success =
      let (p, plan, s, _, _, _, _, after) =
        approve_payment-IsApproved i admin_id admin_role now ts db success in
      IsClosed-of_status i db' (approved admin_id now p) (after.payments i ∙ rw (==_refl i)) refl

  module _ (reason : Option String) where
    reject_unknown :
        payment_at i db ≡ Option.none
        → reject_payment i admin_id admin_role reason now ts db ≡ (err not_found, db)
    unfolding reject_payment get_or_raise
    reject_unknown e = rw e

    reject_closed :
        (p : Payment)
        → payment_at i db ≡ some p
        → is_pending p.status ≡ false
        → reject_payment i admin_id admin_role reason now ts db ≡ (err conflict, db)
    unfolding reject_payment get_or_raise
    reject_closed p found e = rw (found, e)

    pub reject_payment-IsClosed :
        {q : Payment} {db' : Database}
        → reject_payment i admin_id admin_role reason now ts db ≡ (ok q, db')
        → IsClosed i db'
    reject_payment-IsClosed {db' = db'} success = elim (Option-cases (payment_at i db)) [
      | inl e ↦ cc (ap (λ o. o.0) (reject_unknown e), ap (λ o. o.0) success)
      | inr (p, found) ↦ elim (Bool-cases (is_pending p.status)) [
        | inr e ↦ cc (ap (λ o. o.0) (reject_closed p found e), ap (λ o. o.0) success)
        | inl e ↦
            let (db₁, run, after) =
              reject_payment_lem i admin_id admin_role reason now ts p db found
                (is_pending-eq p.status e) in
            let same : db₁ ≡ db' = ap (λ o. o.1) (sym run ∙ success) in
            IsClosed-of_status i db' (rejected admin_id now reason p)
              (ap (payment_at i) (sym same) ∙ after.payments i ∙ rw (==_refl i)) refl
      ]
    ]

-- Once a payment has been approved or rejected, no call approves it, rejects it or adds a receipt to
-- it: each raises ConflictError and leaves the database as it was.
pub review_once :
    (i admin_id : ℕ) (admin_role : String) (reason : Option String) (now ts : ℕ) (db : Database)
    (q : Payment) (db' : Database)
    → (approve_payment i admin_id admin_role now ts db ≡ (ok q, db'))
      ⊎ (reject_payment i admin_id admin_role reason now ts db ≡ (ok q, db'))
    → IsClosed i db'
review_once i a role reason now ts db q db' (inl h) = approve_payment-IsClosed i a role now ts db h
review_once i a role reason now ts db q db' (inr h) =
    reject_payment-IsClosed i a role now ts db reason h
