-- ===== src/Billing/Samples.antt =====
-- A small shop, and the billing theorems at it.
use trelgream_self_userbot.Prelude.{
  ℕ, ◌+◌, ◌*◌, ◌≡◌, refl, true, Option, none, some, List, [], ◌∷◌, arith, length, map, inl,
  if◌then◌else◌, ◌⊎◌,
}
use trelgream_self_userbot.Prelude.Text.{codes, text_eq}
use trelgream_self_userbot.Core.Errors.{multiple_results_found}
use trelgream_self_userbot.Core.Exec.{ok, err}
use trelgream_self_userbot.Core.Time.{day, later}
use trelgream_self_userbot.Security.{record_audit}
use trelgream_self_userbot.Database.Table.{select, change, find, insert, one_or_none}
use trelgream_self_userbot.Database.Table.Keyed.{IsKeyed}
use trelgream_self_userbot.Database.Models.Billing.{
  Plan, Subscription, SubscriptionStatus, Payment, PaymentStatus,
}
use trelgream_self_userbot.Database.Models.Userbots.{Userbot, UserbotStatus}
use trelgream_self_userbot.Database.State.{Database}
use trelgream_self_userbot.Database.Empty.{empty_database}
use trelgream_self_userbot.Database.Repository.{get_or_raise}
use trelgream_self_userbot.Billing.Repositories.{
  active_for_user, list_expired_active, expired_active,
}
use trelgream_self_userbot.Billing.Reference.{reference_of, reference_of-injective}
use trelgream_self_userbot.Billing.Service.{
  approve_payment, reject_payment, purchase, create_payment, approved, rejected, get_linked,
  expire_due_subscriptions,
}
use trelgream_self_userbot.Billing.Approval.{IsApproved, approve_payment_lem}
use trelgream_self_userbot.Billing.Rejection.{IsRejected, reject_payment_lem}
use trelgream_self_userbot.Billing.Once.{IsClosed, review_once}
use trelgream_self_userbot.Billing.Overlap.{approve_payment_overlap}
use trelgream_self_userbot.Billing.Expiry.{expire_due_subscriptions_lem, expired, suspend}
use trelgream_self_userbot.Billing.Purchase.{HasReferences, sold, awaiting_payment, purchase_lem}
use trelgream_self_userbot.Billing.Purchase.Outcomes.{purchase-HasReferences}

abbrev pub basic : Plan
basic = record {
  id = 1;
  key = "basic";
  name = "30";
  price = 200000;
  duration_days = 30;
  max_userbots = 1;
  max_modules = 2;
  max_automation_rules = 5;
  max_scheduled_tasks = 5;
  is_active = true;
  sort_order = 1;
}

abbrev subscription : (id user_id : ℕ) → SubscriptionStatus → Option ℕ → Subscription
subscription id user_id status expires_at = record {
  id = id;
  user_id = user_id;
  plan_id = 1;
  status = status;
  started_at = none;
  expires_at = expires_at;
}

abbrev payment : (id subscription_id : ℕ) → Payment
payment id subscription_id = record {
  id = id;
  reference = reference_of id;
  user_id = 7;
  plan_id = 1;
  subscription_id = some subscription_id;
  amount = 200000;
  status = PaymentStatus.pending;
  method = "card";
  reviewed_by = none;
  reviewed_at = none;
  reject_reason = none;
}

abbrev userbot : (id user_id : ℕ) → UserbotStatus → Userbot
userbot id user_id status = record {
  id = id;
  user_id = user_id;
  telegram_account_id = id;
  name = none;
  status = status;
  current_worker_id = none;
  last_heartbeat_at = none;
  error_message = none;
}

-- User 7 has two purchases under review; user 8 has an active subscription that ends at 100.
abbrev two_purchases : List Subscription
two_purchases =
    subscription 1 7 SubscriptionStatus.pending none
    ∷ subscription 2 7 SubscriptionStatus.pending none
    ∷ subscription 3 8 SubscriptionStatus.active (some 100)
    ∷ []

abbrev pub shop : Database
shop = record empty_database {
  plans = record { rows = basic ∷ []; next_id = 2 };
  subscriptions = record { rows = two_purchases; next_id = 4 };
  payments = record { rows = payment 1 1 ∷ payment 2 2 ∷ []; next_id = 3 };
  userbots = record {
    rows = userbot 1 7 UserbotStatus.running ∷ userbot 2 8 UserbotStatus.running ∷ [];
    next_id = 3;
  };
}

program : Unit {0}
unfolding approve_payment reject_payment purchase create_payment get_or_raise get_linked later
    record_audit select change find insert one_or_none active_for_user expire_due_subscriptions
    list_expired_active reference_of text_eq
program = tt

approve_payment_lem_example :
    (db' : Database) × (approve_payment 1 5 "ADMIN" 1000 1001 shop
      ≡ (ok (approved 5 1000 (payment 1 1)), db'))
    × IsApproved 1 5 "ADMIN" 1000 1001
        (payment 1 1)
        basic
        (subscription 1 7 SubscriptionStatus.pending none)
        shop
        db'
unfolding find
approve_payment_lem_example =
    approve_payment_lem 1 1 5 "ADMIN" 1000 1001 (payment 1 1) basic
      (subscription 1 7 SubscriptionStatus.pending none) shop refl refl refl refl refl (omega arith)

reject_payment_lem_example :
    (db' : Database) × (reject_payment 2 5 "ADMIN" none 1000 1001 shop
      ≡ (ok (rejected 5 1000 none (payment 2 2)), db'))
    × IsRejected 2 5 "ADMIN" none 1000 1001 (payment 2 2) shop db'
unfolding find
reject_payment_lem_example =
    reject_payment_lem 2 5 "ADMIN" none 1000 1001 (payment 2 2) shop refl refl

abbrev pub shop_after : Database
shop_after = (approve_payment 1 5 "ADMIN" 1000 1001 shop).1

review_once_example : IsClosed 1 shop_after
unfolding program
review_once_example =
    review_once 1 5 "ADMIN" none 1000 1001 shop (approved 5 1000 (payment 1 1)) shop_after
      (inl refl)

-- the second of the two purchases is approved after the first
abbrev first_active : Subscription
first_active = record (subscription 1 7 SubscriptionStatus.active (some (1000 + 30 * day))) {
  started_at = some 1000;
}

abbrev shop_twice : Database
shop_twice = (approve_payment 2 5 "ADMIN" 2000 2001 shop_after).1

approve_payment_overlap_example :
    (active_for_user 7 shop_twice ≡ (err multiple_results_found, shop_twice))
    × (purchase 7 1 shop_twice ≡ (err multiple_results_found, shop_twice))
unfolding program
approve_payment_overlap_example =
    approve_payment_overlap 2 5 "ADMIN" 2000 2001 shop_after {q = approved 5 2000 (payment 2 2)}
      refl (payment 2 2) (subscription 2 7 SubscriptionStatus.pending none) first_active refl refl
      refl refl (omega arith) refl 1

abbrev rows_keyed : IsKeyed (λ s. s.id) shop.subscriptions
rows_keyed = omega arith

expire_due_subscriptions_lem_example :
    (db' : Database) × (expire_due_subscriptions 500 shop
      ≡ (ok (length (list_expired_active 500 shop)), db'))
    × (db'.subscriptions.rows
        ≡ map (λ s. if expired_active 500 s then expired s else s) shop.subscriptions.rows)
    × (db'.userbots.rows ≡ suspend (list_expired_active 500 shop) shop.userbots.rows)
    × (expire_due_subscriptions 500 db' ≡ (ok 0, db'))
expire_due_subscriptions_lem_example = expire_due_subscriptions_lem 500 shop rows_keyed

shop_references : HasReferences shop.payments
shop_references = record { keyed = omega arith; referenced_by_id = (refl, (refl, tt)) }

purchase-HasReferences_example :
    HasReferences (purchase 9 1 shop).1.payments
    × (((purchase 9 1 shop).1 ≡ shop) ⊎ ((p : Payment) × ((purchase 9 1 shop).0 ≡ ok p)))
purchase-HasReferences_example = purchase-HasReferences 9 1 shop shop_references

purchase_lem_example : purchase 9 1 shop ≡ (
  ok (sold 9 basic 4 3),
  record shop {
    subscriptions = insert (awaiting_payment 9 1) shop.subscriptions;
    payments = insert (sold 9 basic 4) shop.payments;
  },
)
unfolding find active_for_user select one_or_none
purchase_lem_example = purchase_lem 9 1 basic shop refl shop_references refl refl

reference_of-injective_example : ◌≡◌ {A = ℕ} 12 12
reference_of-injective_example = reference_of-injective 12 12 refl

reference_of_small : reference_of 42 ≡ codes "PAY-000042"
unfolding program
reference_of_small = refl

reference_of_large : reference_of 1234567 ≡ codes "PAY-1234567"
unfolding program
reference_of_large = refl
