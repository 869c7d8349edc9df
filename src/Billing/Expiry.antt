-- ===== src/Billing/Expiry.antt =====
-- `expire_due_subscriptions`: the loop writes one subscription and the userbots of its user in each
-- round; together the rounds are one pass over both tables.
use trelgream_self_userbot.Prelude.{
  ℕ, ◌≡◌, ◌≢◌, refl, sym, ap, ◌∙◌, Bool, false, ◌||◌, List, [], ◌∷◌, map, ◌==◌, if◌then◌else◌,
  arith, length,
}
use trelgream_self_userbot.Core.Exec.{ok}
use trelgream_self_userbot.Database.Table.{select, change}
use trelgream_self_userbot.Database.Table.Find.{
  All, All-both, change-eq, change-map, select-change_self,
}
use trelgream_self_userbot.Database.Table.Keyed.{by_id, Distinct, IsKeyed}
use trelgream_self_userbot.Database.Models.Billing.{Subscription, SubscriptionStatus}
use trelgream_self_userbot.Database.Models.Userbots.{Userbot, suspended}
use trelgream_self_userbot.Database.State.{Database}
use trelgream_self_userbot.Userbots.Status.{with_status, change-with_status}
use trelgream_self_userbot.Billing.Repositories.{expired_active, list_expired_active}
use trelgream_self_userbot.Billing.Service.{expire_each, expire_due_subscriptions}

abbrev pub expired : Subscription → Subscription
expired r = record r { status = SubscriptionStatus.expired }

-- whether a due subscription has the key, or the user
abbrev has_key : List Subscription → ℕ → Bool
has_key [] k = false
has_key (s ∷ due) k = k == s.id || has_key due k

abbrev pub has_user : List Subscription → ℕ → Bool
has_user [] u = false
has_user (s ∷ due) u = u == s.user_id || has_user due u

change-nil : (rs : List Subscription) → change (λ r. false) expired rs ≡ rs
unfolding change
change-nil [] = refl
change-nil (r ∷ rs) = ap (λ l. r ∷ l) (change-nil rs)

change-change :
    (s : Subscription) (due rs : List Subscription)
    → change (λ r. has_key due r.id) expired (change (by_id (λ r. r.id) s.id) expired rs)
      ≡ change (λ r. has_key (s ∷ due) r.id) expired rs
unfolding change
change-change s due [] = refl
change-change s due (r ∷ rs) = ground (arith, change-change s due rs)

expire_each-subscriptions :
    (due : List Subscription) (db : Database)
    → (expire_each due db).subscriptions.rows
      ≡ change (λ r. has_key due r.id) expired db.subscriptions.rows
unfolding expire_each
expire_each-subscriptions [] db = sym (change-nil db.subscriptions.rows)
expire_each-subscriptions (s ∷ due) db =
    expire_each-subscriptions due _ ∙ change-change s due db.subscriptions.rows

-- the userbots of the users of the due subscriptions, SUSPENDED
abbrev pub suspend : List Subscription → List Userbot → List Userbot
suspend due rows =
    map (λ b. if has_user due b.user_id then record b { status = suspended } else b) rows

suspend-nil : (rows : List Userbot) → suspend [] rows ≡ rows
suspend-nil [] = refl
suspend-nil (b ∷ rows) = ap (λ l. b ∷ l) (suspend-nil rows)

suspend-with_status :
    (s : Subscription) (due : List Subscription) (rows : List Userbot)
    → suspend due (with_status s.user_id suspended rows) ≡ suspend (s ∷ due) rows
suspend-with_status s due [] = refl
suspend-with_status s due (b ∷ rows) = ground (arith, suspend-with_status s due rows)

expire_each-userbots :
    (due : List Subscription) (db : Database)
    → (expire_each due db).userbots.rows ≡ suspend due db.userbots.rows
unfolding expire_each
expire_each-userbots [] db = sym (suspend-nil db.userbots.rows)
expire_each-userbots (s ∷ due) db =
    expire_each-userbots due _
    ∙ ap (suspend due) (change-with_status s.user_id suspended db.userbots.rows)
    ∙ suspend-with_status s due db.userbots.rows

-- Under distinct keys the due subscriptions are told by their keys.
has_key-select_ne :
    (test : Subscription → Bool) (k : ℕ) (rs : List Subscription)
    → All (λ q. q.id ≢ k) rs
    → has_key (select test rs) k ≡ false
unfolding select
has_key-select_ne test k [] h = refl
has_key-select_ne test k (r ∷ rs) h = ground (arith, has_key-select_ne test k rs h.1)

has_key-select :
    (test : Subscription → Bool) (rs : List Subscription)
    → Distinct (λ q. q.id) rs
    → All (λ r. has_key (select test rs) r.id ≡ test r) rs
unfolding select
has_key-select test [] d = tt
has_key-select test (r ∷ rs) d = (
  ground (arith, has_key-select_ne test r.id rs d.0),
  All-both (λ q. q.id ≢ r.id) (λ q. has_key (select test rs) q.id ≡ test q)
      (λ q. has_key (if test r then r ∷ select test rs else select test rs) q.id ≡ test q) rs
      (λ q ne same. ground arith) d.0 (has_key-select test rs d.1),
)

module _ (now : ℕ) (db : Database) (keyed : IsKeyed (λ r. r.id) db.subscriptions) where
  abbrev due : List Subscription
  due = list_expired_active now db

  abbrev after : Database
  after = expire_each due db

  rows_after : after.subscriptions.rows ≡ change (expired_active now) expired db.subscriptions.rows
  unfolding list_expired_active
  rows_after =
      expire_each-subscriptions due db
      ∙ change-eq (λ r. has_key due r.id) (expired_active now) expired db.subscriptions.rows
          (has_key-select (expired_active now) db.subscriptions.rows keyed.distinct)

  due_after : list_expired_active now after ≡ []
  unfolding list_expired_active
  due_after =
      ap (select (expired_active now)) rows_after
      ∙ select-change_self (expired_active now) expired db.subscriptions.rows (λ r. refl)

  nothing_due :
      (d : Database) → list_expired_active now d ≡ [] → expire_due_subscriptions now d ≡ (ok 0, d)
  unfolding expire_due_subscriptions expire_each
  nothing_due d none_due = rw none_due

  -- In a table with distinct keys, every active subscription whose time has passed becomes expired,
  -- the userbots of the users of those subscriptions become SUSPENDED, all other subscriptions and
  -- userbots are as before, and the number of those subscriptions is returned. A second run at the
  -- same instant finds none and changes nothing.
  pub expire_due_subscriptions_lem :
      (db' : Database) × (expire_due_subscriptions now db ≡ (ok (length due), db'))
      × (db'.subscriptions.rows
          ≡ map (λ s. if expired_active now s then expired s else s) db.subscriptions.rows)
      × (db'.userbots.rows ≡ suspend due db.userbots.rows)
      × (expire_due_subscriptions now db' ≡ (ok 0, db'))
  unfolding expire_due_subscriptions
  expire_due_subscriptions_lem = (
    after,
    refl,
    rows_after ∙ change-map (expired_active now) expired db.subscriptions.rows,
    expire_each-userbots due db,
    nothing_due after due_after,
  )
