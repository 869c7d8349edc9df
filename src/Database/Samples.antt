-- ===== src/Database/Samples.antt =====
-- The tenant isolation at a small table of subscriptions.
use trelgream_self_userbot.Prelude.{◌≤◌, ◌≡◌, refl, true, none, some, List, [], ◌∷◌, length}
use trelgream_self_userbot.Core.Errors.{not_found}
use trelgream_self_userbot.Core.Exec.{ok, err}
use trelgream_self_userbot.Database.Table.{find}
use trelgream_self_userbot.Database.Table.Find.{All}
use trelgream_self_userbot.Database.Models.Billing.{Subscription, SubscriptionStatus}
use trelgream_self_userbot.Database.State.{Database}
use trelgream_self_userbot.Database.Empty.{empty_database}
use trelgream_self_userbot.Database.Repository.{get_for_tenant, list_for_tenant}
use trelgream_self_userbot.Database.Tenancy.{get_for_tenant_lem, list_for_tenant_lem}
use trelgream_self_userbot.Billing.Repositories.{subscription_model}

abbrev of_user_7 : Subscription
of_user_7 = record {
  id = 1;
  user_id = 7;
  plan_id = 1;
  status = SubscriptionStatus.pending;
  started_at = none;
  expires_at = none;
}

abbrev one_row : Database
one_row = record empty_database { subscriptions = record { rows = of_user_7 ∷ []; next_id = 2 } }

get_for_tenant_lem_example :
    (get_for_tenant subscription_model 2 8 one_row ≡ (err not_found, one_row))
    × (get_for_tenant subscription_model 1 8 one_row
        ≡ get_for_tenant subscription_model 2 8 one_row)
unfolding find
get_for_tenant_lem_example =
    get_for_tenant_lem subscription_model 8 one_row 1 2 of_user_7 (some 7) refl refl refl

list_for_tenant_lem_example :
    (rows : List Subscription) × (list_for_tenant subscription_model 7 50 0 (λ s. true) one_row
      ≡ (ok rows, one_row))
    × All (λ s. some s.user_id ≡ some 7) rows
    × (length rows ≤ 50)
list_for_tenant_lem_example = list_for_tenant_lem subscription_model 7 one_row 50 0 (λ s. true)
