-- ===== src/Auth/Samples.antt =====
-- An admin with the role SUPPORT.
use trelgream_self_userbot.Prelude.{◌≡◌, ◌↔◌, refl, true, false, none, [], ◌∷◌}
use trelgream_self_userbot.Database.Table.{select}
use trelgream_self_userbot.Database.State.{Database}
use trelgream_self_userbot.Database.Empty.{empty_database}
use trelgream_self_userbot.Auth.Permissions.{support_manage, users_edit}
use trelgream_self_userbot.Auth.Rbac.{admin_has_permission}
use trelgream_self_userbot.Auth.Rbac.Grants.{HasGrant, admin_has_permission_lem}

abbrev office : Database
office = record empty_database {
  admins = record {
    rows = record { id = 1; telegram_id = "55"; name = none; is_active = true } ∷ [];
    next_id = 2;
  };
  roles = record {
    rows = record { id = 5; name = "SUPPORT"; description = none } ∷ [];
    next_id = 6;
  };
  permissions = record {
    rows =
        record { id = 1; code = users_edit; description = none }
        ∷ record { id = 2; code = support_manage; description = none }
        ∷ [];
    next_id = 3;
  };
  role_permissions = record { role_id = 5; permission_id = 2 } ∷ [];
  admin_roles = record { admin_id = 1; role_id = 5 } ∷ [];
}

manages : admin_has_permission 1 support_manage office ≡ true
unfolding admin_has_permission select
manages = refl

does_not_edit : admin_has_permission 1 users_edit office ≡ false
unfolding admin_has_permission select
does_not_edit = refl

admin_has_permission_lem_example :
    (admin_has_permission 1 support_manage office ≡ true) ↔ HasGrant 1 support_manage office
admin_has_permission_lem_example = admin_has_permission_lem 1 support_manage office
