-- ===== src/Database/Seed/Roles/Samples.antt =====
-- The seeding of an empty database.
use trelgream_self_userbot.Prelude.{◌≡◌, refl, true, [], ◌∷◌, str_eq, none}
use trelgream_self_userbot.Core.Exec.{ok}
use trelgream_self_userbot.Database.Table.{select, insert, find}
use trelgream_self_userbot.Database.Table.Find.{All}
use trelgream_self_userbot.Database.Models.Admins.{Role}
use trelgream_self_userbot.Database.Empty.{empty_database}
use trelgream_self_userbot.Database.Seed.Roles
use trelgream_self_userbot.Database.Seed.Roles.Owner.{seed_owner_lem}
use trelgream_self_userbot.Auth.Permissions.{all_permissions}
use trelgream_self_userbot.Auth.Rbac.{admin_has_permission}

abbrev owner_role : Role
owner_role = record { id = 1; name = "OWNER"; description = none }

one_owner :
    select (λ r. str_eq r.name "OWNER") (Roles.seed_rbac empty_database).1.roles.rows
    ≡ owner_role ∷ []
unfolding Roles.seed_rbac select find insert
one_owner = refl

seed_owner_lem_example :
    ((Roles.seed_rbac empty_database).0 ≡ ok tt)
    × ((Roles.seed_owner (λ n. "77") 77 (Roles.seed_rbac empty_database).1).0 ≡ ok tt)
    × All
        (λ code.
          admin_has_permission 1 code
            (Roles.seed_owner (λ n. "77") 77 (Roles.seed_rbac empty_database).1).1
          ≡ true)
        all_permissions
unfolding Roles.seed_rbac
seed_owner_lem_example = seed_owner_lem (λ n. "77") 77 empty_database owner_role one_owner refl refl
