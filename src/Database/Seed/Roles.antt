-- ===== src/Database/Seed/Roles.antt =====
-- `seed_rbac` and `seed_owner` of app/database/seed.py. The codes of permissions and the names of roles
-- are unique, so the dictionaries have one row for each.
pub mod Links
pub mod Returns
pub mod Owner
mod Samples
use trelgream_self_userbot.Prelude.{
  ℕ, String, Bool, true, false, ◌&&◌, ◌||◌, Option, none, some, List, [], ◌∷◌, ◌++◌, any, ◌==◌,
  str_eq, if◌then◌else◌,
}
use trelgream_self_userbot.Core.Errors.{key_error, no_result_found, multiple_results_found}
use trelgream_self_userbot.Core.Exec.{Result, ok, err, Exec, pure, get, modify, lift, ◌>>=◌, ◌>>◌}
use trelgream_self_userbot.Database.Table.{Table, insert, find, select}
use trelgream_self_userbot.Database.Models.Admins.{
  Admin, Role, Permission, RolePermission, AdminRole,
}
use trelgream_self_userbot.Database.State.{Database}
use trelgream_self_userbot.Database.Seed.{seed_each, exists}
use trelgream_self_userbot.Database.Seed.Tables.{seed_plans, seed_modules}
use trelgream_self_userbot.Modules.Registry.{ModuleMetadata}
use trelgream_self_userbot.Auth.Permissions.{all_permissions, default_permissions, role_names}

abbrev pub same : String → String
same s = s

-- `Permission(code=code)` and `Role(name=name)`
abbrev pub permission_row : (code : String) → ℕ → Permission
permission_row code i = record { id = i; code = code; description = none }

abbrev pub role_row : (name : String) → ℕ → Role
role_row name i = record { id = i; name = name; description = none }

abbrev pub codes_of : (role_name : String) → List String
codes_of role_name =
    if str_eq role_name "OWNER" then all_permissions else default_permissions role_name

abbrev pub is_link : (role_id permission_id : ℕ) → RolePermission → Bool
is_link role_id permission_id rp = rp.role_id == role_id && rp.permission_id == permission_id

abbrev pub link : (role_id permission_id : ℕ) → List RolePermission → List RolePermission
link role_id permission_id links =
    if any (is_link role_id permission_id) links
    then links
    else links ++ record { role_id = role_id; permission_id = permission_id } ∷ []

-- `perms[code]`
abbrev pub permission_of : (code : String) → List Permission → Option Permission
permission_of code perms = find (λ p. str_eq p.code code) perms

abbrev pub link_found :
    (role_id : ℕ) → Option Permission → List RolePermission → Result (List RolePermission)
link_found role_id none links = err key_error
link_found role_id (some p) links = ok (link role_id p.id links)

abbrev pub and_then :
    Result (List RolePermission)
    → (List RolePermission → Result (List RolePermission))
    → Result (List RolePermission)
and_then (ok links) f = f links
and_then (err e) f = err e

unfoldable pub grant_codes :
    (role_id : ℕ) (perms : List Permission)
    → List String
    → List RolePermission
    → Result (List RolePermission)
unfolding find
grant_codes role_id perms [] links = ok links
grant_codes role_id perms (code ∷ codes) links =
    and_then (link_found role_id (permission_of code perms) links) (grant_codes role_id perms codes)

unfoldable pub grant_roles :
    (perms : List Permission) → List Role → List RolePermission → Result (List RolePermission)
unfolding grant_codes default_permissions
grant_roles perms [] links = ok links
grant_roles perms (r ∷ roles) links =
    and_then (grant_codes r.id perms (codes_of r.name) links) (grant_roles perms roles)

abbrev pub seeded_tables : Database → Database
seeded_tables db = record db {
  permissions = seed_each same permission_row (λ p. p.code) all_permissions db.permissions;
  roles = seed_each same role_row (λ r. r.name) role_names db.roles;
}

unfoldable pub seed_rbac : Exec Database (Unit {0})
unfolding seed_each grant_roles
seed_rbac = do
  modify seeded_tables
  db ← get
  links ← lift (grant_roles db.permissions.rows db.roles.rows db.role_permissions)
  modify (λ d. record d { role_permissions = links })

-- `scalar_one()`
abbrev pub scalar_one : List Role → Result Role
scalar_one [] = err no_result_found
scalar_one (r ∷ []) = ok r
scalar_one (r ∷ s ∷ roles) = err multiple_results_found

abbrev pub owner_row : (tg_id : String) → ℕ → Admin
owner_row tg_id i = record { id = i; telegram_id = tg_id; name = some "Owner"; is_active = true }

abbrev pub add_owner : (tg_id : String) → Exec Database (Unit {0})
add_owner tg_id = do
  before ← get
  modify (λ db. record db { admins = insert (owner_row tg_id) db.admins })
  db ← get
  owner_role ← lift (scalar_one (select (λ r. str_eq r.name "OWNER") db.roles.rows))
  modify (λ d. record d {
    admin_roles =
        d.admin_roles ++ record { admin_id = before.admins.next_id; role_id = owner_role.id } ∷ [];
  })

-- `to_str` is `str`
unfoldable pub seed_owner : (to_str : ℕ → String) (owner_telegram_id : ℕ) → Exec Database (Unit {0})
unfolding insert select
seed_owner to_str owner_telegram_id = do
  db ← get
  let known = exists same owner_row (λ a. a.telegram_id) (to_str owner_telegram_id) db.admins
  if owner_telegram_id == 0 || known then pure tt else add_owner (to_str owner_telegram_id)

-- The session is committed when all have returned.
unfoldable pub seed_all :
    (registered : List ModuleMetadata) (to_str : ℕ → String) (owner_telegram_id : ℕ)
    → Exec Database (Unit {0})
unfolding seed_plans seed_rbac seed_modules seed_owner
seed_all registered to_str owner_telegram_id = do
  modify seed_plans
  seed_rbac
  modify (seed_modules registered)
  seed_owner to_str owner_telegram_id
