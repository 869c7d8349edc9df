-- ===== src/Auth/Rbac.antt =====
-- app/auth/rbac.py
pub mod Grants
use trelgream_self_userbot.Prelude.{ℕ, String, Bool, ◌&&◌, Option, List, map, any, ◌==◌, str_eq}
use trelgream_self_userbot.Prelude.Text.{Text, codes, decimal, text_eq}
use trelgream_self_userbot.Core.Exec.{ok, Exec}
use trelgream_self_userbot.Database.Table.{select, one_or_none}
use trelgream_self_userbot.Database.Models.Admins.{Admin, Permission}
use trelgream_self_userbot.Database.State.{Database}

-- whether the joins of a permission with the roles and their holders reach the admin
abbrev pub is_granted : ℕ → Database → Permission → Bool
is_granted admin_id db p =
    any
      (λ rp.
        rp.permission_id == p.id
        && any
            (λ r.
              r.id == rp.role_id
              && any (λ a. a.role_id == r.id && a.admin_id == admin_id) db.admin_roles)
            db.roles.rows)
      db.role_permissions

-- the set of codes
unfoldable pub get_admin_permissions : ℕ → Database → List String
get_admin_permissions admin_id db =
    map (λ p. p.code) (select (is_granted admin_id db) db.permissions.rows)

unfoldable pub admin_has_permission : ℕ → String → Database → Bool
unfolding get_admin_permissions
admin_has_permission admin_id permission db =
    any (λ code. str_eq code permission) (get_admin_permissions admin_id db)

-- `str(telegram_id)`
unfoldable pub get_admin_by_telegram_id : ℕ → Exec Database (Option Admin)
unfolding text_eq decimal
get_admin_by_telegram_id telegram_id db = (
  one_or_none (select (λ a. text_eq (codes a.telegram_id) (decimal telegram_id)) db.admins.rows),
  db,
)
