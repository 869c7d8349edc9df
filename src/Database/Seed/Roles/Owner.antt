-- ===== src/Database/Seed/Roles/Owner.antt =====
-- What the owner may do after the seeding.
use trelgream_self_userbot.Prelude.{
  ℕ, ◌≡◌, refl, sym, ap, ◌∙◌, subst, String, Bool, true, false, ◌&&◌, List, [], ◌∷◌, ◌++◌, any,
  ◌==◌, ==_refl, str_eq, arith, Bool-cases, inl, inr,
}
use trelgream_self_userbot.Core.Exec.{ok, lift, modify, >>=-eq-ok}
use trelgream_self_userbot.Database.Table.{select, insert}
use trelgream_self_userbot.Database.Table.Find.{All, All-map}
use trelgream_self_userbot.Database.Models.Admins.{Role, Permission, RolePermission, AdminRole}
use trelgream_self_userbot.Database.State.{Database}
use trelgream_self_userbot.Database.Seed.{exists}
use trelgream_self_userbot.Database.Seed.Roles
use trelgream_self_userbot.Database.Seed.Roles.Links.{
  any-append, any-implies, any-find, only-scalar_one, any-scalar_one, grant_roles-IsLinked,
  IsLinked,
}
use trelgream_self_userbot.Database.Seed.Roles.Returns.{seed_rbac-returns}
use trelgream_self_userbot.Auth.Permissions.{all_permissions}
use trelgream_self_userbot.Auth.Rbac.Grants.{any-map-select}
use trelgream_self_userbot.Auth.Rbac.{admin_has_permission, is_granted}

All-selected :
    (P : Role → Type 0) (test : Role → Bool) (xs : List Role)
    → All P xs
    → All (λ x. P x × (test x ≡ true)) (select test xs)
unfolding select
All-selected P test [] h = tt
All-selected P test (x ∷ xs) h = elim (Bool-cases (test x)) [
  | inl t ↦ rw t ((h.0, t), All-selected P test xs h.1)
  | inr t ↦ rw t (All-selected P test xs h.1)
]

-- what holds of every role holds of the one that `scalar_one` returns
All-scalar_one :
    (P : Role → Type 0) (test : Role → Bool) (xs : List Role) (x : Role)
    → All P xs
    → Roles.scalar_one (select test xs) ≡ ok x
    → P x × (test x ≡ true)
All-scalar_one P test xs x h e =
    (subst (All (λ y. P y × (test y ≡ true))) (only-scalar_one (select test xs) x e)
      (All-selected P test xs h)).0

module _ (i : ℕ) (role : Role) (db : Database) (admin_roles : List AdminRole)
    (one : Roles.scalar_one (select (λ r. str_eq r.name "OWNER") db.roles.rows) ≡ ok role)
    (given : db.admin_roles ≡ admin_roles ++ record { admin_id = i; role_id = role.id } ∷ []) where
  holder : any (λ a. a.role_id == role.id && a.admin_id == i) db.admin_roles ≡ true
  holder = rw given (
      any-append (λ a. a.role_id == role.id && a.admin_id == i) admin_roles _
      ∙ rw (==_refl role.id, ==_refl i) (ground arith))

  granted :
      (p : Permission)
      → any (Roles.is_link role.id p.id) db.role_permissions ≡ true
      → is_granted i db p ≡ true
  granted p h =
      any-implies (Roles.is_link role.id p.id) _ db.role_permissions
        (λ rp e.
          let same : role.id == rp.role_id ≡ true = ground (arith, e) in
          let reached : any
                (λ r.
                  r.id == rp.role_id
                  && any (λ a. a.role_id == r.id && a.admin_id == i) db.admin_roles)
                db.roles.rows
              ≡ true =
            any-scalar_one (λ r. str_eq r.name "OWNER") _ db.roles.rows role one
              (rw (same, holder) refl) in
          ground (arith, e, reached))
        h

  -- the code of a permission that is linked to the role
  has_permission :
      (code : String)
      → IsLinked role.id db.permissions.rows db.role_permissions code
      → admin_has_permission i code db ≡ true
  unfolding admin_has_permission
  has_permission code (p, q, h) =
      any-map-select (λ c. str_eq c code) (λ p. p.code) (is_granted i db) db.permissions.rows
      ∙ any-find (λ p. str_eq p.code code) (λ p. str_eq p.code code && is_granted i db p)
          db.permissions.rows p q (λ t. rw (t, granted p h) refl)

-- the parts of a seeding that returns
seed_rbac-eq :
    (db d : Database)
    → Roles.seed_rbac db ≡ (ok tt, d)
    → let s = Roles.seeded_tables db in
      (out : List RolePermission) × (Roles.grant_roles s.permissions.rows s.roles.rows
          s.role_permissions
        ≡ ok out)
      × (d ≡ record s { role_permissions = out })
unfolding Roles.seed_rbac
seed_rbac-eq db d h =
    let s = Roles.seeded_tables db in
    let (out, t, e, k) =
      >>=-eq-ok (lift (Roles.grant_roles s.permissions.rows s.roles.rows s.role_permissions))
        (λ links. modify (λ d. record d { role_permissions = links })) s h in
    (
      out,
      ap (λ p. p.0) e,
      ap (λ p. p.1) (sym k)
          ∙ ap {A = Database} (λ z. record z { role_permissions = out }) (sym (ap (λ p. p.1) e)),
    )

add_owner-eq :
    (tg_id : String) (db d : Database)
    → Roles.add_owner tg_id db ≡ (ok tt, d)
    → let s = record db { admins = insert (Roles.owner_row tg_id) db.admins } in
      (role : Role) × (Roles.scalar_one (select (λ r. str_eq r.name "OWNER") db.roles.rows)
        ≡ ok role)
      × (d ≡ record s {
        admin_roles =
            s.admin_roles ++ record { admin_id = db.admins.next_id; role_id = role.id } ∷ [];
      })
add_owner-eq tg_id db d h =
    let s = record db { admins = insert (Roles.owner_row tg_id) db.admins } in
    let (role, t, e, k) =
      >>=-eq-ok (lift (Roles.scalar_one (select (λ r. str_eq r.name "OWNER") s.roles.rows)))
        (λ role. modify (λ d. record d {
          admin_roles =
              d.admin_roles ++ record { admin_id = db.admins.next_id; role_id = role.id } ∷ [];
        }))
        s h in
    (
      role,
      ap (λ p. p.0) e,
      ap (λ p. p.1) (sym k)
          ∙ ap {A = Database}
              (λ z. record z {
                admin_roles =
                    z.admin_roles
                    ++ record { admin_id = db.admins.next_id; role_id = role.id } ∷ [];
              })
              (sym (ap (λ p. p.1) e)),
    )

-- the permissions of the owner whose seeding has returned
owner_permissions :
    (tg_id : String) (db d e : Database)
    → Roles.seed_rbac db ≡ (ok tt, d)
    → Roles.add_owner tg_id d ≡ (ok tt, e)
    → All (λ code. admin_has_permission d.admins.next_id code e ≡ true) all_permissions
owner_permissions tg_id db d e h added =
    let (out, g, is_d) = seed_rbac-eq db d h in
    let (role, one, is_e) = add_owner-eq tg_id d e added in
    let granted_d : Roles.grant_roles d.permissions.rows d.roles.rows db.role_permissions
        ≡ ok d.role_permissions =
      subst
        (λ z.
          Roles.grant_roles z.permissions.rows z.roles.rows db.role_permissions
          ≡ ok z.role_permissions)
        (sym is_d) g in
    let (linked, is_owner) =
      All-scalar_one
        (λ r. All (IsLinked r.id d.permissions.rows d.role_permissions) (Roles.codes_of r.name))
        (λ r. str_eq r.name "OWNER") d.roles.rows role
        (grant_roles-IsLinked d.permissions.rows d.roles.rows db.role_permissions d.role_permissions
          granted_d)
        one in
    let all : All (IsLinked role.id d.permissions.rows d.role_permissions) all_permissions =
      rw is_owner at linked in
    let z = record d {
      admins = insert (Roles.owner_row tg_id) d.admins;
      admin_roles = d.admin_roles ++ record { admin_id = d.admins.next_id; role_id = role.id } ∷ [];
    } in
    subst (λ z. All (λ code. admin_has_permission d.admins.next_id code z ≡ true) all_permissions)
      (sym is_e)
      (All-map (IsLinked role.id d.permissions.rows d.role_permissions)
        (λ code. admin_has_permission d.admins.next_id code z ≡ true) all_permissions
        (has_permission d.admins.next_id role z d.admin_roles one refl) all)

-- Let the seeding of the roles leave exactly one role of the name OWNER, the owner be set, and no admin
-- have the owner's Telegram id. Then the seeding of the roles and that of the owner after it return, and
-- the new admin, with the key that was next, has every permission.
pub seed_owner_lem :
    (to_str : ℕ → String) (owner_telegram_id : ℕ) (db : Database) (role : Role)
    → let d = (Roles.seed_rbac db).1 in
      select (λ r. str_eq r.name "OWNER") d.roles.rows ≡ role ∷ []
      → owner_telegram_id == 0 ≡ false
      → exists Roles.same Roles.owner_row (λ a. a.telegram_id) (to_str owner_telegram_id) d.admins
        ≡ false
      → let r = Roles.seed_owner to_str owner_telegram_id d in
        ((Roles.seed_rbac db).0 ≡ ok tt)
        × (r.0 ≡ ok tt)
        × All (λ code. admin_has_permission d.admins.next_id code r.1 ≡ true) all_permissions
unfolding Roles.seed_owner
seed_owner_lem to_str owner db role one set new =
    let d = (Roles.seed_rbac db).1 in
    let tg_id = to_str owner in
    let returns : (Roles.add_owner tg_id d).0 ≡ ok tt = rw one in
    let have =
      owner_permissions tg_id db d (Roles.add_owner tg_id d).1 (λ i. (seed_rbac-returns db i, d))
        (λ i. (returns i, (Roles.add_owner tg_id d).1)) in
    rw (set, new) (seed_rbac-returns db, returns, have)
