-- ===== src/Database/Seed/Roles/Returns.antt =====
-- `seed_rbac` finds every code that it looks up.
use trelgream_self_userbot.Prelude.{
  ℕ, ◌≡◌, refl, subst, String, Bool, true, false, ◌&&◌, some, List, [], ◌∷◌, any, str_eq, eq_iff,
  arith, Bool-cases, inl, inr, if◌then◌else◌,
}
use trelgream_self_userbot.Core.Exec.{ok}
use trelgream_self_userbot.Database.Table.{find}
use trelgream_self_userbot.Database.Table.Find.{All}
use trelgream_self_userbot.Database.Models.Admins.{Role, Permission, RolePermission}
use trelgream_self_userbot.Database.State.{Database}
use trelgream_self_userbot.Database.Seed.{each_exists}
use trelgream_self_userbot.Database.Seed.Roles
use trelgream_self_userbot.Auth.Permissions.{
  all_permissions, super_admin_permissions, admin_permissions, moderator_permissions,
  support_permissions, default_permissions,
}

find-any :
    {A : Type 0} (t : A → Bool) (xs : List A) → any t xs ≡ true → (x : A) × (find t xs ≡ some x)
unfolding find
find-any t [] h = cc
find-any t (x ∷ xs) h = elim (Bool-cases (t x)) [
  | inl e ↦ (x, rw e)
  | inr e ↦ let (y, f) = find-any t xs (ground (arith, h, e)) in (y, rw e f)
]

-- the strings of the one list that stand in the other
abbrev within : List String → List String → Bool
within [] xs = true
within (y ∷ ys) xs = any (λ x. str_eq x y) xs && within ys xs

All-any :
    (P : String → Type 0) (y : String) (xs : List String)
    → any (λ x. str_eq x y) xs ≡ true
    → All P xs
    → P y
All-any P y [] h a = cc
All-any P y (x ∷ xs) h a = elim (Bool-cases (str_eq x y)) [
  | inl e ↦ subst P ((eq_iff x y).0 e) a.0
  | inr e ↦ All-any P y xs (ground (arith, h, e)) a.1
]

All-within : (P : String → Type 0) (ys xs : List String) → within ys xs ≡ true → All P xs → All P ys
All-within P [] xs h a = tt
All-within P (y ∷ ys) xs h a =
    (All-any P y xs (ground (arith, h)) a, All-within P ys xs (ground (arith, h)) a)

within_if :
    (b : Bool) (xs ys all : List String)
    → within xs all ≡ true
    → within ys all ≡ true
    → within (if b then xs else ys) all ≡ true
within_if true xs ys all h k = h
within_if false xs ys all h k = k

within-codes_of : (name : String) → within (Roles.codes_of name) all_permissions ≡ true
unfolding default_permissions
within-codes_of name =
    within_if (str_eq name "OWNER") all_permissions (default_permissions name) all_permissions refl
      (within_if (str_eq name "SUPER_ADMIN") super_admin_permissions _ all_permissions refl (
        within_if (str_eq name "ADMIN") admin_permissions _ all_permissions refl (
          within_if (str_eq name "MODERATOR") moderator_permissions _ all_permissions refl
            (within_if (str_eq name "SUPPORT") support_permissions [] all_permissions refl refl))))

module _ (perms : List Permission) where
  abbrev IsThere : String → Type 0
  IsThere code = any (λ p. str_eq p.code code) perms ≡ true

  returns-grant_codes :
      (r : ℕ) (codes : List String) (links : List RolePermission)
      → All IsThere codes
      → (out : List RolePermission) × (Roles.grant_codes r perms codes links ≡ ok out)
  unfolding Roles.grant_codes
  returns-grant_codes r [] links h = (links, refl)
  returns-grant_codes r (code ∷ codes) links h =
      let (p, f) = find-any (λ p. str_eq p.code code) perms h.0 in
      let (out, k) = returns-grant_codes r codes (Roles.link r p.id links) h.1 in (out, rw f k)

  returns-grant_roles :
      (roles : List Role) (links : List RolePermission)
      → All IsThere all_permissions
      → (out : List RolePermission) × (Roles.grant_roles perms roles links ≡ ok out)
  unfolding Roles.grant_roles
  returns-grant_roles [] links h = (links, refl)
  returns-grant_roles (r ∷ roles) links h =
      let codes = Roles.codes_of r.name in
      let (l, k) =
        returns-grant_codes r.id codes links
          (All-within IsThere codes all_permissions (within-codes_of r.name) h) in
      let (out, m) = returns-grant_roles roles l h in (out, rw k m)

pub seed_rbac-returns : (db : Database) → (Roles.seed_rbac db).0 ≡ ok tt
unfolding Roles.seed_rbac
seed_rbac-returns db =
    let s = Roles.seeded_tables db in
    let there =
      each_exists Roles.same Roles.permission_row (λ p. p.code) (λ c i. refl) all_permissions
        db.permissions in
    let (out, e) = returns-grant_roles s.permissions.rows s.roles.rows s.role_permissions there in
    rw e
