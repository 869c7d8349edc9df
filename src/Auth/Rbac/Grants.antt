-- ===== src/Auth/Rbac/Grants.antt =====
-- What it means to hold a permission.
use trelgream_self_userbot.Prelude.{
  ℕ, ◌≡◌, ◌↔◌, ◌⊎◌, inl, inr, refl, sym, subst, String, Bool, true, false, ◌&&◌, List, [], ◌∷◌, map,
  any, ==_iff, str_eq, eq_iff, arith, Bool-cases,
}
use trelgream_self_userbot.Database.Table.{select}
use trelgream_self_userbot.Database.State.{Database}
use trelgream_self_userbot.Auth.Rbac.{admin_has_permission, is_granted}

-- an element of the list has the property
abbrev pub Some : {A : Type 0} → (A → Type 0) → List A → Type 0
Some P [] = true ≡ false
Some P (x ∷ xs) = P x ⊎ Some P xs

module _ {A : Type 0} (test : A → Bool) (P : A → Type 0)
    (same : (x : A) → (test x ≡ true) ↔ P x) where
  any_forward : (xs : List A) → any test xs ≡ true → Some P xs
  any_forward [] h = sym h
  any_forward (x ∷ xs) h = elim (Bool-cases (test x)) [
    | inl e ↦ inl ((same x).0 e)
    | inr e ↦ inr (any_forward xs (ground arith))
  ]

  any_backward : (xs : List A) → Some P xs → any test xs ≡ true
  any_backward [] h = sym h
  any_backward (x ∷ xs) (inl p) = rw ((same x).1 p) refl
  any_backward (x ∷ xs) (inr s) = ground (arith, any_backward xs s)

  any_iff : (xs : List A) → (any test xs ≡ true) ↔ Some P xs
  any_iff xs = (any_forward xs, any_backward xs)

and_iff : {P Q : Type 0} (a b : Bool) → (a ≡ true) ↔ P → (b ≡ true) ↔ Q → (a && b ≡ true) ↔ (P × Q)
and_iff true b p q = (λ h. (p.0 refl, q.0 h), λ h. q.1 h.1)
and_iff false b p q = (λ h. cc h, λ h. p.1 h.0)

pub any-map-select :
    {A B : Type 0} (q : B → Bool) (f : A → B) (t : A → Bool) (xs : List A)
    → any q (map f (select t xs)) ≡ any (λ x. q (f x) && t x) xs
unfolding select
any-map-select q f t [] = refl
any-map-select q f t (x ∷ xs) = ground (arith, any-map-select q f t xs)

-- a row of each of the four tables, joined by their keys
abbrev pub HasGrant : (admin_id : ℕ) (permission : String) → Database → Type 0
HasGrant admin_id permission db =
    Some
      (λ p.
        (p.code ≡ permission)
        × Some
            (λ rp.
              (rp.permission_id ≡ p.id)
              × Some
                  (λ r.
                    (r.id ≡ rp.role_id)
                    × Some (λ a. (a.role_id ≡ r.id) × (a.admin_id ≡ admin_id)) db.admin_roles)
                  db.roles.rows)
            db.role_permissions)
      db.permissions.rows

-- An admin has a permission exactly if one of the roles of the admin has it: rows of admin_roles, roles,
-- role_permissions and permissions lead from the admin to the code.
pub admin_has_permission_lem :
    (admin_id : ℕ) (permission : String) (db : Database)
    → (admin_has_permission admin_id permission db ≡ true) ↔ HasGrant admin_id permission db
unfolding admin_has_permission
admin_has_permission_lem admin_id permission db =
    subst (λ b. (b ≡ true) ↔ HasGrant admin_id permission db)
      (sym (
        any-map-select (λ code. str_eq code permission) (λ p. p.code) (is_granted admin_id db)
          db.permissions.rows))
      (any_iff _ _
        (λ p. and_iff _ _ (eq_iff p.code permission) (
          any_iff _ _
            (λ rp. and_iff _ _ (==_iff rp.permission_id p.id) (
              any_iff _ _
                (λ r. and_iff _ _ (==_iff r.id rp.role_id) (
                  any_iff _ _
                    (λ a. and_iff _ _ (==_iff a.role_id r.id) (==_iff a.admin_id admin_id))
                    db.admin_roles))
                db.roles.rows))
            db.role_permissions))
        db.permissions.rows)
