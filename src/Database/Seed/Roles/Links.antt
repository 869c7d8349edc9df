-- ===== src/Database/Seed/Roles/Links.antt =====
-- Which permissions the roles are linked to.
use trelgream_self_userbot.Prelude.{
  ℕ, ◌≡◌, refl, sym, ap, ◌∙◌, subst, String, Bool, true, false, ◌||◌, Option, none, some, List, [],
  ◌∷◌, ◌++◌, any, ==_refl, arith, Bool-cases, inl, inr,
}
use trelgream_self_userbot.Core.Exec.{Result, ok, err}
use trelgream_self_userbot.Database.Table.{find, select}
use trelgream_self_userbot.Database.Table.Find.{All}
use trelgream_self_userbot.Database.Models.Admins.{Role, Permission, RolePermission}
use trelgream_self_userbot.Database.Seed.Roles

or_rest : (b : Bool) {c d : Bool} → b || c ≡ true → (c ≡ true → d ≡ true) → b || d ≡ true
or_rest true h f = refl
or_rest false h f = f h

module _ {A : Type 0} where
  pub any-append : (f : A → Bool) (xs ys : List A) → any f (xs ++ ys) ≡ any f xs || any f ys
  any-append f [] ys = refl
  any-append f (x ∷ xs) ys = ground (arith, any-append f xs ys)

  pub any-implies :
      (f g : A → Bool) (xs : List A)
      → ((x : A) → f x ≡ true → g x ≡ true)
      → any f xs ≡ true
      → any g xs ≡ true
  any-implies f g [] h e = e
  any-implies f g (x ∷ xs) h e = elim (Bool-cases (f x)) [
    | inl t ↦ ground (arith, h x t)
    | inr t ↦ ground (arith, any-implies f g xs h (ground (arith, t, e)))
  ]

  pub any-find :
      (test f : A → Bool) (xs : List A) (x : A)
      → find test xs ≡ some x
      → (test x ≡ true → f x ≡ true)
      → any f xs ≡ true
  unfolding find
  any-find test f [] x e h = ground arith
  any-find test f (y ∷ xs) x e h = elim (Bool-cases (test y)) [
    | inl t ↦
        let same : some y ≡ some x = rw (t, find) at e in
        let here : y ≡ x = cc in
        ground (arith, subst (λ z. f z ≡ true) (sym here) (h (rw here at t)))
    | inr t ↦ ground (arith, any-find test f xs x (rw (t, find) at e) h)
  ]

  any-select : (test f : A → Bool) (xs : List A) → any f (select test xs) ≡ true → any f xs ≡ true
  unfolding select
  any-select test f [] h = h
  any-select test f (y ∷ xs) h = elim (Bool-cases (test y)) [
    | inl t ↦
        let k : f y || any f (select test xs) ≡ true = rw (t, select) at h in
        or_rest (f y) k (any-select test f xs)
    | inr t ↦ ground (arith, any-select test f xs (rw (t, select) at h))
  ]

pub only-scalar_one : (xs : List Role) (x : Role) → Roles.scalar_one xs ≡ ok x → xs ≡ x ∷ []
only-scalar_one [] x e = cc
only-scalar_one (y ∷ []) x e = cc
only-scalar_one (y ∷ z ∷ xs) x e = cc

and_then-eq :
    (r : Result (List RolePermission)) (f : List RolePermission → Result (List RolePermission))
    (out : List RolePermission)
    → Roles.and_then r f ≡ ok out
    → (links : List RolePermission) × (r ≡ ok links) × (f links ≡ ok out)
and_then-eq (ok links) f out e = (links, refl, e)
and_then-eq (err x) f out e = cc

pub any-scalar_one :
    (test f : Role → Bool) (xs : List Role) (x : Role)
    → Roles.scalar_one (select test xs) ≡ ok x
    → f x ≡ true
    → any f xs ≡ true
any-scalar_one test f xs x e h =
    any-select test f xs (ap (any f) (only-scalar_one (select test xs) x e) ∙ rw h)

any-link_own :
    (r p : ℕ) (links : List RolePermission) → any (Roles.is_link r p) (Roles.link r p links) ≡ true
any-link_own r p links = elim (Bool-cases (any (Roles.is_link r p) links)) [
  | inl e ↦ rw e e
  | inr e ↦ rw e (any-append (Roles.is_link r p) links _ ∙ rw (e, ==_refl r, ==_refl p))
]

-- the links that are there stay
abbrev Stays : List RolePermission → List RolePermission → Type 0
Stays links out = (t : RolePermission → Bool) → any t links ≡ true → any t out ≡ true

Stays-link : (r p : ℕ) (links : List RolePermission) → Stays links (Roles.link r p links)
Stays-link r p links t h = elim (Bool-cases (any (Roles.is_link r p) links)) [
  | inl e ↦ rw e h
  | inr e ↦ rw e (any-append t links _ ∙ rw h)
]

-- the permission of the code is linked to the role
abbrev pub IsLinked : ℕ → List Permission → List RolePermission → String → Type 0
IsLinked r perms out code =
    (p : Permission) × (Roles.permission_of code perms ≡ some p)
    × (any (Roles.is_link r p.id) out ≡ true)

Stays-grant_codes :
    (r : ℕ) (perms : List Permission) (codes : List String) (links out : List RolePermission)
    → Roles.grant_codes r perms codes links ≡ ok out
    → Stays links out
unfolding Roles.grant_codes
Stays-grant_codes r perms [] links out e t h = let same : links ≡ out = cc in rw same at h
Stays-grant_codes r perms (code ∷ codes) links out e t h =
    let (l, d, k) =
      and_then-eq (Roles.link_found r (Roles.permission_of code perms) links)
        (Roles.grant_codes r perms codes) out e in
    Stays-grant_codes r perms codes l out k t
      (Stays-link_found (Roles.permission_of code perms) l d)
  where
    Stays-link_found :
        (o : Option Permission) (l : List RolePermission)
        → Roles.link_found r o links ≡ ok l
        → any t l ≡ true
    Stays-link_found none l d = cc
    Stays-link_found (some p) l d =
        let same : Roles.link r p.id links ≡ l = cc in rw same at (Stays-link r p.id links t h)

grant_codes-IsLinked :
    (r : ℕ) (perms : List Permission) (codes : List String) (links out : List RolePermission)
    → Roles.grant_codes r perms codes links ≡ ok out
    → All (IsLinked r perms out) codes
unfolding Roles.grant_codes
grant_codes-IsLinked r perms [] links out e = tt
grant_codes-IsLinked r perms (code ∷ codes) links out e =
    let (l, d, k) =
      and_then-eq (Roles.link_found r (Roles.permission_of code perms) links)
        (Roles.grant_codes r perms codes) out e in
    (
      IsLinked-found (Roles.permission_of code perms) refl l d k,
      grant_codes-IsLinked r perms codes l out k,
    )
  where
    IsLinked-found :
        (o : Option Permission)
        → Roles.permission_of code perms ≡ o
        → (l : List RolePermission) → Roles.link_found r o links ≡ ok l
        → Roles.grant_codes r perms codes l ≡ ok out
        → IsLinked r perms out code
    IsLinked-found none q l d k = cc
    IsLinked-found (some p) q l d k =
        let same : Roles.link r p.id links ≡ l = cc in
        (
          p,
          q,
          Stays-grant_codes r perms codes l out k (Roles.is_link r p.id)
              (rw same at (any-link_own r p.id links)),
        )

Stays-grant_roles :
    (perms : List Permission) (roles : List Role) (links out : List RolePermission)
    → Roles.grant_roles perms roles links ≡ ok out
    → Stays links out
unfolding Roles.grant_roles
Stays-grant_roles perms [] links out e t h = let same : links ≡ out = cc in rw same at h
Stays-grant_roles perms (r ∷ roles) links out e t h =
    let (l, d, k) =
      and_then-eq (Roles.grant_codes r.id perms (Roles.codes_of r.name) links)
        (Roles.grant_roles perms roles) out e in
    Stays-grant_roles perms roles l out k t
      (Stays-grant_codes r.id perms (Roles.codes_of r.name) links l d t h)

IsLinked-later :
    (r : ℕ) (perms : List Permission) (codes : List String) (links out : List RolePermission)
    → Stays links out
    → All (IsLinked r perms links) codes
    → All (IsLinked r perms out) codes
IsLinked-later r perms [] links out s h = tt
IsLinked-later r perms (code ∷ codes) links out s ((p, q, k), h) =
    ((p, q, s (Roles.is_link r p.id) k), IsLinked-later r perms codes links out s h)

-- every role has the permissions of its codes
pub grant_roles-IsLinked :
    (perms : List Permission) (roles : List Role) (links out : List RolePermission)
    → Roles.grant_roles perms roles links ≡ ok out
    → All (λ r. All (IsLinked r.id perms out) (Roles.codes_of r.name)) roles
unfolding Roles.grant_roles
grant_roles-IsLinked perms [] links out e = tt
grant_roles-IsLinked perms (r ∷ roles) links out e =
    let (l, d, k) =
      and_then-eq (Roles.grant_codes r.id perms (Roles.codes_of r.name) links)
        (Roles.grant_roles perms roles) out e in
    (
      IsLinked-later r.id perms (Roles.codes_of r.name) l out
          (Stays-grant_roles perms roles l out k)
          (grant_codes-IsLinked r.id perms (Roles.codes_of r.name) links l d),
      grant_roles-IsLinked perms roles l out k,
    )
