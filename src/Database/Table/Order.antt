-- ===== src/Database/Table/Order.antt =====
-- ORDER BY, and what it leaves alone.
use trelgream_self_userbot.Prelude.{
  suc, ◌≡◌, refl, Bool, true, false, List, [], ◌∷◌, ◌++◌, ap, ◌∙◌, if◌then◌else◌, arith, length,
  any, ◌||◌, Bool-cases, inl, inr,
}
use trelgream_self_userbot.Database.Table.Find.{All}

module _ {Row : Type 0} (before : Row → Row → Bool) where
  insert_by : Row → List Row → List Row
  insert_by r [] = r ∷ []
  insert_by r (q ∷ rs) = let rest = insert_by r rs in if before q r then q ∷ rest else r ∷ q ∷ rs

  -- rows that neither precedes keep their order
  unfoldable pub order_by : List Row → List Row
  unfolding insert_by
  order_by [] = []
  order_by (r ∷ rs) = insert_by r (order_by rs)

  length-insert_by : (r : Row) (rs : List Row) → length (insert_by r rs) ≡ suc (length rs)
  unfolding insert_by
  length-insert_by r [] = refl
  length-insert_by r (q ∷ rs) = ground (arith, length-insert_by r rs)

  pub length-order_by : (rs : List Row) → length (order_by rs) ≡ length rs
  unfolding order_by
  length-order_by [] = refl
  length-order_by (r ∷ rs) = ground (arith, length-insert_by r (order_by rs), length-order_by rs)

  any-insert_by :
      (test : Row → Bool) (r : Row) (rs : List Row)
      → any test (insert_by r rs) ≡ test r || any test rs
  unfolding insert_by
  any-insert_by test r [] = refl
  any-insert_by test r (q ∷ rs) = ground (arith, any-insert_by test r rs)

  pub any-order_by : (test : Row → Bool) (rs : List Row) → any test (order_by rs) ≡ any test rs
  unfolding order_by
  any-order_by test [] = refl
  any-order_by test (r ∷ rs) =
      ground (arith, any-insert_by test r (order_by rs), any-order_by test rs)

  All-insert_by :
      (P : Row → Type 0) (r : Row) (rs : List Row) → P r → All P rs → All P (insert_by r rs)
  unfolding insert_by
  All-insert_by P r [] p h = (p, tt)
  All-insert_by P r (q ∷ rs) p h = elim (Bool-cases (before q r)) [
    | inl e ↦ rw e (h.0, All-insert_by P r rs p h.1)
    | inr e ↦ rw e (p, h)
  ]

  pub All-order_by : (P : Row → Type 0) (rs : List Row) → All P rs → All P (order_by rs)
  unfolding order_by
  All-order_by P [] h = tt
  All-order_by P (r ∷ rs) h = All-insert_by P r (order_by rs) h.0 (All-order_by P rs h.1)

  -- a row that precedes all the others stands first
  pub order_by-last :
      (n : Row) (rs : List Row)
      → All (λ r. before n r ≡ true) rs
      → (rest : List Row) × (order_by (rs ++ n ∷ []) ≡ n ∷ rest)
  unfolding order_by insert_by
  order_by-last n [] h = ([], refl)
  order_by-last n (r ∷ rs) h =
      let (rest, e) = order_by-last n rs h.1 in (insert_by r rest, ap (insert_by r) e ∙ rw h.0)

  -- no row is followed at once by one that goes before it
  abbrev pub Ordered : List Row → Type 0
  Ordered [] = Unit
  Ordered (r ∷ []) = Unit
  Ordered (r ∷ q ∷ rs) = (before q r ≡ false) × Ordered (q ∷ rs)

  module _ (asym : (r q : Row) → before q r ≡ true → before r q ≡ false) where
    -- `q` may stand before what `insert_by r rs` begins with
    insert_by-Ordered :
        (r q : Row) (rs : List Row)
        → before q r ≡ true
        → Ordered (q ∷ rs)
        → Ordered (insert_by r rs)
        → Ordered (q ∷ insert_by r rs)
    unfolding insert_by
    insert_by-Ordered r q [] e h k = (asym r q e, tt)
    insert_by-Ordered r q (p ∷ rs) e h k = elim (Bool-cases (before p r)) [
      | inl t ↦ rw t (h.0, rw t at k)
      | inr t ↦ rw t (asym r q e, rw t at k)
    ]

    Ordered-tail : (q : Row) (rs : List Row) → Ordered (q ∷ rs) → Ordered rs
    Ordered-tail q [] h = tt
    Ordered-tail q (p ∷ rs) h = h.1

    Ordered-insert_by : (r : Row) (rs : List Row) → Ordered rs → Ordered (insert_by r rs)
    unfolding insert_by
    Ordered-insert_by r [] h = tt
    Ordered-insert_by r (q ∷ rs) h =
        let ih = Ordered-insert_by r rs (Ordered-tail q rs h) in
        elim (Bool-cases (before q r)) [
          | inl t ↦ rw t (insert_by-Ordered r q rs t h ih)
          | inr t ↦ rw t (t, h)
        ]

    pub order_by-Ordered : (rs : List Row) → Ordered (order_by rs)
    unfolding order_by
    order_by-Ordered [] = tt
    order_by-Ordered (r ∷ rs) = Ordered-insert_by r (order_by rs) (order_by-Ordered rs)
