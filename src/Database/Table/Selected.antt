-- ===== src/Database/Table/Selected.antt =====
-- The rows of a query, changed one by one through their keys.
use trelgream_self_userbot.Prelude.{
  ℕ, ◌≡◌, ◌≢◌, refl, Bool, true, false, List, [], ◌∷◌, any, ◌==◌, if◌then◌else◌, arith, Bool-cases,
  inl, inr,
}
use trelgream_self_userbot.Database.Table.{select, change}
use trelgream_self_userbot.Database.Table.Find.{All, All-both}
use trelgream_self_userbot.Database.Table.Keyed.{Distinct}

module _ {Row : Type 0} (key : Row → ℕ) where
  -- whether a row has the key
  abbrev pub has_key : List Row → ℕ → Bool
  has_key rs k = any (λ r. k == key r) rs

module _ {Row : Type 0} (test : Row → Bool) where
  pub All-select :
      (P : Row → Type 0) (rs : List Row)
      → All P (select test rs)
      → All (λ r. test r ≡ true → P r) rs
  unfolding select
  All-select P [] h = tt
  All-select P (r ∷ rs) h = elim (Bool-cases (test r)) [
    | inl e ↦ let k = rw e at h in ((λ t. k.0), All-select P rs k.1)
    | inr e ↦ let k = rw e at h in ((λ t. cc), All-select P rs k)
  ]

  -- a change that takes each of its rows out of its test
  pub select-change_done :
      (f : Row → Row) (rs : List Row)
      → All (λ r. test r ≡ true → test (f r) ≡ false) rs
      → select test (change test f rs) ≡ []
  unfolding select change
  select-change_done f [] h = refl
  select-change_done f (r ∷ rs) h = ground (arith, h.0, select-change_done f rs h.1)

  module _ (key : Row → ℕ) where
    has_key-select_ne :
        (k : ℕ) (rs : List Row) → All (λ q. key q ≢ k) rs → has_key key (select test rs) k ≡ false
    unfolding select
    has_key-select_ne k [] h = refl
    has_key-select_ne k (r ∷ rs) h = ground (arith, has_key-select_ne k rs h.1)

    -- under distinct keys, the selected rows are told by their keys
    pub has_key-select :
        (rs : List Row)
        → Distinct key rs
        → All (λ r. has_key key (select test rs) (key r) ≡ test r) rs
    unfolding select
    has_key-select [] d = tt
    has_key-select (r ∷ rs) d = (
      ground (arith, has_key-select_ne (key r) rs d.0),
      All-both (λ q. key q ≢ key r) (λ q. has_key key (select test rs) (key q) ≡ test q)
          (λ q.
            has_key key (if test r then r ∷ select test rs else select test rs) (key q) ≡ test q)
          rs (λ q ne same. ground arith) d.0 (has_key-select rs d.1),
    )
