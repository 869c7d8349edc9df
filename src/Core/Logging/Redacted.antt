-- ===== src/Core/Logging/Redacted.antt =====
-- What is left of a dictionary.
use trelgream_self_userbot.Prelude.{
  ◌≡◌, refl, sym, ap, String, Bool, true, false, Bool-cases, inl, inr, arith,
}
use trelgream_self_userbot.Core.Logging.{
  Value, Values, Mapping, str, other, list, tuple, dict, nil, cons, end, entry, is_sensitive,
  redact_mapping, redact_items, redact_plain, redacted,
}

module _ {Object : Type 0} where
  not_both : {b : Bool} {v : Value Object} → b ≡ false → b ≡ true → v ≡ redacted
  not_both e h = ground arith

module _ {Object : Type 0} (lower : String → String) where
  -- a plain value is redacted if its key is a secret's
  abbrev IsPlainRedacted : String → Value Object → Type 0
  IsPlainRedacted key val = is_sensitive lower key ≡ true → val ≡ redacted

  -- no tuple stands under a key, since a list takes its place
  abbrev mutual
    pub IsRedacted : Mapping Object → Type 0
    IsRedacted end = Unit {0}
    IsRedacted (entry key (dict val) rest) = IsRedacted val × IsRedacted rest
    IsRedacted (entry key (list val) rest) = AreRedacted val × IsRedacted rest
    IsRedacted (entry key (tuple val) rest) = true ≡ false
    IsRedacted (entry key (str s) rest) = IsPlainRedacted key (str s) × IsRedacted rest
    IsRedacted (entry key (other o) rest) = IsPlainRedacted key (other o) × IsRedacted rest

    AreRedacted : Values Object → Type 0
    AreRedacted nil = Unit {0}
    AreRedacted (cons (dict v) items) = IsRedacted v × AreRedacted items
    AreRedacted (cons (list v) items) = AreRedacted items
    AreRedacted (cons (tuple v) items) = AreRedacted items
    AreRedacted (cons (str s) items) = AreRedacted items
    AreRedacted (cons (other o) items) = AreRedacted items

  redact_plain-IsRedacted :
      (key : String) (val : Value Object) (rest : Mapping Object)
      → (IsPlainRedacted key val → IsRedacted rest → IsRedacted (entry key val rest))
      → IsRedacted rest
      → IsRedacted (entry key (redact_plain lower key val) rest)
  redact_plain-IsRedacted key val rest f r = elim (Bool-cases (is_sensitive lower key)) [
    | inl e ↦ rw e (λ h. refl, r)
    | inr e ↦ rw e (f (λ h. not_both e h) r)
  ]

  mutual
    unfolding redact_mapping

    redact_mapping-IsRedacted : (m : Mapping Object) → IsRedacted (redact_mapping lower m)
    redact_mapping-IsRedacted end = tt
    redact_mapping-IsRedacted (entry key (dict val) rest) =
        (redact_mapping-IsRedacted val, redact_mapping-IsRedacted rest)
    redact_mapping-IsRedacted (entry key (list val) rest) =
        (redact_items-AreRedacted val, redact_mapping-IsRedacted rest)
    redact_mapping-IsRedacted (entry key (tuple val) rest) =
        (redact_items-AreRedacted val, redact_mapping-IsRedacted rest)
    redact_mapping-IsRedacted (entry key (str s) rest) =
        redact_plain-IsRedacted key (str s) (redact_mapping lower rest) (λ p r. (p, r))
          (redact_mapping-IsRedacted rest)
    redact_mapping-IsRedacted (entry key (other o) rest) =
        redact_plain-IsRedacted key (other o) (redact_mapping lower rest) (λ p r. (p, r))
          (redact_mapping-IsRedacted rest)

    redact_items-AreRedacted : (items : Values Object) → AreRedacted (redact_items lower items)
    redact_items-AreRedacted nil = tt
    redact_items-AreRedacted (cons (dict v) items) =
        (redact_mapping-IsRedacted v, redact_items-AreRedacted items)
    redact_items-AreRedacted (cons (list v) items) = redact_items-AreRedacted items
    redact_items-AreRedacted (cons (tuple v) items) = redact_items-AreRedacted items
    redact_items-AreRedacted (cons (str s) items) = redact_items-AreRedacted items
    redact_items-AreRedacted (cons (other o) items) = redact_items-AreRedacted items

  redact_plain-eq :
      (key : String) (val : Value Object)
      → IsPlainRedacted key val
      → redact_plain lower key val ≡ val
  redact_plain-eq key val p = elim (Bool-cases (is_sensitive lower key)) [
    | inl e ↦ rw e (sym (p e))
    | inr e ↦ rw e
  ]

  plain_kept :
      (key : String) (val : Value Object) (rest : Mapping Object)
      → IsPlainRedacted key val
      → redact_mapping lower rest ≡ rest
      → entry key (redact_plain lower key val) (redact_mapping lower rest) ≡ entry key val rest
  plain_kept key val rest p q i = entry key (redact_plain-eq key val p i) (q i)

  mutual
    unfolding redact_mapping

    redact_mapping-eq : (m : Mapping Object) → IsRedacted m → redact_mapping lower m ≡ m
    redact_mapping-eq end r = refl
    redact_mapping-eq (entry key (dict val) rest) r =
        λ i. entry key (dict (redact_mapping-eq val r.0 i)) (redact_mapping-eq rest r.1 i)
    redact_mapping-eq (entry key (list val) rest) r =
        λ i. entry key (list (redact_items-eq val r.0 i)) (redact_mapping-eq rest r.1 i)
    redact_mapping-eq (entry key (tuple val) rest) r = ground (arith, r)
    redact_mapping-eq (entry key (str s) rest) r =
        plain_kept key (str s) rest r.0 (redact_mapping-eq rest r.1)
    redact_mapping-eq (entry key (other o) rest) r =
        plain_kept key (other o) rest r.0 (redact_mapping-eq rest r.1)

    redact_items-eq : (items : Values Object) → AreRedacted items → redact_items lower items ≡ items
    redact_items-eq nil r = refl
    redact_items-eq (cons (dict v) items) r =
        λ i. cons (dict (redact_mapping-eq v r.0 i)) (redact_items-eq items r.1 i)
    redact_items-eq (cons (list v) items) r = ap (cons (list v)) (redact_items-eq items r)
    redact_items-eq (cons (tuple v) items) r = ap (cons (tuple v)) (redact_items-eq items r)
    redact_items-eq (cons (str s) items) r = ap (cons (str s)) (redact_items-eq items r)
    redact_items-eq (cons (other o) items) r = ap (cons (other o)) (redact_items-eq items r)

  -- In what is left of a dictionary, every value under a key that is sensitive is redacted, unless it is
  -- a dictionary, a list or a tuple, at any depth of dictionaries that stand in one another or in the
  -- lists and tuples under a key; not in a list in a list, and not what stands in a list under such a
  -- key. No tuple is left under a key. A dictionary in which all this is so already is not changed.
  pub redact_mapping_lem :
      (m : Mapping Object)
      → IsRedacted (redact_mapping lower m)
        × ((n : Mapping Object) → IsRedacted n → redact_mapping lower n ≡ n)
  redact_mapping_lem m = (redact_mapping-IsRedacted m, redact_mapping-eq)
