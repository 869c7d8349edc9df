-- ===== src/Modules/Registry/Discovery.antt =====
-- What `discover` takes up, and what it refuses.
use trelgream_self_userbot.Prelude.{
  ◌⊎◌, subst, ◌≡◌, refl, sym, ap, ◌∙◌, String, Bool, true, false, not, ◌&&◌, ◌||◌, some, List, [],
  ◌∷◌, ◌++◌, map, any, str_eq, if◌then◌else◌, arith, Bool-cases, inl, inr, eq_refl,
}
use trelgream_self_userbot.Database.Table.Find.{All, All-both}
use mathlib.Core.List.{append-nil, append_assoc}
use trelgream_self_userbot.Core.Errors.{value_error}
use trelgream_self_userbot.Core.Exec.{ok, err}
use trelgream_self_userbot.Modules.Registry.{
  ModuleMetadata, Registry, is_registered, discover, lookup,
}

-- no key stands in the list twice
abbrev pub all_distinct : List String → Bool
all_distinct [] = true
all_distinct (k ∷ ks) = not (any (λ k'. str_eq k k') ks) && all_distinct ks

module _ {ModuleClass : Type 0} (metadata : ModuleClass → ModuleMetadata) where
  abbrev pub keys : List ModuleClass → List String
  keys classes = map (λ c. (metadata c).key) classes

  abbrev pub entry : ModuleClass → String × ModuleClass
  entry c = ((metadata c).key, c)

  -- none of the keys is registered
  abbrev pub none_registered : List String → Registry metadata → Bool
  none_registered [] reg = true
  none_registered (k ∷ ks) reg = not (is_registered metadata k reg) && none_registered ks reg

  is_registered-append :
      (k : String) (reg : Registry metadata) (c : ModuleClass)
      → is_registered metadata k (reg ++ entry c ∷ [])
        ≡ is_registered metadata k reg || str_eq (metadata c).key k
  is_registered-append k [] c = ground arith
  is_registered-append k (e ∷ reg) c = ground (arith, is_registered-append k reg c)

  none_registered-append :
      (ks : List String) (reg : Registry metadata) (c : ModuleClass)
      → none_registered ks (reg ++ entry c ∷ [])
        ≡ none_registered ks reg && not (any (λ k. str_eq (metadata c).key k) ks)
  none_registered-append [] reg c = refl
  none_registered-append (k ∷ ks) reg c =
      ground (arith, is_registered-append k reg c, none_registered-append ks reg c)

  discover_from :
      (classes : List ModuleClass) (reg : Registry metadata)
      → (discover metadata classes reg).0 ≡ (
          if all_distinct (keys classes) && none_registered (keys classes) reg
          then ok tt
          else err value_error)
  unfolding discover
  discover_from [] reg = refl
  discover_from (c ∷ classes) reg =
      elim (Bool-cases (is_registered metadata (metadata c).key reg)) [
        | inl e ↦ rw e (ground arith)
        | inr e ↦ rw e (
            discover_from classes (reg ++ entry c ∷ [])
            ∙ ground (arith, none_registered-append (keys classes) reg c))
      ]

  registered_from :
      (classes : List ModuleClass) (reg : Registry metadata)
      → all_distinct (keys classes) && none_registered (keys classes) reg ≡ true
      → discover metadata classes reg ≡ (ok tt, reg ++ map entry classes)
  unfolding discover
  registered_from [] reg h = ap (λ l. (ok tt, l)) (sym (append-nil reg))
  registered_from (c ∷ classes) reg h =
      let e : is_registered metadata (metadata c).key reg ≡ false = ground arith in
      rw e (
        registered_from classes (reg ++ entry c ∷ [])
          (ground (arith, none_registered-append (keys classes) reg c))
        ∙ ap (λ l. (ok tt, l)) (append_assoc reg (entry c ∷ []) (map entry classes)))

  other_keys :
      (k : String) (classes : List ModuleClass)
      → any (λ k'. str_eq k k') (keys classes) ≡ false
      → All (λ c. str_eq k (metadata c).key ≡ false) classes
  other_keys k [] h = tt
  other_keys k (c ∷ classes) h = (ground arith, other_keys k classes (ground arith))

  each_looked_up :
      (classes : List ModuleClass)
      → all_distinct (keys classes) ≡ true
      → All (λ c. lookup metadata (metadata c).key (map entry classes) ≡ some c) classes
  unfolding lookup
  each_looked_up [] h = tt
  each_looked_up (d ∷ classes) h = (
    rw (eq_refl (metadata d).key),
    All-both (λ c. str_eq (metadata d).key (metadata c).key ≡ false)
        (λ c. lookup metadata (metadata c).key (map entry classes) ≡ some c)
        (λ c. lookup metadata (metadata c).key (map entry (d ∷ classes)) ≡ some c) classes
        (λ c ne e. rw ne e) (other_keys (metadata d).key classes (ground arith))
        (each_looked_up classes (ground arith)),
  )

  -- in a dictionary that has other keys first
  lookup-append :
      (k : String) (reg rest : Registry metadata)
      → is_registered metadata k reg ≡ false
      → lookup metadata k (reg ++ rest) ≡ lookup metadata k rest
  unfolding lookup
  lookup-append k [] rest h = refl
  lookup-append k (e ∷ reg) rest h = ground (arith, h, lookup-append k reg rest)

  each_looked_up_behind :
      (reg rest : Registry metadata) (classes : List ModuleClass)
      → none_registered (keys classes) reg ≡ true
      → All (λ c. lookup metadata (metadata c).key rest ≡ some c) classes
      → All (λ c. lookup metadata (metadata c).key (reg ++ rest) ≡ some c) classes
  each_looked_up_behind reg rest [] h a = tt
  each_looked_up_behind reg rest (c ∷ classes) h a = (
    lookup-append (metadata c).key reg rest (ground (arith, h)) ∙ a.0,
    each_looked_up_behind reg rest classes (ground (arith, h)) a.1,
  )

  -- the classes that can all be taken up
  abbrev pub is_new : List ModuleClass → Registry metadata → Bool
  is_new classes reg = all_distinct (keys classes) && none_registered (keys classes) reg

  -- Classes are registered in a registry exactly if no two of them have the same key and none of the keys
  -- is registered; else ValueError is raised. If they are, they stand in their order behind what was
  -- there, and each is found under its own key.
  pub discover_lem :
      (classes : List ModuleClass) (reg : Registry metadata)
      → ((discover metadata classes reg).0
          ≡ (if is_new classes reg then ok tt else err value_error))
        × ((is_new classes reg ≡ false)
            ⊎ (((discover metadata classes reg).1 ≡ reg ++ map entry classes)
                × All
                    (λ c.
                      lookup metadata (metadata c).key (discover metadata classes reg).1 ≡ some c)
                    classes))
  discover_lem classes reg = elim (Bool-cases (is_new classes reg)) [
    | inl e ↦
        let after : (discover metadata classes reg).1 ≡ reg ++ map entry classes =
          ap (λ p. p.1) (registered_from classes reg e) in
        let found =
          each_looked_up_behind reg (map entry classes) classes (ground (arith, e))
            (each_looked_up classes (ground (arith, e))) in
        (
          discover_from classes reg,
          inr (
            after,
            subst (λ l. All (λ c. lookup metadata (metadata c).key l ≡ some c) classes) (sym after)
                found,
          ),
        )
    | inr e ↦ (discover_from classes reg, inl e)
  ]
