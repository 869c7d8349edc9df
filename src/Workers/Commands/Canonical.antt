-- ===== src/Workers/Commands/Canonical.antt =====
-- The payload that a command is signed over: the texts of its seven parts, joined by bars.
use trelgream_self_userbot.Prelude.{
  ◌≡◌, Bool, true, not, ◌&&◌, ◌==◌, refl, sym, ◌∙◌, List, [], ◌∷◌, ◌++◌, String, arith, length,
}
use trelgream_self_userbot.Prelude.Text.{Text}
use trelgream_self_userbot.Database.Json.{Json, Fields}
use trelgream_self_userbot.Workers.Commands.{join_parts, canonical, canonical_fields, texts_of}

-- no character of the text is a bar
abbrev pub no_bar : Text → Bool
no_bar [] = true
no_bar (c ∷ s) = not (c == b'|') && no_bar s

abbrev pub no_bars : List Text → Bool
no_bars [] = true
no_bars (t ∷ ts) = no_bar t && no_bars ts

-- a text without a bar is told by the first bar
before_bar :
    (s t r q : Text)
    → no_bar s ≡ true
    → no_bar t ≡ true
    → s ++ b'|' ∷ r ≡ t ++ b'|' ∷ q
    → (s ≡ t) × (r ≡ q)
before_bar [] [] r q hs ht e = (refl, cc e)
before_bar [] (c ∷ t) r q hs ht e = ground arith
before_bar (c ∷ s) [] r q hs ht e = ground arith
before_bar (c ∷ s) (d ∷ t) r q hs ht e =
    let (same, rest) = before_bar s t r q (ground arith) (ground arith) cc in (cc, rest)

join_parts-injective :
    (ss ts : List Text)
    → length ss ≡ length ts
    → no_bars ss ≡ true
    → no_bars ts ≡ true
    → join_parts ss ≡ join_parts ts
    → ss ≡ ts
unfolding join_parts
join_parts-injective [] [] n hs ht e = refl
join_parts-injective [] (t ∷ ts) n hs ht e = ground arith
join_parts-injective (s ∷ ss) [] n hs ht e = ground arith
join_parts-injective (s ∷ []) (t ∷ []) n hs ht e = cc
join_parts-injective (s ∷ []) (t ∷ u ∷ ts) n hs ht e = ground arith
join_parts-injective (s ∷ r ∷ ss) (t ∷ []) n hs ht e = ground arith
join_parts-injective (s ∷ r ∷ ss) (t ∷ u ∷ ts) n hs ht e =
    let (same, rest) = before_bar s t _ _ (ground arith) (ground arith) e in
    let others : r ∷ ss ≡ u ∷ ts =
      join_parts-injective (r ∷ ss) (u ∷ ts) (omega arith) (ground arith) (ground arith) rest in
    cc

length-texts_of :
    (repr : Json → Text) (body : Fields) (fs : List String)
    → length (texts_of repr body fs) ≡ length fs
unfolding texts_of
length-texts_of repr body [] = refl
length-texts_of repr body (f ∷ fs) = ground (arith, length-texts_of repr body fs)

abbrev pub parts : (Json → Text) → Fields → List Text
parts repr body = texts_of repr body (canonical_fields repr)

-- Two messages none of whose seven signed parts has a bar in its text have the same payload under
-- the signature only if each part has the same text in both.
pub canonical-injective :
    (repr : Json → Text) (body other : Fields)
    → no_bars (parts repr body) ≡ true
    → no_bars (parts repr other) ≡ true
    → canonical repr body ≡ canonical repr other
    → parts repr body ≡ parts repr other
unfolding canonical
canonical-injective repr body other h k e =
    let fs = canonical_fields repr in
    join_parts-injective (parts repr body) (parts repr other)
      (length-texts_of repr body fs ∙ sym (length-texts_of repr other fs)) h k e
