-- ===== src/Billing/Reference.antt =====
-- The payment references `PAY-{id:06d}` of `BillingService.purchase`: distinct for distinct
-- payments, and never the placeholder of a payment that has no id yet.
use trelgream_self_userbot.Prelude.{
  ℕ, zero, suc, ◌+◌, ◌-◌, ◌*◌, ◌/◌, ◌%◌, ◌<◌, ◌≡◌, refl, sym, ap, ◌∙◌, [], ◌∷◌, ◌++◌, arith, length,
  drop, ◌==◌, Bool-cases, inl, inr, false,
}
use trelgream_self_userbot.Prelude.Text.{Text, codes, digits, decimal, text_eq}

-- zeros before a number of fewer than `width` digits
abbrev zeros : ℕ → Text → Text
zeros zero s = s
zeros (suc n) s = 48 ∷ zeros n s

-- `f"{n:06d}"`
unfoldable pub six_digits : ℕ → Text
unfolding decimal
six_digits n = zeros (6 - length (decimal n)) (decimal n)

unfoldable pub reference_of : ℕ → Text
unfolding six_digits
reference_of id = codes "PAY-" ++ six_digits id

abbrev pub placeholder : Text
placeholder = codes "PENDING"

-- reading a decimal number from the left
read : ℕ → Text → ℕ
read acc [] = acc
read acc (c ∷ s) = read (acc * 10 + (c - 48)) s

read-digits : (fuel n : ℕ) (out : Text) → n < fuel → read 0 (digits fuel n out) ≡ read n out
unfolding read digits
read-digits zero n out h = absurd (omega arith)
read-digits (suc fuel) n out h = elim (Bool-cases (n / 10 == 0)) [
  | inl e ↦ rw e (ap (λ a. read a out) (ground arith))
  | inr e ↦ rw e (
      read-digits fuel (n / 10) ((48 + n % 10) ∷ out) (ground arith)
      ∙ ap (λ a. read a out) (omega arith))
]

read-zeros : (n : ℕ) (s : Text) → read 0 (zeros n s) ≡ read 0 s
unfolding read
read-zeros zero s = refl
read-zeros (suc n) s = read-zeros n s

read-six_digits : (n : ℕ) → read 0 (six_digits n) ≡ n
unfolding six_digits decimal
read-six_digits n =
    read-zeros (6 - length (digits (suc n) n [])) (digits (suc n) n [])
    ∙ read-digits (suc n) n [] (omega arith)
    ∙ unfold read in refl

-- Two payments with the same reference have the same id.
pub reference_of-injective : (i j : ℕ) → reference_of i ≡ reference_of j → i ≡ j
unfolding reference_of
reference_of-injective i j h =
    sym (read-six_digits i) ∙ ap (λ (t : Text). read 0 (drop 4 t)) h ∙ read-six_digits j

-- No reference is the placeholder.
pub reference_of-ne-placeholder : (i : ℕ) → text_eq placeholder (reference_of i) ≡ false
unfolding reference_of text_eq
reference_of-ne-placeholder i = refl
