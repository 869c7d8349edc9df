-- ===== src/Core/Exec.antt =====
-- Methods that read and write a state and may raise. What was written before an exception is still
-- in the session when it is raised; the code that owns the session commits or rolls back.
use trelgream_self_userbot.Prelude.{Bool, true, false, ◌≡◌, refl}
use trelgream_self_userbot.Core.Errors.{Exception}

pub data Result {ℓ} (A : Type ℓ) : Type ℓ where
  ok : A → Result A
  err : Exception → Result A

abbrev pub Exec {ℓ} : Type ℓ → Type ℓ → Type ℓ
Exec S A = S → Result A × S

module _ {ℓ} {S A : Type ℓ} where
  abbrev pub pure : A → Exec S A
  pure a s = (ok a, s)

  -- a computation that does not touch the state
  abbrev pub lift : Result A → Exec S A
  lift r s = (r, s)

  abbrev pub raise : Exception → Exec S A
  raise e s = (err e, s)

module _ {ℓ} {S : Type ℓ} where
  abbrev pub get : Exec S S
  get s = (ok s, s)

  abbrev pub modify : (S → S) → Exec S (Unit {ℓ})
  modify f s = (ok tt, f s)

  -- `if not test: raise e`
  abbrev pub require : Bool → Exception → Exec S (Unit {ℓ})
  require true e s = (ok tt, s)
  require false e s = (err e, s)

module _ {ℓ} {S A B : Type ℓ} where
  abbrev pub continue : Result A → (A → Exec S B) → Exec S B
  continue (ok a) f s = f a s
  continue (err e) f s = (err e, s)

  infixl 5 ◌>>=◌ ◌>>◌
  abbrev pub ◌>>=◌ : Exec S A → (A → Exec S B) → Exec S B
  ◌>>=◌ m f s = let (r, s') = m s in continue r f s'

  abbrev pub ◌>>◌ : Exec S A → Exec S B → Exec S B
  m >> n = m >>= λ _. n

-- the parts of a sequence that returns
module _ {ℓ} {S A B : Type ℓ} where
  continue-eq-ok :
      (r : Result A) (f : A → Exec S B) (s : S) {b : B} {t : S}
      → continue r f s ≡ (ok b, t)
      → (a : A) × (r ≡ ok a) × (f a s ≡ (ok b, t))
  continue-eq-ok (ok a) f s h = (a, refl, h)
  continue-eq-ok (err e) f s h = cc

  pub >>=-eq-ok :
      (m : Exec S A) (f : A → Exec S B) (s : S) {b : B} {t : S}
      → (m >>= f) s ≡ (ok b, t)
      → (a : A) × (s' : S) × (m s ≡ (ok a, s')) × (f a s' ≡ (ok b, t))
  >>=-eq-ok m f s h =
      let (r, s') = m s in let (a, e, k) = continue-eq-ok r f s' h in (a, s', (λ i. (e i, s')), k)

module _ {ℓ} {S : Type ℓ} where
  pub require-eq-ok :
      (test : Bool) (e : Exception) (s : S) {u : Unit {ℓ}} {s' : S}
      → require test e s ≡ (ok u, s')
      → (test ≡ true) × (s' ≡ s)
  require-eq-ok true e s h = (refl, cc)
  require-eq-ok false e s h = cc

  pub modify-eq-ok :
      (f : S → S) (s : S) {u : Unit {ℓ}} {s' : S} → modify f s ≡ (ok u, s') → s' ≡ f s
  modify-eq-ok f s h = cc

module _ {ℓ} {S A : Type ℓ} where
  -- `commit` after a result, `rollback` after an exception
  abbrev pub settle : Result A → S → S → Result A × S
  settle (ok a) before after = (ok a, after)
  settle (err e) before after = (err e, before)
