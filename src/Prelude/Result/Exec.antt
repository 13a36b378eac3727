-- ===== src/Prelude/Result/Exec.antt =====
-- Blocks over a state.
use mathlib.Core.Bool.{Bool, true, false}
use mathlib.Core.Path.{◌≡◌, refl}
use eauto_ai.Prelude.Tests.{if◌then◌else◌}
use eauto_ai.Prelude.Result.{Result, ok, err}

abbrev pub Exec {ℓ κ μ} : Type ℓ → Type κ → Type μ → Type (ℓ ⊔ κ ⊔ μ)
Exec S E A = S → Result E A × S

module _ {ℓ} {S E A : Type ℓ} where
  abbrev pub pure : A → Exec S E A
  pure a s = (ok a, s)

  abbrev pub throw : E → Exec S E A
  throw e s = (err e, s)

  abbrev pub lift : Result E A → Exec S E A
  lift r s = (r, s)

  abbrev pub gets : (S → A) → Exec S E A
  gets f s = (ok (f s), s)

module _ {ℓ} {S E A B : Type ℓ} where
  abbrev pub continue : Result E A → (A → Exec S E B) → Exec S E B
  continue (ok a) f s = f a s
  continue (err e) f s = (err e, s)

  infixl 5 ◌>>=◌ ◌>>◌
  abbrev pub ◌>>=◌ : Exec S E A → (A → Exec S E B) → Exec S E B
  ◌>>=◌ m f s = let (r, s') = m s in continue r f s'

  abbrev pub ◌>>◌ : Exec S E A → Exec S E B → Exec S E B
  m >> n = m >>= λ _. n

module _ {ℓ} {S E : Type ℓ} where
  abbrev pub modify : (S → S) → Exec S E (Unit {ℓ})
  modify f s = (ok tt, f s)

  -- `if (bad) throw e;`
  abbrev pub throw_if : Bool → E → Exec S E (Unit {ℓ})
  throw_if true e = throw e
  throw_if false e = pure tt

module _ {ℓ} {S E A B : Type ℓ} where
  continue-eq-ok :
      (r : Result E A) (f : A → Exec S E B) (s : S) {b : B}
      → (continue r f s).0 ≡ ok b
      → (a : A) × (r ≡ ok a) × ((f a s).0 ≡ ok b)
  continue-eq-ok (ok a) f s h = (a, refl, h)
  continue-eq-ok (err e) f s h = cc

  -- Inversion of a block that returned.
  pub >>=-eq-ok :
      (m : Exec S E A) (f : A → Exec S E B) (s : S) {b : B}
      → ((m >>= f) s).0 ≡ ok b
      → (a : A) × ((m s).0 ≡ ok a) × ((f a (m s).1).0 ≡ ok b)
  >>=-eq-ok m f s h = continue-eq-ok (m s).0 f (m s).1 h

  -- A property of the state that both parts of a block keep, whether they return or throw.
  pub >>=-keeps {κ} :
      (K : S → Type κ) (m : Exec S E A) (f : A → Exec S E B)
      → ((s : S) → K s → K (m s).1)
      → ((a : A) (s : S) → K s → K (f a s).1)
      → (s : S) → K s
      → K ((m >>= f) s).1
  >>=-keeps K m f km kf s h = go (m s).0 (m s).1 (km s h)
    where
      go : (r : Result E A) (t : S) → K t → K (continue r f t).1
      go (ok a) t k = kf a t k
      go (err e) t k = k

-- How a call ends: with a value and a state that satisfy `R`, or with an error and a state that
-- satisfies `I`.
module _ {ℓ} {S E : Type ℓ} (I : S → Type 0) where
  abbrev pub Ends : {A : Type ℓ} → (A → S → Type 0) → Result E A × S → Type 0
  Ends R (ok a, s) = R a s
  Ends R (err e, s) = I s

module _ {ℓ} {S E A : Type ℓ} (I : S → Type 0) (R : A → S → Type 0) where
  pub lift-Ends : (r : Result E A) (s : S) → I s → ((a : A) → r ≡ ok a → R a s) → Ends I R (r, s)
  lift-Ends (ok a) s i g = g a refl
  lift-Ends (err e) s i g = i

  pub bind-Ends :
      {B : Type ℓ} (R' : B → S → Type 0) (m : Exec S E A) (f : A → Exec S E B) (s : S)
      → Ends I R (m s)
      → ((a : A) (t : S) → R a t → Ends I R' (f a t))
      → Ends I R' ((m >>= f) s)
  bind-Ends R' m f s e g = go (m s).0 (m s).1 e
    where
      go : (r : Result E A) (t : S) → Ends I R (r, t) → Ends I R' (continue r f t)
      go (ok a) t h = g a t h
      go (err e) t h = h

pub state_of_Ends {ℓ} :
    {S E A : Type ℓ} (I : S → Type 0) (r : Result E A × S) → Ends I (λ _ s. I s) r → I r.1
state_of_Ends I (ok a, s) h = h
state_of_Ends I (err e, s) h = h

pub Ends-imp {ℓ} :
    {S E A : Type ℓ} (I : S → Type 0) (R R' : A → S → Type 0)
    → ((a : A) (s : S) → R a s → R' a s)
    → (r : Result E A × S) → Ends I R r
    → Ends I R' r
Ends-imp I R R' f (ok a, s) h = f a s h
Ends-imp I R R' f (err e, s) h = h

module _ {ℓ} {S E : Type ℓ} where
  pub throw_if-keeps {κ} : (K : S → Type κ) (b : Bool) (e : E) (s : S) → K s → K (throw_if b e s).1
  throw_if-keeps K true e s h = h
  throw_if-keeps K false e s h = h

  pub if-keeps {κ} :
      (K : S → Type κ) (b : Bool) (x y : Exec S E (Unit {ℓ})) (s : S)
      → (b ≡ true → K (x s).1)
      → (b ≡ false → K (y s).1)
      → K ((if b then x else y) s).1
  if-keeps K true x y s f g = f refl
  if-keeps K false x y s f g = g refl
