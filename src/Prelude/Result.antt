-- ===== src/Prelude/Result.antt =====
-- Code that throws, and methods that change stored state and may throw. What was written before a
-- throw stays written, so the state comes back beside the error too.
pub mod Pure
pub mod Exec
use mathlib.Core.Path.{◌≡◌, refl}
use mathlib.Core.Logic.{◌⊎◌, ◌≢◌, inl, inr}

pub data Result {ℓ κ} (E : Type ℓ) (A : Type κ) : Type (ℓ ⊔ κ) where
  ok : A → Result E A
  err : E → Result E A

-- Whether a call returned, and not threw.
abbrev pub Returns {ℓ κ μ} : {E : Type ℓ} {A : Type κ} → (A → Type μ) → Result E A → Type μ
Returns P (ok a) = P a
Returns P (err e) = Unit

pub Result-cases {ℓ κ} :
    {E : Type ℓ} {A : Type κ} (r : Result E A) → ((a : A) × (r ≡ ok a)) ⊎ ((e : E) × (r ≡ err e))
Result-cases (ok a) = inl (a, refl)
Result-cases (err e) = inr (e, refl)

module _ {ℓ κ} {E : Type ℓ} {A : Type κ} where
  pub ok-injective : (a b : A) → ◌≡◌ {A = Result E A} (ok a) (ok b) → a ≡ b
  ok-injective a b h = cc

  pub err-ne-ok : (e : E) (a : A) → ◌≢◌ {A = Result E A} (err e) (ok a)
  err-ne-ok e a h = cc

pub Returns-imp {ℓ κ μ ν} :
    {E : Type ℓ} {A : Type κ} (P : A → Type μ) (Q : A → Type ν)
    → ((a : A) → P a → Q a)
    → (r : Result E A) → Returns P r
    → Returns Q r
Returns-imp P Q f (ok a) h = f a h
Returns-imp P Q f (err e) h = tt
