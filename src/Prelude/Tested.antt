-- ===== src/Prelude/Tested.antt =====
-- Boolean tests on lists against predicates of their entries.
use mathlib.Core.Path.{◌≡◌, refl, subst}
use mathlib.Core.Logic.{◌⊎◌, inl, inr, ◌↔◌}
use mathlib.Core.Bool.{Bool, true, false, not, ◌||◌}
use mathlib.Core.List.{List, [], ◌∷◌, ◌++◌}
use native.Mathlib.Omega.{arith}
use eauto_ai.Prelude.Tests.{Eq, ◌==◌, Bool-cases, ==_refl}
use eauto_ai.Prelude.Lists.{any, filter, All, includes, unique, includes-unique}

module _ {ℓ} {A : Type ℓ} where
  -- Some entry satisfies the predicate.
  abbrev pub Any : (A → Type 0) → List A → Type 0
  Any P [] = ⊥
  Any P (x ∷ xs) = P x ⊎ Any P xs

  pub any-Any :
      (P : A → Type 0) (p : A → Bool)
      → ((x : A) → p x ≡ true → P x)
      → (xs : List A) → any p xs ≡ true
      → Any P xs
  any-Any P p f [] h = cc
  any-Any P p f (x ∷ xs) h = elim (Bool-cases (p x)) [
    | inl e ↦ inl (f x e)
    | inr e ↦ inr (any-Any P p f xs (rw e at h))
  ]

  pub Any-any :
      (P : A → Type 0) (p : A → Bool)
      → ((x : A) → P x → p x ≡ true)
      → (xs : List A) → Any P xs
      → any p xs ≡ true
  Any-any P p f [] h = absurd h
  Any-any P p f (x ∷ xs) (inl h) = rw (f x h) refl
  Any-any P p f (x ∷ xs) (inr h) = let rest = Any-any P p f xs h in ground (arith, rest)

  pub any-All {κ} :
      (P : A → Type κ) (p : A → Bool)
      → ((x : A) → p x ≡ false → P x)
      → (xs : List A) → any p xs ≡ false
      → All P xs
  any-All P p f [] h = tt
  any-All P p f (x ∷ xs) h =
      let (first, rest) = neither (p x) (any p xs) h in (f x first, any-All P p f xs rest)
    where
      neither : (a b : Bool) → (a || b) ≡ false → (a ≡ false) × (b ≡ false)
      neither a b h = ground arith

  pub All-any {κ} :
      (P : A → Type κ) (p : A → Bool)
      → ((x : A) → P x → p x ≡ false)
      → (xs : List A) → All P xs
      → any p xs ≡ false
  All-any P p f [] h = refl
  All-any P p f (x ∷ xs) (q, h) = rw (f x q) (All-any P p f xs h)

  -- Nothing fails the test exactly when every entry passes it.
  pub filter-nil :
      (p : A → Bool) (xs : List A) → filter (λ x. not (p x)) xs ≡ [] → All (λ x. p x ≡ true) xs
  filter-nil p [] h = tt
  filter-nil p (x ∷ xs) h = elim (Bool-cases (p x)) [
    | inl e ↦ (e, filter-nil p xs (rw e at h))
    | inr e ↦ cc
  ]

  pub filter-All :
      (p : A → Bool) (xs : List A) → All (λ x. p x ≡ true) xs → filter (λ x. not (p x)) xs ≡ []
  filter-All p [] h = refl
  filter-All p (x ∷ xs) (e, h) = rw e (filter-All p xs h)

  -- What fails the test, if anything does.
  pub filter-cons :
      (p : A → Bool) (xs : List A) (y : A) (ys : List A)
      → filter (λ x. not (p x)) xs ≡ y ∷ ys
      → Any (λ x. p x ≡ false) xs
  filter-cons p [] y ys h = cc
  filter-cons p (x ∷ xs) y ys h = elim (Bool-cases (p x)) [
    | inl e ↦ inr (filter-cons p xs y ys (rw e at h))
    | inr e ↦ inl e
  ]

  pub Any-imp : (P Q : A → Type 0) → ((x : A) → P x → Q x) → (xs : List A) → Any P xs → Any Q xs
  Any-imp P Q f [] h = absurd h
  Any-imp P Q f (x ∷ xs) (inl h) = inl (f x h)
  Any-imp P Q f (x ∷ xs) (inr h) = inr (Any-imp P Q f xs h)

  pub All-parts {κ} : (P : A → Type κ) (xs ys : List A) → All P (xs ++ ys) → All P xs × All P ys
  All-parts P [] ys h = (tt, h)
  All-parts P (x ∷ xs) ys (p, h) = let (q, k) = All-parts P xs ys h in ((p, q), k)

module _ {ℓ} {A : Type ℓ} ⦃e : Eq A⦄ where
  All-includes {κ} : (P : A → Type κ) (xs : List A) (a : A) → All P xs → includes xs a ≡ true → P a
  All-includes P [] a h i = cc
  All-includes P (x ∷ xs) a (p, h) i = elim (Bool-cases (x == a)) [
    | inl same ↦ subst P ((e.beq_iff x a).0 same) p
    | inr other ↦ All-includes P xs a h (rw other at i)
  ]

  includes-All {κ} :
      (P : A → Type κ) (xs : List A) → ((a : A) → includes xs a ≡ true → P a) → All P xs
  includes-All P [] f = tt
  includes-All P (x ∷ xs) f =
      (f x (rw (==_refl x) refl), includes-All P xs (λ a i. f a (ground (arith, i))))

  -- A predicate holds of the distinct values of a list exactly when it holds of the list.
  pub All-unique {κ} : (P : A → Type κ) (xs : List A) → All P (unique xs) ↔ All P xs
  All-unique P xs = (
    λ h. includes-All P xs (λ a i. All-includes P (unique xs) a h (rw (includes-unique xs a) i)),
    λ h. includes-All P (unique xs) (λ a i. All-includes P xs a h (rw (includes-unique xs a) at i)),
  )
