-- ===== src/Prelude/Lists.antt =====
-- Lists over the native numbers: measures, tests on all or some entries, and `new Set` on an array.
use Prim.Native.Nat.{ℕ, zero, suc, ◌≤◌}
use mathlib.Core.Path.{◌≡◌, refl, ap, subst}
use mathlib.Core.Logic.{◌≢◌, inl, inr}
use mathlib.Core.Bool.{Bool, true, false, ◌||◌}
use mathlib.Core.Option.{Option, none, some}
use mathlib.Core.List.{List, [], ◌∷◌, ◌++◌, map}
use native.Mathlib.Omega.{arith}
use eauto_ai.Prelude.Tests.{if◌then◌else◌, Eq, ◌==◌, Bool-cases, ==_refl}

module _ {ℓ} {A : Type ℓ} where
  abbrev pub length : List A → ℕ
  length [] = 0
  length (x ∷ xs) = suc (length xs)

  abbrev pub take : ℕ → List A → List A
  take zero xs = []
  take (suc n) [] = []
  take (suc n) (x ∷ xs) = x ∷ take n xs

  -- `xs.length === 0`
  abbrev pub is_empty : List A → Bool
  is_empty [] = true
  is_empty (x ∷ xs) = false

  -- `xs.some(p)`
  abbrev pub any : (A → Bool) → List A → Bool
  any p [] = false
  any p (x ∷ xs) = p x || any p xs

  -- `xs.filter(p)`
  abbrev pub filter : (A → Bool) → List A → List A
  filter p [] = []
  filter p (x ∷ xs) = let rest = filter p xs in if p x then x ∷ rest else rest

  -- `xs.find(p)`
  abbrev pub find : (A → Bool) → List A → Option A
  find p [] = none
  find p (x ∷ xs) = if p x then some x else find p xs

  -- `xs.at(-1)`
  abbrev pub last : List A → Option A
  last [] = none
  last (x ∷ []) = some x
  last (x ∷ y ∷ ys) = last (y ∷ ys)

  abbrev pub All {κ} : (A → Type κ) → List A → Type κ
  All P [] = Unit
  All P (x ∷ xs) = P x × All P xs

  pub length-take : (n : ℕ) (xs : List A) → length (take n xs) ≤ n
  length-take zero xs = omega arith
  length-take (suc n) [] = omega arith
  length-take (suc n) (x ∷ xs) = omega (arith, length-take n xs)

  pub All-append {κ} : (P : A → Type κ) (xs ys : List A) → All P xs → All P ys → All P (xs ++ ys)
  All-append P [] ys h k = k
  All-append P (x ∷ xs) ys (p, h) k = (p, All-append P xs ys h k)

  pub All-imp {κ μ} :
      (P : A → Type κ) (Q : A → Type μ)
      → ((x : A) → P x → Q x)
      → (xs : List A) → All P xs
      → All Q xs
  All-imp P Q f [] h = tt
  All-imp P Q f (x ∷ xs) (p, h) = (f x p, All-imp P Q f xs h)

  pub All-take {κ} : (P : A → Type κ) (n : ℕ) (xs : List A) → All P xs → All P (take n xs)
  All-take P zero xs h = tt
  All-take P (suc n) [] h = tt
  All-take P (suc n) (x ∷ xs) (p, h) = (p, All-take P n xs h)

  pub All-both {κ μ} :
      (P : A → Type κ) (Q : A → Type μ) (xs : List A)
      → All P xs
      → All Q xs
      → All (λ x. P x × Q x) xs
  All-both P Q [] h k = tt
  All-both P Q (x ∷ xs) (p, h) (q, k) = ((p, q), All-both P Q xs h k)

  pub All-filter {κ} :
      (P : A → Type κ) (p : A → Bool) (xs : List A)
      → All P xs
      → All (λ x. P x × (p x ≡ true)) (filter p xs)
  All-filter P p [] h = tt
  All-filter P p (x ∷ xs) (q, h) = elim (Bool-cases (p x)) [
    | inl e ↦ rw e ((q, e), All-filter P p xs h)
    | inr e ↦ rw e (All-filter P p xs h)
  ]

module _ {ℓ κ} {A : Type ℓ} {B : Type κ} where
  pub All-map {μ} :
      (P : A → Type μ) (f : B → A) (xs : List B) → All (λ x. P (f x)) xs → All P (map f xs)
  All-map P f [] h = tt
  All-map P f (x ∷ xs) (p, h) = (p, All-map P f xs h)

  pub length-map : (f : B → A) (xs : List B) → length (map f xs) ≡ length xs
  length-map f [] = refl
  length-map f (x ∷ xs) = ap suc (length-map f xs)

module _ {ℓ} {A : Type ℓ} ⦃e : Eq A⦄ where
  -- `xs.includes(a)`, `set.has(a)`
  abbrev pub includes : List A → A → Bool
  includes [] a = false
  includes (x ∷ xs) a = x == a || includes xs a

  -- `[...new Set(xs)]`: the first occurrence of each value, in order.
  abbrev pub add : List A → A → List A
  add seen a = if includes seen a then seen else seen ++ a ∷ []

  abbrev pub unique_from : List A → List A → List A
  unique_from seen [] = seen
  unique_from seen (x ∷ xs) = unique_from (add seen x) xs

  abbrev pub unique : List A → List A
  unique = unique_from []

  -- No value of the list occurs again after it.
  abbrev pub IsDistinct : List A → Type 0
  IsDistinct [] = Unit
  IsDistinct (x ∷ xs) = (includes xs x ≡ false) × IsDistinct xs

  pub includes-append :
      (xs ys : List A) (a : A) → includes (xs ++ ys) a ≡ (includes xs a || includes ys a)
  includes-append [] ys a = refl
  includes-append (x ∷ xs) ys a = ground (arith, includes-append xs ys a)

  includes-add : (seen : List A) (x a : A) → includes (add seen x) a ≡ (includes seen a || x == a)
  includes-add seen x a = elim (Bool-cases (includes seen x)) [
    | inl old ↦ ground (arith, known old)
    | inr new ↦ rw new (ground (arith, includes-append seen (x ∷ []) a))
  ]
    where
      known : includes seen x ≡ true → x == a ≡ true → includes seen a ≡ true
      known old same = subst (λ z. includes seen z ≡ true) ((e.beq_iff x a).0 same) old

  includes-unique_from :
      (seen xs : List A) (a : A)
      → includes (unique_from seen xs) a ≡ (includes seen a || includes xs a)
  includes-unique_from seen [] a = ground arith
  includes-unique_from seen (x ∷ xs) a =
      ground (arith, includes-unique_from (add seen x) xs a, includes-add seen x a)

  -- `new Set` keeps exactly the values of the array.
  pub includes-unique : (xs : List A) (a : A) → includes (unique xs) a ≡ includes xs a
  includes-unique xs a = includes-unique_from [] xs a

  -- A value among the images of a list is the image of an entry.
  pub includes-map_elim {κ μ} :
      {B : Type κ} (P : B → Type μ) (f : B → A) (xs : List B) (a : A)
      → All P xs
      → includes (map f xs) a ≡ true
      → (x : B) × P x × (f x ≡ a)
  includes-map_elim P f [] a h i = absurd (cc)
  includes-map_elim P f (x ∷ xs) a (p, h) i = elim (Bool-cases (f x == a)) [
    | inl same ↦ (x, p, (e.beq_iff (f x) a).0 same)
    | inr other ↦ includes-map_elim P f xs a h (rw other at i)
  ]

  -- The images of the entries are among the images.
  pub All-includes-map {κ} :
      {B : Type κ} (f : B → A) (xs : List B) → All (λ x. includes (map f xs) (f x) ≡ true) xs
  All-includes-map f [] = tt
  All-includes-map f (x ∷ xs) = (
    rw (==_refl (f x)),
    All-imp (λ y. includes (map f xs) (f y) ≡ true) _ (λ y h. ground (arith, h)) xs
        (All-includes-map f xs),
  )

module _ {ℓ} {A : Type ℓ} where
  pub append-nil : (xs ys : List A) → xs ++ ys ≡ [] → (xs ≡ []) × (ys ≡ [])
  append-nil [] ys h = (refl, h)
  append-nil (x ∷ xs) ys h = cc

module _ {ℓ} {A : Type ℓ} ⦃e : Eq A⦄ where
  unique_from-seen : (x : A) (seen xs : List A) → unique_from (x ∷ seen) xs ≢ []
  unique_from-seen x seen [] = λ h. cc
  unique_from-seen x seen (y ∷ ys) = elim (Bool-cases (includes (x ∷ seen) y)) [
    | inl e ↦ rw e (unique_from-seen x seen ys)
    | inr e ↦ rw e (unique_from-seen x (seen ++ y ∷ []) ys)
  ]

  -- A list without distinct values is empty.
  pub unique-nil : (xs : List A) → unique xs ≡ [] → xs ≡ []
  unique-nil [] h = refl
  unique-nil (x ∷ xs) h = absurd (unique_from-seen x [] xs h)
