-- ===== src/Prelude/Assoc.antt =====
-- `Map<string, V>`: entries in the order of insertion; `set` keeps the place of a key.
use text.Mathlib.TextEquality.{eq_iff}
use mathlib.Core.Path.{◌≡◌, refl}
use mathlib.Core.Option
use mathlib.Core.Option.{Option, none, some}
use mathlib.Core.List.{List, [], ◌∷◌}
use Prim.Native.String.{String}
use native.Mathlib.Omega.{arith}
use eauto_ai.Prelude.Tests.{◌==◌, if◌then◌else◌, string_eq}

abbrev pub Assoc {ℓ} : Type ℓ → Type ℓ
Assoc V = List (String × V)

module _ {ℓ} {V : Type ℓ} where
  -- `m.get(k)`
  unfoldable pub lookup : String → Assoc V → Option V
  lookup k [] = none
  lookup k ((j, v) ∷ m) = if j == k then some v else lookup k m

  -- `m.set(k, v)`
  unfoldable pub set : String → V → Assoc V → Assoc V
  set k v [] = (k, v) ∷ []
  set k v ((j, w) ∷ m) = if j == k then (k, v) ∷ m else (j, w) ∷ set k v m

  -- Every object of the map changed in place.
  unfoldable pub adjust : (String → V → V) → Assoc V → Assoc V
  adjust f [] = []
  adjust f ((j, v) ∷ m) = (j, f j v) ∷ adjust f m

  pub lookup-set :
      (k j : String) (v : V) (m : Assoc V)
      → lookup j (set k v m) ≡ (if k == j then some v else lookup j m)
  unfolding lookup set
  lookup-set k j v [] = refl
  lookup-set k j v ((i, w) ∷ m) =
      ground (arith, eq_iff k j, eq_iff i k, eq_iff i j, lookup-set k j v m)

  pub lookup-set_self : (k : String) (v : V) (m : Assoc V) → lookup k (set k v m) ≡ some v
  lookup-set_self k v m = ground (arith, lookup-set k k v m, eq_iff k k)

  pub lookup-adjust :
      (f : String → V → V) (k : String) (m : Assoc V)
      → lookup k (adjust f m) ≡ Option.map (f k) (lookup k m)
  unfolding lookup adjust
  lookup-adjust f k [] = refl
  lookup-adjust f k ((j, v) ∷ m) = ground (arith, eq_iff j k, lookup-adjust f k m)

  -- The keys are distinct.
  abbrev pub HasUniqueKeys : Assoc V → Type ℓ
  HasUniqueKeys [] = Unit
  HasUniqueKeys ((k, v) ∷ m) = (lookup k m ≡ none) × HasUniqueKeys m

  pub set-HasUniqueKeys :
      (k : String) (v : V) (m : Assoc V) → HasUniqueKeys m → HasUniqueKeys (set k v m)
  unfolding set lookup
  set-HasUniqueKeys k v [] h = (refl, tt)
  set-HasUniqueKeys k v ((j, w) ∷ m) h =
      ground (arith, eq_iff j k, eq_iff k j, lookup-set k j v m, set-HasUniqueKeys k v m h.1)

  pub adjust-HasUniqueKeys :
      (f : String → V → V) (m : Assoc V) → HasUniqueKeys m → HasUniqueKeys (adjust f m)
  unfolding adjust
  adjust-HasUniqueKeys f [] h = tt
  adjust-HasUniqueKeys f ((j, v) ∷ m) h =
      (ground (arith, lookup-adjust f j m), adjust-HasUniqueKeys f m h.1)
