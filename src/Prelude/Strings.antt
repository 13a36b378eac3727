-- ===== src/Prelude/Strings.antt =====
-- Texts as JavaScript reads them: the order of `sort()`, and `trim()`.
use Prim.Native.String.{String}
use Prim.Native.String as Native
use Prim.Native.Char.{code}
use Prim.Native.Nat.{ℕ, ◌+◌, ◌-◌, ◌/◌, ◌%◌}
use mathlib.Core.Bool.{Bool, true, false, ◌&&◌, ◌||◌}
use mathlib.Core.List.{List, [], ◌∷◌}
use mathlib.Core.Path.{◌≡◌, refl}
use mathlib.Core.Logic.{◌≢◌, inl, inr}
use eauto_ai.Prelude.Tests.{Bool-cases, ltb, leb, eqb, if◌then◌else◌}

-- The UTF-16 units in front of those of the rest.
abbrev add_units : ℕ → List ℕ → List ℕ
add_units n rest =
    if ltb n 65536
    then (n ∷ rest)
    else ((55296 + (n - 65536) / 1024) ∷ (56320 + (n - 65536) % 1024) ∷ rest)

abbrev pub units : String → List ℕ
units Native.[] = []
units (Native.◌∷◌ c s) = add_units (code c) (units s)

abbrev precedes : List ℕ → List ℕ → Bool
precedes [] ys = true
precedes (x ∷ xs) [] = false
precedes (x ∷ xs) (y ∷ ys) = ltb x y || (eqb x y && precedes xs ys)

-- Not after the other in the order of `sort()`.
unfoldable pub string_le : String → String → Bool
string_le s t = precedes (units s) (units t)

abbrev insert : String → List String → List String
insert s [] = s ∷ []
insert s (t ∷ ts) = if string_le s t then s ∷ t ∷ ts else t ∷ insert s ts

-- `xs.sort()`, which is stable.
unfoldable pub sort : List String → List String
sort [] = []
sort (s ∷ ss) = insert s (sort ss)

abbrev pub is_space : ℕ → Bool
is_space n =
    (leb 9 n && leb n 13)
    || (eqb n 32
        || (eqb n 160
            || (eqb n 5760
                || ((leb 8192 n && leb n 8202)
                    || (eqb n 8232
                        || (eqb n 8233
                            || (eqb n 8239 || (eqb n 8287 || (eqb n 12288 || eqb n 65279)))))))))

-- `!s.trim()`
unfoldable pub is_blank : String → Bool
is_blank Native.[] = true
is_blank (Native.◌∷◌ c s) = is_space (code c) && is_blank s

insert-nonempty : (s : String) (ts : List String) → insert s ts ≢ []
insert-nonempty s [] = λ h. cc
insert-nonempty s (t ∷ ts) = elim (Bool-cases (string_le s t)) [
  | inl e ↦ rw e (λ h. cc)
  | inr e ↦ rw e (λ h. cc)
]

-- A list that is empty once sorted was empty.
pub sort-nil : (ts : List String) → sort ts ≡ [] → ts ≡ []
unfolding sort
sort-nil [] h = refl
sort-nil (t ∷ ts) h = absurd (insert-nonempty t (sort ts) h)
