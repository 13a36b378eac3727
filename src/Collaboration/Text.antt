-- ===== src/Collaboration/Text.antt =====
-- The checks of texts and numbers of packages/application/src/agentCollaborationService.ts. A text
-- that is too long is cut at a whole character.
use Prim.Native.String as Native
use Prim.Native.Char.{code}
use eauto_ai.Prelude.{
  ℕ, zero, suc, ◌-◌, min, String, Bool, true, false, ◌||◌, List, [], ◌∷◌, unique, string_eq, ltb,
  leb, eqb, if◌then◌else◌,
}
use eauto_ai.Prelude.Int.{ℤ, pos, negsuc, is_safe}
use eauto_ai.Prelude.Strings.{is_space}
use eauto_ai.Prelude.Result.{Result, ok, err}
use eauto_ai.Prelude.Result.Pure.{◌>>=◌}
use eauto_ai.Collaboration.{CollaborationError, required_field, not_positive}

-- `[\r\n\t]`
abbrev pub is_break : ℕ → Bool
is_break n = eqb n 13 || (eqb n 10 || eqb n 9)

-- `replace(/[\r\n\t]+/g, " ")`; the first argument says whether the last character was one of these.
abbrev pub unbroken : Bool → String → String
unbroken after Native.[] = ""
unbroken after (Native.◌∷◌ c s) =
    let rest = unbroken true s in
    let rest' = unbroken false s in
    if is_break (code c) then if after then rest else Native.◌∷◌ " " rest else Native.◌∷◌ c rest'

abbrev pub trim_start : String → String
trim_start Native.[] = ""
trim_start (Native.◌∷◌ c s) =
    let rest = trim_start s in if is_space (code c) then rest else Native.◌∷◌ c s

abbrev pub or_dropped : Bool → String → String → String
or_dropped true Native.[] whole = ""
or_dropped _ rest whole = whole

abbrev pub trim_end : String → String
trim_end Native.[] = ""
trim_end (Native.◌∷◌ c s) =
    let rest = trim_end s in or_dropped (is_space (code c)) rest (Native.◌∷◌ c rest)

-- The UTF-16 units of a character.
abbrev pub width : ℕ → ℕ
width n = if ltb n 65536 then 1 else 2

-- `slice(0, n)`
abbrev pub cut : ℕ → String → String
cut n Native.[] = ""
cut n (Native.◌∷◌ c s) =
    let rest = cut (n - width (code c)) s in
    if leb (width (code c)) n then Native.◌∷◌ c rest else ""

abbrev pub unless_empty : String → String → ℕ → Result CollaborationError String
unless_empty Native.[] field maximum = err (required_field field)
unless_empty (Native.◌∷◌ c s) field maximum = ok (cut maximum (Native.◌∷◌ c s))

unfoldable pub required : String → String → ℕ → Result CollaborationError String
required value field maximum =
    unless_empty (trim_end (trim_start (unbroken false value))) field maximum

-- `values.map((value) => required(value, "reference", 512))`
unfoldable pub required_all : List String → Result CollaborationError (List String)
required_all [] = ok []
required_all (v ∷ vs) = do
  first ← required v "reference" 512
  rest ← required_all vs
  ok (first ∷ rest)

-- `unique(values)`
abbrev pub unique_references : List String → Result CollaborationError (List String)
unique_references values = do all ← required_all values; ok (unique all)

unfoldable pub positive : ℤ → String → Result CollaborationError ℕ
positive (negsuc n) field = err (not_positive field)
positive (pos zero) field = err (not_positive field)
positive (pos (suc n)) field =
    if is_safe (pos (suc n)) then ok (suc n) else err (not_positive field)

unfoldable pub bounded : ℤ → Result CollaborationError ℕ
bounded value = do n ← positive value "limit"; ok (min 100 n)
