-- ===== src/Time.antt =====
-- Dates. The code keeps an ISO text and reads it by `Date.parse`; a `Timestamp` is what is read:
-- milliseconds since 1970, or nothing where the text is no date (`NaN`). Every comparison with `NaN`
-- is false.
use eauto_ai.Prelude.{ℕ, ◌≤◌, ◌<◌, Bool, true, false, leb, ◌≡◌, refl, arith}

pub data Timestamp : Type 0 where
  at : ℕ → Timestamp
  unreadable : Timestamp

-- `Date.parse(t) <= now`
abbrev pub due : Timestamp → ℕ → Bool
due (at t) now = leb t now
due unreadable now = false

-- The date is after the time `now`; a text that is no date does not say.
abbrev pub IsAhead : Timestamp → ℕ → Type 0
IsAhead (at t) now = now < t
IsAhead unreadable now = Unit

pub due-IsAhead : (t : Timestamp) (now : ℕ) → due t now ≡ false → IsAhead t now
due-IsAhead (at t) now h = ground arith
due-IsAhead unreadable now h = tt

pub IsAhead-due : (t : Timestamp) (now : ℕ) → IsAhead t now → due t now ≡ false
IsAhead-due (at t) now h = ground arith
IsAhead-due unreadable now h = refl

-- The date was reached at the time `now`.
abbrev pub IsReached : Timestamp → ℕ → Type 0
IsReached (at t) now = t ≤ now
IsReached unreadable now = ⊥

pub due-IsReached : (t : Timestamp) (now : ℕ) → due t now ≡ true → IsReached t now
due-IsReached (at t) now h = ground arith
due-IsReached unreadable now h = cc
