-- ===== src/Profit/Rounding.antt =====
-- The rounded quotients of packages/domain/src/profitEngine.ts that the code does not check for
-- overflow. They are computed in double precision, so the functions come from outside.
use eauto_ai.Prelude.{ℕ, ◌+◌, ◌-◌, ◌*◌, ◌/◌, ◌≤◌, ◌<◌, ◌≡◌}
use eauto_ai.Prelude.Int.{ℤ, pos_part, neg_part, scale_trunc, max_safe}

-- `Math.round((a * b) / d)`, `Math.ceil((a * b) / d)`, `Math.floor((a * b) / d)` and
-- `Math.trunc((z * b) / d)`.
pub record Rounding : Type 0 where
  pub round : ℕ → ℕ → ℕ → ℕ
  pub ceil : ℕ → ℕ → ℕ → ℕ
  pub floor : ℕ → ℕ → ℕ → ℕ
  pub trunc : ℤ → ℕ → ℕ → ℤ

-- The nearest integer, a half upwards.
abbrev pub round_exact : ℕ → ℕ → ℕ → ℕ
round_exact a b d = (2 * (a * b) + d) / (2 * d)

abbrev pub ceil_exact : ℕ → ℕ → ℕ → ℕ
ceil_exact a b d = (a * b + (d - 1)) / d

abbrev pub floor_exact : ℕ → ℕ → ℕ → ℕ
floor_exact a b d = a * b / d

-- Of IEEE 754: the product of two integers is exact up to 2 ^ 53 - 1, and its quotient by a positive
-- integer then rounds to a double on the same side of every integer and, for an even divisor, of
-- every half.
pub record IsExact (R : Rounding) : Type 0 where
  pub rounds :
      (a b h : ℕ) → 0 < h → a * b ≤ max_safe → R.round a b (2 * h) ≡ round_exact a b (2 * h)
  pub ceils : (a b d : ℕ) → 0 < d → a * b ≤ max_safe → R.ceil a b d ≡ ceil_exact a b d
  pub floors : (a b d : ℕ) → 0 < d → a * b ≤ max_safe → R.floor a b d ≡ floor_exact a b d
  pub truncs :
      (z : ℤ) (b d : ℕ)
      → 0 < d
      → (pos_part z + neg_part z) * b ≤ max_safe
      → R.trunc z b d ≡ scale_trunc z b d
