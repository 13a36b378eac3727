-- ===== src/Profit/Status.antt =====
-- The status of a snapshot against its exact margin.
use native.Mathlib.Nat.{mul-pos, mul-le-mul_right}
use eauto_ai.Prelude.{
  ℕ, ◌+◌, ◌-◌, ◌*◌, ◌/◌, ◌≤◌, ◌<◌, ◌≡◌, inl, inr, ap, ◌∙◌, arith, Bool-cases, leb, sym,
}
use mathlib.Core.Path.{subst}
use eauto_ai.Prelude.Int.{pos, pos_part, neg_part, sub_ℕ, scale_trunc, max_safe}
use eauto_ai.Prelude.Result.{ok}
use eauto_ai.Profit.{
  ProfitabilityStatus, profitable, below_floor, loss, ProfitabilityInput,
  CompleteProfitabilitySnapshot, complete,
}
use eauto_ai.Profit.Rounding.{Rounding, IsExact}
use eauto_ai.Profit.Calculate.{status_of, calculate_profitability}
use eauto_ai.Profit.Accounts.{calculate_profitability-IsBooked}

-- What a status says of a revenue, the costs and the least margin, in exact numbers.
abbrev pub Verdict : ProfitabilityStatus → ℕ → ℕ → ℕ → Type 0
Verdict loss gross total minimum = gross < total
Verdict below_floor gross total minimum =
    (total ≤ gross) × ((gross - total) * 10000 < minimum * gross)
Verdict profitable gross total minimum =
    (total ≤ gross) × (minimum * gross ≤ (gross - total) * 10000)

quotient_lt : (n d m : ℕ) → 0 < d → n / d < m → n < m * d
quotient_lt n d m h k = omega (arith, mul-le-mul_right {m = n / d + 1} {n = m} d (omega arith))

quotient_le : (n d m : ℕ) → 0 < d → m ≤ n / d → m * d ≤ n
quotient_le n d m h k = omega (arith, mul-le-mul_right d k)

status_of-Verdict :
    (gross total minimum : ℕ)
    → 0 < gross
    → Verdict
        (status_of (sub_ℕ gross total) (scale_trunc (sub_ℕ gross total) 10000 gross) minimum)
        gross
        total
        minimum
status_of-Verdict gross total minimum h = elim (Bool-cases (leb total gross)) [
  | inl e ↦ rw e (gain (ground arith))
  | inr e ↦ rw e (ground arith)
]
  where
    gain :
        total ≤ gross
        → Verdict
            (status_of (pos (gross - total)) (pos ((gross - total) * 10000 / gross)) minimum)
            gross
            total
            minimum
    gain k = elim (Bool-cases (leb minimum ((gross - total) * 10000 / gross))) [
      | inl e ↦
          let m = quotient_le ((gross - total) * 10000) gross minimum h (ground arith) in
          ground arith
      | inr e ↦
          let m = quotient_lt ((gross - total) * 10000) gross minimum h (ground arith) in
          ground arith
    ]

-- With roundings that are exact where the product is a safe integer, the status of a complete
-- snapshot is what the exact numbers say, if ten thousand times the profit is safe: a loss is less
-- revenue than costs, and the floor is compared with the profit as a share of the revenue.
pub calculate_profitability-Verdict :
    (R : Rounding) (input : ProfitabilityInput) (c : CompleteProfitabilitySnapshot)
    → IsExact R
    → calculate_profitability R input ≡ ok (complete c)
    → (pos_part c.net_profit_minor + neg_part c.net_profit_minor) * 10000 ≤ max_safe
    → Verdict c.status c.gross_revenue_minor c.total_costs_minor c.minimum_margin_bps
calculate_profitability-Verdict R input c exact h safe =
    let (f, checked, books) = calculate_profitability-IsBooked R input c h in
    let earned : 0 < c.gross_revenue_minor =
      subst (λ n. 0 < n) (sym books.gross) (mul-pos checked.price.1 checked.quantity.1) in
    let margin =
      books.margin ∙ exact.truncs c.net_profit_minor 10000 c.gross_revenue_minor earned safe in
    let status =
      books.status
      ∙ ap (λ m. status_of c.net_profit_minor m c.minimum_margin_bps) margin
      ∙ ap (λ n. status_of n (scale_trunc n 10000 c.gross_revenue_minor) c.minimum_margin_bps)
          books.net in
    subst (λ s. Verdict s c.gross_revenue_minor c.total_costs_minor c.minimum_margin_bps)
      (sym status)
      (status_of-Verdict c.gross_revenue_minor c.total_costs_minor c.minimum_margin_bps earned)
