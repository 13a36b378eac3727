-- ===== src/Profit/Margin.antt =====
-- The margin that a proposal projects, against the target.
use native.Mathlib.Nat.{mul-le-mul_left}
use eauto_ai.Prelude.{ℕ, ◌+◌, ◌-◌, ◌*◌, ◌/◌, ◌≤◌, ◌<◌, ◌≡◌, refl, ap, ◌∙◌, arith, sym}
use mathlib.Core.Path.{subst}
use eauto_ai.Prelude.Int.{ℤ, pos, ◌-ℤ◌, max_safe}
use eauto_ai.Prelude.Result.{ok}
use eauto_ai.Profit.{
  ProfitabilityInput, CompleteProfitabilitySnapshot, complete, RepricingPolicy, RepricingProposal,
  proposed,
}
use eauto_ai.Profit.Rounding.{Rounding, IsExact, round_exact}
use eauto_ai.Profit.Calculate.{calculate_profitability}
use eauto_ai.Profit.Accounts.{sum, calculate_profitability-IsBooked}
use eauto_ai.Profit.Reprice.{per_unit_fixed_costs, projected_profit, prepare_repricing_proposal}
use eauto_ai.Profit.Proposed.{IsProposed, prepare-IsProposed}
use eauto_ai.Profit.Target.{unit_cost, booked-IsLeastPrice}

left_over :
    (price unit fee : ℕ)
    → unit + fee ≤ price
    → (pos price -ℤ pos unit -ℤ pos fee) ≡ pos (price - unit - fee)
left_over price unit fee h = ground arith

fee_bound : (price rate : ℕ) → round_exact price rate 10000 * 20000 ≤ 2 * (price * rate) + 10000
fee_bound price rate = omega arith

-- A price that pays the costs, the rate and the target leaves a profit of at least the target's
-- share, but for the rounding of the fee.
profit_bound :
    (price unit rate target fee : ℕ)
    → unit * 10000 + price * (rate + target) ≤ price * 10000
    → fee * 20000 ≤ 2 * (price * rate) + 10000
    → (unit + fee ≤ price) × (target * price * 2 ≤ (price - unit - fee) * 20000 + 10000)
profit_bound price unit rate target fee h k = (omega arith, omega arith)

quotient_bound :
    (n price target : ℕ)
    → 0 < price
    → target * price * 2 ≤ n * 20000 + 10000
    → target * price < (n * 10000 / price + 1) * price + 5000
quotient_bound n price target h k = omega arith

-- The margin of a proposal, at its own price.
margin_is :
    (R : Rounding) (c : CompleteProfitabilitySnapshot) (policy : RepricingPolicy)
    (p : RepricingProposal)
    → IsProposed R c policy p
    → p.projected_margin_bps
      ≡ R.trunc (projected_profit R c p.proposed_price_minor) 10000 p.proposed_price_minor
margin_is R c policy p asked =
    subst
      (λ x.
        x.projected_margin_bps
        ≡ R.trunc (projected_profit R c x.proposed_price_minor) 10000 x.proposed_price_minor)
      asked.form refl

same_target :
    (R : Rounding) (c : CompleteProfitabilitySnapshot) (policy : RepricingPolicy)
    (p : RepricingProposal)
    → IsProposed R c policy p
    → policy.target_margin_bps ≡ pos p.target_margin_bps
same_target R c policy p asked = asked.target_read ∙ ap (λ x. pos x.target_margin_bps) asked.form

-- What the arithmetic of a projection gives once its numbers are exact.
projected :
    (R : Rounding) (c : CompleteProfitabilitySnapshot) (price unit rate target : ℕ) (margin : ℤ)
    → IsExact R
    → per_unit_fixed_costs R c ≡ unit
    → c.variable_rate_bps ≡ rate
    → price * rate ≤ max_safe
    → price * 10000 ≤ max_safe
    → 0 < price
    → unit * 10000 + price * (rate + target) ≤ price * 10000
    → margin ≡ R.trunc (projected_profit R c price) 10000 price
    → (m : ℕ) × (margin ≡ pos m) × (target * price < (m + 1) * price + 5000)
projected R c price unit rate target margin exact unit_is rate_is fee_safe price_safe sold pays is =
    let fee = exact.rounds price rate 5000 (omega arith) fee_safe in
    let (room, enough) =
      profit_bound price unit rate target (round_exact price rate 10000) pays
        (fee_bound price rate) in
    let n = price - unit - round_exact price rate 10000 in
    let profit : projected_profit R c price ≡ pos n =
      ap (λ r. pos price -ℤ pos (per_unit_fixed_costs R c) -ℤ pos (R.round price r 10000)) rate_is
      ∙ ap (λ u. pos price -ℤ pos u -ℤ pos (R.round price rate 10000)) unit_is
      ∙ ap (λ v. pos price -ℤ pos unit -ℤ pos v) fee
      ∙ left_over price unit _ room in
    (
      n * 10000 / price,
      is
          ∙ ap (λ z. R.trunc z 10000 price) profit
          ∙ exact.truncs (pos n) 10000 price sold (omega arith),
      quotient_bound n price target sold enough,
    )

-- Under the conditions of the least price, a proposal at a positive price projects no loss, and its
-- projected margin falls short of the policy's target by less than one basis point and five thousand
-- over the price, which is what the rounding of the fee may take.
pub prepare_repricing_proposal-margin :
    (R : Rounding) (input : ProfitabilityInput) (c : CompleteProfitabilitySnapshot)
    (policy : RepricingPolicy) (p : RepricingProposal)
    → IsExact R
    → calculate_profitability R input ≡ ok (complete c)
    → prepare_repricing_proposal R (complete c) policy ≡ ok (proposed p)
    → c.fixed_costs_minor * 10000 ≤ max_safe
    → c.sale_price_minor * 20000 ≤ max_safe
    → 0 < p.proposed_price_minor
    → (m : ℕ) × (p.projected_margin_bps ≡ pos m)
      × (policy.target_margin_bps ≡ pos p.target_margin_bps)
      × (p.target_margin_bps * p.proposed_price_minor < (m + 1) * p.proposed_price_minor + 5000)
prepare_repricing_proposal-margin R input c policy p exact h k fixed_safe sale_safe sold =
    let asked = prepare-IsProposed R c policy p k in
    let (f, checked, books) = calculate_profitability-IsBooked R input c h in
    let best =
      booked-IsLeastPrice R input c policy p f exact checked books fixed_safe sale_safe asked in
    let read = same_target R c policy p asked in
    let target = pos-injective (sym best.target_read ∙ read) in
    let range =
      mul-le-mul_left {m = 10000 + best.increase} {n = 20000} c.sale_price_minor
        (omega (arith, increase_bound best.increase asked best.increase_read)) in
    let price_safe : p.proposed_price_minor * 10000 ≤ max_safe =
      omega (arith, range, best.limited, sale_safe) in
    let rate_low =
      mul-le-mul_left {m = c.variable_rate_bps} {n = 10000} p.proposed_price_minor
        (omega (arith, asked.feasible)) in
    let (m, is, bound) =
      projected R c p.proposed_price_minor (sum f.amounts) c.variable_rate_bps best.target
        p.projected_margin_bps exact (unit_cost R f c exact checked.quantity.1 books) refl
        (omega (arith, rate_low, price_safe)) price_safe sold best.pays
        (margin_is R c policy p asked) in
    (
      m,
      is,
      read,
      subst (λ t. t * p.proposed_price_minor < (m + 1) * p.proposed_price_minor + 5000) target
          bound,
    )
  where
    pos-injective : {a b : ℕ} → pos a ≡ pos b → a ≡ b
    pos-injective h = cc

    increase_bound :
        (i : ℕ) (asked : IsProposed R c policy p) → policy.maximum_increase_bps ≡ pos i → i ≤ 10000
    increase_bound i asked h =
        let same = pos-injective (sym asked.increase_read ∙ h) in
        omega (arith, same, asked.increase_bound)
