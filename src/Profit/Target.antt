-- ===== src/Profit/Target.antt =====
-- The price that `prepareRepricingProposal` proposes, against the target margin.
use native.Mathlib.Nat.{mul-le-mul_right, mul-le-mul_left, le_of_mul-le-mul_left}
use eauto_ai.Prelude.{
  ◌⊎◌, ℕ, Option, none, some, true, false, ◌+◌, ◌-◌, ◌*◌, ◌≤◌, ◌<◌, ◌≡◌, inl, inr, ap, ◌∙◌, arith,
  Bool-cases, leb, sym,
}
use mathlib.Core.Path.{subst}
use eauto_ai.Prelude.Int.{ℤ, pos, leb_ℤ, ◌≤ℤ◌, max_safe}
use eauto_ai.Prelude.Result.{ok}
use eauto_ai.Profit.{
  ProfitabilityInput, CompleteProfitabilitySnapshot, complete, RepricingPolicy, RepricingProposal,
  proposed,
}
use eauto_ai.Profit.Rounding.{Rounding, IsExact, ceil_exact}
use eauto_ai.Profit.Calculate.{Facts, calculate_profitability}
use eauto_ai.Profit.Checks.{IsRead}
use eauto_ai.Profit.Accounts.{sum, IsBooked, calculate_profitability-IsBooked}
use eauto_ai.Profit.Reprice.{exceeds_ceiling, per_unit_fixed_costs, prepare_repricing_proposal}
use eauto_ai.Profit.Proposed.{IsProposed, prepare-IsProposed}

-- A rounded-up quotient is the least number that times the divisor is enough.
ceil-enough : (a b d : ℕ) → 0 < d → a * b ≤ ceil_exact a b d * d
ceil-enough a b d h = omega arith

ceil-least : (a b d q : ℕ) → 0 < d → a * b ≤ q * d → ceil_exact a b d ≤ q
ceil-least a b d q h k = elim (Bool-cases (leb (ceil_exact a b d) q)) [
  | inl e ↦ ground arith
  | inr e ↦
      absurd (omega (arith, mul-le-mul_right {m = q + 1} {n = ceil_exact a b d} d (ground arith)))
]

-- Not above the ceiling, if there is one.
abbrev pub IsWithin : Option ℤ → ℕ → Type 0
IsWithin none price = Unit
IsWithin (some ceiling) price = pos price ≤ℤ ceiling

-- The price pays `unit`, the fee and the target margin of one unit, and one less does not; it is
-- above no limit of the policy, the current margin is below the target, and a person must approve it.
pub record IsLeastPrice (c : CompleteProfitabilitySnapshot) (policy : RepricingPolicy) (unit : ℕ)
    (p : RepricingProposal) : Type 0 where
  pub target : ℕ
  pub increase : ℕ
  pub target_read : policy.target_margin_bps ≡ pos target
  pub increase_read : policy.maximum_increase_bps ≡ pos increase
  pub pays :
      unit * 10000 + p.proposed_price_minor * (c.variable_rate_bps + target)
      ≤ p.proposed_price_minor * 10000
  pub least :
      (p.proposed_price_minor ≡ 0)
      ⊎ ((p.proposed_price_minor - 1) * 10000
          < unit * 10000 + (p.proposed_price_minor - 1) * (c.variable_rate_bps + target))
  pub limited : p.proposed_price_minor * 10000 ≤ c.sale_price_minor * (10000 + increase)
  pub ceiling : IsWithin policy.competitive_ceiling_minor p.proposed_price_minor
  pub low : leb_ℤ (pos target) c.margin_bps ≡ false
  pub approval : p.requires_approval ≡ true
  pub listing : (p.account_id ≡ c.account_id) × (p.listing_id ≡ c.listing_id)

below_ceiling : (o : Option ℤ) (n : ℕ) → exceeds_ceiling o n ≡ false → IsWithin o n
below_ceiling none n h = tt
below_ceiling (some z) n h = ground arith

-- The fixed costs of one unit are the sum of the costs of the input.
pub unit_cost :
    (R : Rounding) (f : Facts) (c : CompleteProfitabilitySnapshot)
    → IsExact R
    → 0 < f.quantity
    → IsBooked R f c
    → per_unit_fixed_costs R c ≡ sum f.amounts
unit_cost R f c exact h books =
    ap (λ q. R.ceil c.fixed_costs_minor 1 q) books.quantity
    ∙ exact.ceils c.fixed_costs_minor 1 f.quantity h (omega (arith, books.fixed_bound))
    ∙ whole (sum f.amounts) f.quantity c.fixed_costs_minor h books.fixed
  where
    whole : (s q n : ℕ) → 0 < q → n ≡ s * q → ceil_exact n 1 q ≡ s
    whole s q n h e =
        let enough = ceil-enough n 1 q h in
        let least = ceil-least n 1 q s h (omega (arith, e)) in
        let most =
          le_of_mul-le-mul_left {m = s} {n = ceil_exact n 1 q} {k = q} (omega (arith, e, enough))
            h in
        omega (arith, least, most)

shared : (u x d s : ℕ) → s + d ≡ 10000 → u ≤ x * d → u + x * s ≤ x * 10000
shared u x d s h k = let split = ap (λ t. x * t) h in omega arith

unshared : (u x d s : ℕ) → s + d ≡ 10000 → u + x * s ≤ x * 10000 → u ≤ x * d
unshared u x d s h k = let split = ap (λ t. x * t) h in omega arith

-- One less than the least is not enough.
predecessor :
    (price u s : ℕ)
    → ((q : ℕ) → u + q * s ≤ q * 10000 → price ≤ q)
    → (price ≡ 0) ⊎ ((price - 1) * 10000 < u + (price - 1) * s)
predecessor price u s h = elim (Bool-cases (leb (u + (price - 1) * s) ((price - 1) * 10000))) [
  | inl e ↦ let low = h (price - 1) (ground arith) in inl (omega (arith, low))
  | inr e ↦ inr (ground arith)
]

module _ (R : Rounding) (c : CompleteProfitabilitySnapshot) (policy : RepricingPolicy)
    (p : RepricingProposal) (unit : ℕ) (exact : IsExact R)
    (unit_is : per_unit_fixed_costs R c ≡ unit) (unit_safe : unit * 10000 ≤ max_safe)
    (sale_safe : c.sale_price_minor * 20000 ≤ max_safe) where
  required_is :
      (asked : IsProposed R c policy p)
      → p.proposed_price_minor ≡ ceil_exact unit 10000 (10000 - c.variable_rate_bps - asked.target)
  required_is asked =
      let d = 10000 - c.variable_rate_bps - asked.target in
      ap (λ x. x.proposed_price_minor) (sym asked.form)
      ∙ ap (λ u. R.ceil u 10000 d) unit_is
      ∙ exact.ceils unit 10000 d (omega (arith, asked.feasible)) unit_safe

  allowed_is :
      (asked : IsProposed R c policy p)
      → p.proposed_price_minor * 10000 ≤ c.sale_price_minor * (10000 + asked.increase)
  allowed_is asked =
      let range =
        mul-le-mul_left {m = 10000 + asked.increase} {n = 20000} c.sale_price_minor
          (omega (arith, asked.increase_bound)) in
      let floor =
        exact.floors c.sale_price_minor (10000 + asked.increase) 10000 (omega arith)
          (omega (arith, range, sale_safe)) in
      let same = ap (λ x. x.proposed_price_minor) asked.form in
      omega (arith, floor, same, asked.allowed)

  pub proposed-IsLeastPrice : IsProposed R c policy p → IsLeastPrice c policy unit p
  proposed-IsLeastPrice asked =
      let d = 10000 - c.variable_rate_bps - asked.target in
      let rest : c.variable_rate_bps + asked.target + d ≡ 10000 = omega (arith, asked.feasible) in
      let positive : 0 < d = omega (arith, asked.feasible) in
      let is_price = required_is asked in
      record {
        target = asked.target;
        increase = asked.increase;
        target_read = asked.target_read;
        increase_read = asked.increase_read;
        pays =
            shared (unit * 10000) p.proposed_price_minor d _ rest (
              subst (λ x. unit * 10000 ≤ x * d) (sym is_price) (ceil-enough unit 10000 d positive));
        least =
            predecessor p.proposed_price_minor (unit * 10000) (c.variable_rate_bps + asked.target)
              (λ q h.
                subst (λ x. x ≤ q) (sym is_price)
                  (ceil-least unit 10000 d q positive (unshared (unit * 10000) q d _ rest h)));
        limited = allowed_is asked;
        ceiling = below_ceiling policy.competitive_ceiling_minor p.proposed_price_minor (
            ap (λ x. exceeds_ceiling policy.competitive_ceiling_minor x.proposed_price_minor)
              (sym asked.form)
            ∙ asked.competitive);
        low = asked.low;
        approval = sym (ap (λ x. x.requires_approval) asked.form);
        listing =
            (sym (ap (λ x. x.account_id) asked.form), sym (ap (λ x. x.listing_id) asked.form));
      }

pub booked-IsLeastPrice :
    (R : Rounding) (input : ProfitabilityInput) (c : CompleteProfitabilitySnapshot)
    (policy : RepricingPolicy) (p : RepricingProposal) (f : Facts)
    → IsExact R
    → IsRead input f
    → IsBooked R f c
    → c.fixed_costs_minor * 10000 ≤ max_safe
    → c.sale_price_minor * 20000 ≤ max_safe
    → IsProposed R c policy p
    → IsLeastPrice c policy (sum f.amounts) p
booked-IsLeastPrice R input c policy p f exact checked books fixed_safe sale_safe asked =
    let unit = unit_cost R f c exact checked.quantity.1 books in
    let once =
      mul-le-mul_left {m = 1} {n = f.quantity} (sum f.amounts)
        (omega (arith, checked.quantity.1)) in
    proposed-IsLeastPrice R c policy p (sum f.amounts) exact unit
      (omega (arith, once, books.fixed, fixed_safe)) sale_safe asked

-- With roundings that are exact where the product is a safe integer, and costs and a price small
-- enough for that, a price proposed for a calculated snapshot is the least integer price at which
-- one unit pays the sum of the costs of the input, the fee and the target margin; it raises the
-- price by at most what the policy allows, is not above its ceiling, is for the snapshot's listing,
-- answers a margin below the target, and asks for approval.
pub prepare_repricing_proposal-IsLeastPrice :
    (R : Rounding) (input : ProfitabilityInput) (c : CompleteProfitabilitySnapshot)
    (policy : RepricingPolicy) (p : RepricingProposal)
    → IsExact R
    → calculate_profitability R input ≡ ok (complete c)
    → prepare_repricing_proposal R (complete c) policy ≡ ok (proposed p)
    → c.fixed_costs_minor * 10000 ≤ max_safe
    → c.sale_price_minor * 20000 ≤ max_safe
    → (f : Facts) × IsRead input f × IsLeastPrice c policy (sum f.amounts) p
prepare_repricing_proposal-IsLeastPrice R input c policy p exact h k fixed_safe sale_safe =
    let (f, checked, books) = calculate_profitability-IsBooked R input c h in
    (
      f,
      checked,
      booked-IsLeastPrice R input c policy p f exact checked books fixed_safe sale_safe
          (prepare-IsProposed R c policy p k),
    )
