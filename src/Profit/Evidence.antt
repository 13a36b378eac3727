-- ===== src/Profit/Evidence.antt =====
-- What a complete snapshot says of the evidence of its numbers.
use eauto_ai.Prelude.{ℕ, some, true, List, [], All, ◌∙◌, ◌≡◌, ap, arith}
use eauto_ai.Prelude.Tested.{Any, any-Any}
use eauto_ai.Prelude.Int.{pos}
use eauto_ai.Prelude.Result.{ok}
use eauto_ai.Time.{at}
use eauto_ai.Profit.{
  EconomicCostKind, product_cost, fulfillment_cost, same_kind, EconomicEvidenceReference,
  EconomicCostComponent, ProfitabilityInput, CompleteProfitabilitySnapshot, complete,
}
use eauto_ai.Profit.Rounding.{Rounding}
use eauto_ai.Profit.Calculate.{
  required_cost_kinds, has_kind, missing_kinds, account, calculate_profitability,
}
use eauto_ai.Profit.Checks.{IsFresh}
use eauto_ai.Profit.Accounts.{complete-facts, account-rate}

-- The rate and the two required kinds of cost are there, and the evidence of the rate and of every
-- cost was observed by `as_of` and at most the maximum age before.
pub record IsSupported (input : ProfitabilityInput) (c : CompleteProfitabilitySnapshot)
    : Type 0 where
  pub as_of : ℕ
  pub age : ℕ
  pub evidence : EconomicEvidenceReference
  pub as_of_read : input.as_of ≡ at as_of
  pub age_read : input.maximum_evidence_age_ms ≡ pos age
  pub rate : input.variable_rate_bps ≡ some (pos c.variable_rate_bps)
  pub rate_evidence : input.variable_rate_evidence ≡ some evidence
  pub rate_fresh : IsFresh as_of age evidence
  pub costs_fresh : All (λ cost. IsFresh as_of age cost.evidence) input.costs
  pub has_product : Any (λ cost. cost.kind ≡ product_cost) input.costs
  pub has_fulfillment : Any (λ cost. cost.kind ≡ fulfillment_cost) input.costs

none_missing :
    (costs : List EconomicCostComponent)
    → missing_kinds costs required_cost_kinds ≡ []
    → (has_kind costs product_cost ≡ true) × (has_kind costs fulfillment_cost ≡ true)
none_missing costs h = ground arith

has_kind-Any :
    (costs : List EconomicCostComponent) (kind : EconomicCostKind)
    → ((k : EconomicCostKind) → same_kind k kind ≡ true → k ≡ kind)
    → has_kind costs kind ≡ true
    → Any (λ cost. cost.kind ≡ kind) costs
has_kind-Any costs kind f h =
    any-Any (λ cost. cost.kind ≡ kind) (λ cost. same_kind cost.kind kind) (λ cost e. f cost.kind e)
      costs h

same_kind-product : (k : EconomicCostKind) → same_kind k product_cost ≡ true → k ≡ product_cost
same_kind-product k h = ground arith

same_kind-fulfillment :
    (k : EconomicCostKind) → same_kind k fulfillment_cost ≡ true → k ≡ fulfillment_cost
same_kind-fulfillment k h = ground arith

-- A snapshot is complete only where the fee rate, a product cost and a fulfillment cost are given,
-- and the evidence of the rate and of each cost is dated, from no later than the date of the
-- calculation, and no older than the maximum age; and its rate is the one given.
pub calculate_profitability-IsSupported :
    (R : Rounding) (input : ProfitabilityInput) (c : CompleteProfitabilitySnapshot)
    → calculate_profitability R input ≡ ok (complete c)
    → IsSupported input c
unfolding account
calculate_profitability-IsSupported R input c h =
    let (f, r, checked, given, whole, fresh, done) = complete-facts R input c h in
    let (rate, e, from, rate_fresh) = checked.rate r given fresh in
    let (product, fulfillment) = none_missing input.costs (checked.kinds whole) in
    record {
      as_of = f.as_of;
      age = f.age;
      evidence = e;
      as_of_read = checked.facts.as_of;
      age_read = checked.facts.age;
      rate = rate ∙ ap (λ n. some (pos n)) ((account-rate R input f r c done));
      rate_evidence = from;
      rate_fresh = rate_fresh;
      costs_fresh = checked.costs fresh;
      has_product = has_kind-Any input.costs product_cost same_kind-product product;
      has_fulfillment = has_kind-Any input.costs fulfillment_cost same_kind-fulfillment fulfillment;
    }
