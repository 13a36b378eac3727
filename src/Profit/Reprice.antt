-- ===== src/Profit/Reprice.antt =====
-- `prepareRepricingProposal`: the decision on a snapshot.
use Prim.Native.String.{◌++◌ as concat}
use eauto_ai.Prelude.{
  ℕ, ◌+◌, ◌-◌, Option, none, some, Bool, true, false, ◌++◌, map, ltb, leb, if◌then◌else◌,
}
use eauto_ai.Prelude.Int.{ℤ, pos, ◌-ℤ◌, leb_ℤ, ltb_ℤ}
use eauto_ai.Prelude.Result.{Result, ok}
use eauto_ai.Prelude.Result.Pure.{◌>>=◌}
use eauto_ai.Profit.{
  CompleteProfitabilitySnapshot, ProfitabilitySnapshot, incomplete, complete, RepricingPolicy,
  RepricingProposal, RepricingDecision, proposed, no_change, incomplete_economics, invalid_policy,
  maximum_increase_exceeded, competitive_ceiling_exceeded, ProfitError, basis_points,
}
use eauto_ai.Profit.Rounding.{Rounding}

abbrev pub exceeds_ceiling : Option ℤ → ℕ → Bool
exceeds_ceiling none price = false
exceeds_ceiling (some ceiling) price = ltb_ℤ ceiling (pos price)

module _ (R : Rounding) where
  abbrev pub per_unit_fixed_costs : CompleteProfitabilitySnapshot → ℕ
  per_unit_fixed_costs c = R.ceil c.fixed_costs_minor 1 c.quantity

  abbrev pub required_price : CompleteProfitabilitySnapshot → ℕ → ℕ
  required_price c target =
      R.ceil (per_unit_fixed_costs c) 10000 (10000 - c.variable_rate_bps - target)

  abbrev pub maximum_allowed_price : CompleteProfitabilitySnapshot → ℕ → ℕ
  maximum_allowed_price c increase = R.floor c.sale_price_minor (10000 + increase) 10000

  -- The profit of one unit at the required price.
  abbrev pub projected_profit : CompleteProfitabilitySnapshot → ℕ → ℤ
  projected_profit c price =
      pos price -ℤ pos (per_unit_fixed_costs c) -ℤ pos (R.round price c.variable_rate_bps 10000)

  abbrev pub propose : CompleteProfitabilitySnapshot → RepricingPolicy → ℕ → ℕ → RepricingProposal
  propose c policy target price = record {
    account_id = c.account_id;
    listing_id = c.listing_id;
    currency = c.currency;
    current_price_minor = c.sale_price_minor;
    proposed_price_minor = price;
    current_margin_bps = c.margin_bps;
    projected_margin_bps = R.trunc (projected_profit c price) 10000 price;
    target_margin_bps = target;
    evidence_refs = c.evidence_refs;
    policy_version = policy.policy_version;
    requires_approval = true;
  }

  -- The decision once the required price is known.
  unfoldable pub decide_price :
      CompleteProfitabilitySnapshot → RepricingPolicy → ℕ → ℕ → ℕ → RepricingDecision
  decide_price c policy target increase price =
      if ltb (maximum_allowed_price c increase) price
      then maximum_increase_exceeded price
      else if exceeds_ceiling policy.competitive_ceiling_minor price
      then competitive_ceiling_exceeded price
      else proposed (propose c policy target price)

  unfoldable pub decide :
      CompleteProfitabilitySnapshot → RepricingPolicy → ℕ → ℕ → RepricingDecision
  decide c policy target increase =
      if leb 10000 (c.variable_rate_bps + target)
      then invalid_policy
      else if leb_ℤ (pos target) c.margin_bps
      then no_change c.margin_bps target
      else decide_price c policy target increase (required_price c target)

  unfoldable pub prepare_repricing_proposal :
      ProfitabilitySnapshot → RepricingPolicy → Result ProfitError RepricingDecision
  prepare_repricing_proposal (incomplete s) policy = ok (
      incomplete_economics
        (s.missing_inputs ++ map (λ id. concat "stale-evidence:" id) s.stale_evidence_ids))
  prepare_repricing_proposal (complete c) policy = do
    target ← basis_points policy.target_margin_bps "targetMarginBps"
    increase ← basis_points policy.maximum_increase_bps "maximumIncreaseBps"
    ok (decide c policy target increase)
