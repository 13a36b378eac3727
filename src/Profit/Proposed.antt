-- ===== src/Profit/Proposed.antt =====
-- What `prepareRepricingProposal` has checked before it proposes a price.
use eauto_ai.Prelude.{
  ℕ, Bool, true, false, ◌+◌, ◌≤◌, ◌<◌, ◌≡◌, refl, arith, leb, ltb, if◌then◌else◌,
}
use eauto_ai.Prelude.Int.{ℤ, pos, leb_ℤ}
use eauto_ai.Prelude.Result.{ok, ok-injective}
use eauto_ai.Prelude.Result.Pure.{>>=-eq-ok}
use eauto_ai.Profit.{
  CompleteProfitabilitySnapshot, complete, RepricingPolicy, RepricingProposal, RepricingDecision,
  proposed, maximum_increase_exceeded, competitive_ceiling_exceeded, invalid_policy, no_change,
  basis_points,
}
use eauto_ai.Profit.Rounding.{Rounding}
use eauto_ai.Profit.Checks.{basis_points-pos}
use eauto_ai.Profit.Reprice.{
  exceeds_ceiling, required_price, maximum_allowed_price, propose, decide_price, decide,
  prepare_repricing_proposal,
}

chosen :
    (a b : Bool) (n : ℕ) (q p : RepricingProposal)
    → (if a
        then maximum_increase_exceeded n
        else if b
        then competitive_ceiling_exceeded n
        else proposed q)
      ≡ proposed p
    → (a ≡ false) × (b ≡ false) × (q ≡ p)
chosen true b n q p h = cc
chosen false true n q p h = cc
chosen false false n q p h = (refl, refl, cc)

open_to :
    (a b : Bool) (m : ℤ) (n : ℕ) (d : RepricingDecision) (p : RepricingProposal)
    → (if a then invalid_policy else if b then no_change m n else d) ≡ proposed p
    → (a ≡ false) × (b ≡ false) × (d ≡ proposed p)
open_to true b m n d p h = cc
open_to false true m n d p h = cc
open_to false false m n d p h = (refl, refl, h)

module _ (R : Rounding) where
  -- What was checked before a proposal.
  pub record IsProposed (c : CompleteProfitabilitySnapshot) (policy : RepricingPolicy)
      (p : RepricingProposal) : Type 0 where
    pub target : ℕ
    pub increase : ℕ
    pub target_read : policy.target_margin_bps ≡ pos target
    pub increase_read : policy.maximum_increase_bps ≡ pos increase
    pub target_bound : target ≤ 10000
    pub increase_bound : increase ≤ 10000
    pub feasible : c.variable_rate_bps + target < 10000
    pub low : leb_ℤ (pos target) c.margin_bps ≡ false
    pub allowed : required_price R c target ≤ maximum_allowed_price R c increase
    pub competitive :
        exceeds_ceiling policy.competitive_ceiling_minor (required_price R c target) ≡ false
    pub form : propose R c policy target (required_price R c target) ≡ p

  decide_price-proposed :
      (c : CompleteProfitabilitySnapshot) (policy : RepricingPolicy) (target increase price : ℕ)
      (p : RepricingProposal)
      → decide_price R c policy target increase price ≡ proposed p
      → (price ≤ maximum_allowed_price R c increase)
        × (exceeds_ceiling policy.competitive_ceiling_minor price ≡ false)
        × (propose R c policy target price ≡ p)
  unfolding decide_price
  decide_price-proposed c policy target increase price p h =
      let (fits, cheap, same) =
        chosen (ltb (maximum_allowed_price R c increase) price)
          (exceeds_ceiling policy.competitive_ceiling_minor price) price
          (propose R c policy target price) p h in
      (ground arith, cheap, same)

  decide-proposed :
      (c : CompleteProfitabilitySnapshot) (policy : RepricingPolicy) (target increase : ℕ)
      (p : RepricingProposal)
      → decide R c policy target increase ≡ proposed p
      → (c.variable_rate_bps + target < 10000)
        × (leb_ℤ (pos target) c.margin_bps ≡ false)
        × (decide_price R c policy target increase (required_price R c target) ≡ proposed p)
  unfolding decide
  decide-proposed c policy target increase p h =
      let (fits, low, rest) =
        open_to (leb 10000 (c.variable_rate_bps + target)) (leb_ℤ (pos target) c.margin_bps)
          c.margin_bps target (decide_price R c policy target increase (required_price R c target))
          p h in
      (ground arith, low, rest)

  pub prepare-IsProposed :
      (c : CompleteProfitabilitySnapshot) (policy : RepricingPolicy) (p : RepricingProposal)
      → prepare_repricing_proposal R (complete c) policy ≡ ok (proposed p)
      → IsProposed c policy p
  unfolding prepare_repricing_proposal
  prepare-IsProposed c policy p h =
      let (target, read, h1) = >>=-eq-ok (basis_points policy.target_margin_bps _) _ h in
      let (increase, read', h2) = >>=-eq-ok (basis_points policy.maximum_increase_bps _) _ h1 in
      let decided = ok-injective (decide R c policy target increase) (proposed p) h2 in
      let (feasible, low, h3) = decide-proposed c policy target increase p decided in
      let (fits, cheap, same) =
        decide_price-proposed c policy target increase (required_price R c target) p h3 in
      let (is_target, target_bound) = basis_points-pos policy.target_margin_bps _ target read in
      let (is_increase, increase_bound) =
        basis_points-pos policy.maximum_increase_bps _ increase read' in
      record {
        target = target;
        increase = increase;
        target_read = is_target;
        increase_read = is_increase;
        target_bound = target_bound;
        increase_bound = increase_bound;
        feasible = feasible;
        low = low;
        allowed = fits;
        competitive = cheap;
        form = same;
      }
