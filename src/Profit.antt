-- ===== src/Profit.antt =====
-- The profit engine: packages/domain/src/profitEngine.ts. A number that is no integer is not
-- modelled; an integer of any size and sign is.
pub mod Rounding
pub mod Calculate
pub mod Checks
pub mod Evidence
pub mod Status
pub mod Accounts
pub mod Reprice
pub mod Proposed
pub mod Target
pub mod Margin
pub mod Service
pub mod Scope
pub mod Daemon
pub mod Audit
use eauto_ai.Prelude.{
  ℕ, ◌*◌, ◌+◌, String, Option, Bool, true, false, ◌&&◌, List, Eq, eqb, ltb, leb, if◌then◌else◌,
  index_eq_iff, ◌≡◌, arith,
}
use eauto_ai.Prelude.Int.{ℤ, pos, negsuc, is_safe, max_safe}
use eauto_ai.Prelude.Result.{Result, ok, err}
use eauto_ai.Time.{Timestamp, at, unreadable}

pub data EconomicCostKind : Type 0 where
  product_cost fulfillment_cost packaging_cost ads_cost : EconomicCostKind
  returns_cost discount_cost import_cost other_cost : EconomicCostKind

abbrev pub kind_index : EconomicCostKind → ℕ
kind_index product_cost = 0
kind_index fulfillment_cost = 1
kind_index packaging_cost = 2
kind_index ads_cost = 3
kind_index returns_cost = 4
kind_index discount_cost = 5
kind_index import_cost = 6
kind_index other_cost = 7

abbrev pub kind_text : EconomicCostKind → String
kind_text product_cost = "product-cost"
kind_text fulfillment_cost = "fulfillment-cost"
kind_text packaging_cost = "packaging-cost"
kind_text ads_cost = "ads-cost"
kind_text returns_cost = "returns-cost"
kind_text discount_cost = "discount-cost"
kind_text import_cost = "import-cost"
kind_text other_cost = "other-cost"

abbrev pub same_kind : EconomicCostKind → EconomicCostKind → Bool
same_kind a b = eqb (kind_index a) (kind_index b)

pub data ProfitabilityStatus : Type 0 where
  profitable below_floor loss : ProfitabilityStatus

pub record EconomicEvidenceReference : Type 0 where
  pub id : String
  pub source : String
  pub observed_at : Timestamp
  pub content_hash : String

pub record EconomicCostComponent : Type 0 where
  pub kind : EconomicCostKind
  pub amount_minor : ℤ
  pub evidence : EconomicEvidenceReference

-- The one currency of the type.
pub data Currency : Type 0 where
  clp : Currency

pub record ProfitabilityInput : Type 0 where
  pub account_id : String
  pub listing_id : String
  pub currency : Currency
  pub sale_price_minor : ℤ
  pub quantity : ℤ
  pub variable_rate_bps : Option ℤ
  pub variable_rate_evidence : Option EconomicEvidenceReference
  pub costs : List EconomicCostComponent
  pub minimum_margin_bps : ℤ
  pub as_of : Timestamp
  pub maximum_evidence_age_ms : ℤ

pub record IncompleteProfitabilitySnapshot : Type 0 where
  pub account_id : String
  pub listing_id : String
  pub currency : Currency
  pub sale_price_minor : ℕ
  pub quantity : ℕ
  pub minimum_margin_bps : ℕ
  pub missing_inputs : List String
  pub stale_evidence_ids : List String
  pub evidence_refs : List String

pub record CompleteProfitabilitySnapshot : Type 0 where
  pub status : ProfitabilityStatus
  pub account_id : String
  pub listing_id : String
  pub currency : Currency
  pub sale_price_minor : ℕ
  pub quantity : ℕ
  pub minimum_margin_bps : ℕ
  pub variable_rate_bps : ℕ
  pub gross_revenue_minor : ℕ
  pub fixed_costs_minor : ℕ
  pub variable_costs_minor : ℕ
  pub total_costs_minor : ℕ
  pub net_profit_minor : ℤ
  pub margin_bps : ℤ
  pub evidence_refs : List String
  pub calculated_at : Timestamp

pub data ProfitabilitySnapshot : Type 0 where
  incomplete : IncompleteProfitabilitySnapshot → ProfitabilitySnapshot
  complete : CompleteProfitabilitySnapshot → ProfitabilitySnapshot

pub record RepricingPolicy : Type 0 where
  pub target_margin_bps : ℤ
  pub maximum_increase_bps : ℤ
  pub competitive_ceiling_minor : Option ℤ
  pub policy_version : String

pub record RepricingProposal : Type 0 where
  pub account_id : String
  pub listing_id : String
  pub currency : Currency
  pub current_price_minor : ℕ
  pub proposed_price_minor : ℕ
  pub current_margin_bps : ℤ
  pub projected_margin_bps : ℤ
  pub target_margin_bps : ℕ
  pub evidence_refs : List String
  pub policy_version : String
  pub requires_approval : Bool

-- A decision by its status, and a blocked one by its reason.
pub data RepricingDecision : Type 0 where
  proposed : RepricingProposal → RepricingDecision
  no_change : (current_margin_bps : ℤ) (target_margin_bps : ℕ) → RepricingDecision
  incomplete_economics : (missing_inputs : List String) → RepricingDecision
  invalid_policy : RepricingDecision
  maximum_increase_exceeded : (required_price_minor : ℕ) → RepricingDecision
  competitive_ceiling_exceeded : (required_price_minor : ℕ) → RepricingDecision

pub data ProfitError : Type 0 where
  not_positive not_basis_points not_a_date : (field : String) → ProfitError
  negative_age exceeded out_of_scope : ProfitError
  negative_cost : EconomicCostKind → ProfitError
  outside : (message : String) → ProfitError

-- The asserted numbers, as naturals.
unfoldable pub positive : ℤ → String → Result ProfitError ℕ
positive (negsuc n) field = err (not_positive field)
positive (pos n) field = if is_safe (pos n) && ltb 0 n then ok n else err (not_positive field)

unfoldable pub basis_points : ℤ → String → Result ProfitError ℕ
basis_points (negsuc n) field = err (not_basis_points field)
basis_points (pos n) field =
    if is_safe (pos n) && leb n 10000 then ok n else err (not_basis_points field)

-- `!Number.isSafeInteger(value) || value < 0`
unfoldable pub non_negative : ℤ → ProfitError → Result ProfitError ℕ
non_negative (negsuc n) thrown = err thrown
non_negative (pos n) thrown = if is_safe (pos n) then ok n else err thrown

abbrev pub parse_date : Timestamp → String → Result ProfitError ℕ
parse_date (at t) field = ok t
parse_date unreadable field = err (not_a_date field)

unfoldable pub safe_multiply : ℕ → ℕ → Result ProfitError ℕ
safe_multiply left right = if leb (left * right) max_safe then ok (left * right) else err exceeded

unfoldable pub safe_add : ℕ → ℕ → Result ProfitError ℕ
safe_add left right = if leb (left + right) max_safe then ok (left + right) else err exceeded
