-- ===== src/SupplierStock.antt =====
-- The watch on a supplier's stock and cost: packages/domain/src/supplierStock.ts. A number that is no
-- integer is not modelled; an integer of any size and sign is.
pub mod Assess
pub mod Reading
pub mod Facts
pub mod Service
use Prim.Native.String.{◌++◌ as concat}
use eauto_ai.Prelude.{
  ℕ, ◌+◌, ◌*◌, String, Option, none, some, Bool, true, false, not, ◌&&◌, ◌||◌, List, [], ◌∷◌, ◌++◌,
  any, ◌==◌, string_eq, ltb, leb, eqb, if◌then◌else◌,
}
use eauto_ai.Prelude.Int.{
  ℤ, pos, negsuc, pos_part, neg_part, ◌-ℤ◌, sub_ℕ, ltb_ℤ, is_safe, scale_trunc,
}
use eauto_ai.Prelude.Strings.{sort, is_blank}
use eauto_ai.Prelude.Result.{Result, ok, err}
use eauto_ai.Prelude.Result.Pure.{◌>>=◌, ◌>>◌, throw_if}
use eauto_ai.Time.{Timestamp, at, unreadable}

pub data StockSourceType : Type 0 where
  online manual own unverified : StockSourceType

pub record SupplierStockEvidence : Type 0 where
  pub id : String
  pub source : String
  pub observed_at : Timestamp
  pub content_hash : String

pub data ListingStatus : Type 0 where
  active paused : ListingStatus

pub data ProfitabilityStatus : Type 0 where
  profitable below_floor loss incomplete unknown : ProfitabilityStatus

pub record SupplierStockInput : Type 0 where
  pub organization_id : String
  pub account_id : String
  pub listing_id : String
  pub supplier_source_id : String
  pub source_type : StockSourceType
  pub previous_stock : ℤ
  pub current_stock : ℤ
  pub consecutive_successful_syncs : ℤ
  pub sync_succeeded : Bool
  pub listing_status : ListingStatus
  pub previous_unit_cost_minor : Option ℤ
  pub current_unit_cost_minor : Option ℤ
  pub profitability_status : ProfitabilityStatus
  pub stock_evidence : SupplierStockEvidence
  pub cost_evidence : Option SupplierStockEvidence
  pub as_of : Timestamp
  pub maximum_evidence_age_ms : ℤ

pub record SupplierStockPolicy : Type 0 where
  pub recovery_stock_threshold : ℤ
  pub recovery_consecutive_syncs : ℤ
  pub cost_change_alert_bps : ℤ
  pub policy_version : String

pub data ProposalKind : Type 0 where
  listing_pause listing_reactivate : ProposalKind

pub data ProposalReason : Type 0 where
  supplier_out_of_stock stock_recovered_and_margin_verified : ProposalReason

pub record StockAvailabilityProposal : Type 0 where
  pub kind : ProposalKind
  pub organization_id : String
  pub account_id : String
  pub listing_id : String
  pub supplier_source_id : String
  pub reason : ProposalReason
  pub evidence_refs : List String
  pub policy_version : String
  pub requires_approval : Bool

pub data Severity : Type 0 where
  info warning critical : Severity

-- A signal by its kind, with its details.
pub data SignalDetails : Type 0 where
  evidence_stale : (evidence_kind evidence_id : String) → SignalDetails
  sync_failure : (supplier_source_id : String) → StockSourceType → SignalDetails
  cost_change : (change_bps : ℤ) (previous current : ℕ) → SignalDetails
  cost_reaudit : (change_bps : ℤ) → SignalDetails
  margin_reaudit : ProfitabilityStatus → SignalDetails
  stock_recovered : (current_stock consecutive_successful_syncs : ℕ) → SignalDetails

pub record SupplierStockSignal : Type 0 where
  pub severity : Severity
  pub details : SignalDetails

pub record SupplierStockAssessment : Type 0 where
  pub organization_id : String
  pub account_id : String
  pub listing_id : String
  pub supplier_source_id : String
  pub source_type : StockSourceType
  pub policy_version : String
  pub stock_delta : ℤ
  pub evidence_refs : List String
  pub availability_proposal : Option StockAvailabilityProposal
  pub signals : List SupplierStockSignal
  pub evaluated_at : Timestamp

pub data StockError : Type 0 where
  not_non_negative not_positive not_basis_points not_a_date : (field : String) → StockError
  policy_version_missing cost_change_exceeded out_of_scope : StockError

-- The asserted numbers, as naturals.
unfoldable pub non_negative_integer : ℤ → String → Result StockError ℕ
non_negative_integer (negsuc n) field = err (not_non_negative field)
non_negative_integer (pos n) field = if is_safe (pos n) then ok n else err (not_non_negative field)

unfoldable pub positive_integer : ℤ → String → Result StockError ℕ
positive_integer (negsuc n) field = err (not_positive field)
positive_integer (pos n) field =
    if is_safe (pos n) && ltb 0 n then ok n else err (not_positive field)

unfoldable pub basis_points : ℤ → String → Result StockError ℕ
basis_points (negsuc n) field = err (not_basis_points field)
basis_points (pos n) field =
    if is_safe (pos n) && leb n 10000 then ok n else err (not_basis_points field)

abbrev pub parse_date : Timestamp → String → Result StockError ℕ
parse_date (at t) field = ok t
parse_date unreadable field = err (not_a_date field)

-- `age < 0 || age > maximumEvidenceAgeMs`
abbrev pub is_old : ℕ → ℕ → ℕ → Bool
is_old observed as_of maximum =
    ltb_ℤ (sub_ℕ as_of observed) (pos 0) || ltb_ℤ (pos maximum) (sub_ℕ as_of observed)

unfoldable pub is_stale : SupplierStockEvidence → ℕ → ℕ → Result StockError Bool
is_stale evidence as_of maximum = do
  observed ← parse_date evidence.observed_at (concat "evidence:" (concat evidence.id ":observedAt"))
  ok (is_old observed as_of maximum)

abbrev pub is_cost_stale : Option SupplierStockEvidence → ℕ → ℕ → Result StockError Bool
is_cost_stale none as_of maximum = ok false
is_cost_stale (some evidence) as_of maximum = is_stale evidence as_of maximum

-- A change of the cost: the basis points, the cost before and the cost now.
pub record CostChange : Type 0 where
  pub bps : ℤ
  pub previous : ℕ
  pub current : ℕ

change_of : ℕ → ℕ → Result StockError (Option CostChange)
change_of previous current =
    let difference = sub_ℕ current previous in
    if is_safe (pos ((pos_part difference + neg_part difference) * 10000))
    then ok (
        some (record {
          bps = scale_trunc difference 10000 previous;
          previous = previous;
          current = current;
        }))
    else err cost_change_exceeded

unfoldable pub calculate_cost_change_bps :
    Option ℤ → Option ℤ → Result StockError (Option CostChange)
unfolding change_of
calculate_cost_change_bps none current = ok none
calculate_cost_change_bps (some previous) none = ok none
calculate_cost_change_bps (some previous) (some current) = do
  before ← positive_integer previous "previousUnitCostMinor"
  after ← non_negative_integer current "currentUnitCostMinor"
  change_of before after
