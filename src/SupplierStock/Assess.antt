-- ===== src/SupplierStock/Assess.antt =====
-- `evaluateSupplierStock`: the checks of its input, and the assessment.
use eauto_ai.Prelude.{
  ℕ, ◌+◌, String, Option, none, some, Bool, true, false, not, ◌&&◌, List, [], ◌∷◌, ◌++◌, any, ltb,
  leb, eqb, if◌then◌else◌,
}
use eauto_ai.Prelude.Int.{ℤ, pos, pos_part, neg_part, sub_ℕ, ltb_ℤ}
use eauto_ai.Prelude.Strings.{sort, is_blank}
use eauto_ai.Prelude.Result.{Result, ok}
use eauto_ai.Prelude.Result.Pure.{◌>>=◌, ◌>>◌, throw_if}
use eauto_ai.SupplierStock.{
  StockSourceType, online, ListingStatus, active, paused, ProfitabilityStatus, profitable,
  SupplierStockEvidence, SupplierStockInput, SupplierStockPolicy, ProposalKind, listing_pause,
  listing_reactivate, ProposalReason, supplier_out_of_stock, stock_recovered_and_margin_verified,
  StockAvailabilityProposal, Severity, info, warning, critical, SignalDetails, evidence_stale,
  sync_failure, cost_change, cost_reaudit, margin_reaudit, stock_recovered, SupplierStockSignal,
  SupplierStockAssessment, StockError, policy_version_missing, non_negative_integer,
  positive_integer, basis_points, parse_date, is_stale, is_cost_stale, CostChange,
  calculate_cost_change_bps,
}

-- What the checks establish.
pub record Facts : Type 0 where
  pub previous_stock : ℕ
  pub current_stock : ℕ
  pub syncs : ℕ
  pub threshold : ℕ
  pub required_syncs : ℕ
  pub alert_bps : ℕ
  pub stock_stale : Bool
  pub cost_stale : Bool
  pub change : Option CostChange

unfoldable pub check_input : SupplierStockInput → SupplierStockPolicy → Result StockError Facts
check_input input policy = do
  previous ← non_negative_integer input.previous_stock "previousStock"
  current ← non_negative_integer input.current_stock "currentStock"
  syncs ← non_negative_integer input.consecutive_successful_syncs "consecutiveSuccessfulSyncs"
  threshold ← non_negative_integer policy.recovery_stock_threshold "recoveryStockThreshold"
  required ← positive_integer policy.recovery_consecutive_syncs "recoveryConsecutiveSyncs"
  alert ← basis_points policy.cost_change_alert_bps "costChangeAlertBps"
  age ← non_negative_integer input.maximum_evidence_age_ms "maximumEvidenceAgeMs"
  throw_if (is_blank policy.policy_version) policy_version_missing
  as_of ← parse_date input.as_of "asOf"
  stock_stale ← is_stale input.stock_evidence as_of age
  cost_stale ← is_cost_stale input.cost_evidence as_of age
  change ← calculate_cost_change_bps input.previous_unit_cost_minor input.current_unit_cost_minor
  ok (record {
    previous_stock = previous;
    current_stock = current;
    syncs = syncs;
    threshold = threshold;
    required_syncs = required;
    alert_bps = alert;
    stock_stale = stock_stale;
    cost_stale = cost_stale;
    change = change;
  })

abbrev pub is_online : StockSourceType → Bool
is_online online = true
is_online _ = false

abbrev pub is_active : ListingStatus → Bool
is_active active = true
is_active paused = false

abbrev pub is_profitable : ProfitabilityStatus → Bool
is_profitable profitable = true
is_profitable _ = false

abbrev pub id_of : Option SupplierStockEvidence → List String
id_of none = []
id_of (some evidence) = evidence.id ∷ []

abbrev pub signal : Severity → SignalDetails → SupplierStockSignal
signal severity details = record { severity = severity; details = details }

abbrev pub is_reaudit : SupplierStockSignal → Bool
is_reaudit s = elim s.details [
  | evidence_stale kind id ↦ false
  | sync_failure id type ↦ false
  | cost_change bps previous current ↦ false
  | cost_reaudit bps ↦ true
  | margin_reaudit status ↦ true
  | stock_recovered current syncs ↦ false
]

abbrev pub stale_cost_signals : Bool → Option SupplierStockEvidence → List SupplierStockSignal
stale_cost_signals true (some evidence) = signal warning (evidence_stale "cost" evidence.id) ∷ []
stale_cost_signals _ _ = []

-- `Math.abs(costChangeBps) >= policy.costChangeAlertBps`
abbrev pub is_alarming : ℤ → ℕ → Bool
is_alarming bps alert = leb alert (pos_part bps + neg_part bps)

abbrev pub cost_signals : Option CostChange → ℕ → List SupplierStockSignal
cost_signals none alert = []
cost_signals (some c) alert =
    if is_alarming c.bps alert
    then (signal (if ltb_ℤ (pos 0) c.bps then warning else info)
          (cost_change c.bps c.previous c.current)
        ∷ signal warning (cost_reaudit c.bps)
        ∷ [])
    else []

-- `costChangeBps === 0`
abbrev pub is_unchanged : Option CostChange → Bool
is_unchanged none = false
is_unchanged (some c) = eqb (pos_part c.bps + neg_part c.bps) 0

module _ (input : SupplierStockInput) (policy : SupplierStockPolicy) where
  abbrev pub evidence_refs : List String
  evidence_refs = sort (input.stock_evidence.id ∷ id_of input.cost_evidence)

  abbrev pub proposal : ProposalKind → ProposalReason → StockAvailabilityProposal
  proposal kind reason = record {
    kind = kind;
    organization_id = input.organization_id;
    account_id = input.account_id;
    listing_id = input.listing_id;
    supplier_source_id = input.supplier_source_id;
    reason = reason;
    evidence_refs = evidence_refs;
    policy_version = policy.policy_version;
    requires_approval = true;
  }

  -- The source may be acted on without a person: it is online, and its stock is read and recent.
  abbrev pub is_automatic : Facts → Bool
  is_automatic f = is_online input.source_type && (input.sync_succeeded && not f.stock_stale)

  abbrev pub is_out : Facts → Bool
  is_out f = is_automatic f && (eqb f.current_stock 0 && is_active input.listing_status)

  abbrev pub is_recovered : Facts → Bool
  is_recovered f =
      is_automatic f && (leb f.previous_stock f.threshold && ltb f.threshold f.current_stock)

  abbrev pub is_recovery_confirmed : Facts → Bool
  is_recovery_confirmed f =
      is_automatic f
      && (ltb f.threshold f.current_stock
          && (leb f.required_syncs f.syncs && not (is_active input.listing_status)))

  abbrev pub is_margin_verified : Facts → Bool
  is_margin_verified f =
      is_profitable input.profitability_status && (not f.cost_stale && is_unchanged f.change)

  abbrev pub first_proposal : Facts → Option StockAvailabilityProposal
  first_proposal f = if is_out f then some (proposal listing_pause supplier_out_of_stock) else none

  unfoldable pub availability_proposal : Facts → Option StockAvailabilityProposal
  availability_proposal f =
      if is_recovery_confirmed f && is_margin_verified f
      then some (proposal listing_reactivate stock_recovered_and_margin_verified)
      else first_proposal f

  -- The signals up to the one of a recovered stock.
  abbrev pub first_signals : Facts → List SupplierStockSignal
  first_signals f =
      (if f.stock_stale
        then signal critical (evidence_stale "stock" input.stock_evidence.id) ∷ []
        else [])
      ++ stale_cost_signals f.cost_stale input.cost_evidence
      ++ (if not input.sync_succeeded
          then signal critical (sync_failure input.supplier_source_id input.source_type) ∷ []
          else [])
      ++ cost_signals f.change f.alert_bps
      ++ (if is_recovered f then signal info (stock_recovered f.current_stock f.syncs) ∷ [] else [])

  unfoldable pub all_signals : Facts → List SupplierStockSignal
  all_signals f =
      first_signals f
      ++ (if is_recovery_confirmed f
            && (not (is_margin_verified f) && not (any is_reaudit (first_signals f)))
          then signal warning (margin_reaudit input.profitability_status) ∷ []
          else [])

  unfoldable pub assess : Facts → SupplierStockAssessment
  assess f = record {
    organization_id = input.organization_id;
    account_id = input.account_id;
    listing_id = input.listing_id;
    supplier_source_id = input.supplier_source_id;
    source_type = input.source_type;
    policy_version = policy.policy_version;
    stock_delta = sub_ℕ f.current_stock f.previous_stock;
    evidence_refs = evidence_refs;
    availability_proposal = availability_proposal f;
    signals = all_signals f;
    evaluated_at = input.as_of;
  }

  unfoldable pub evaluate_supplier_stock : Result StockError SupplierStockAssessment
  evaluate_supplier_stock = do f ← check_input input policy; ok (assess f)
