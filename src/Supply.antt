-- ===== src/Supply.antt =====
-- The dry-run supply workflows: packages/domain/src/supplyWorkflows.ts.
pub mod Service
pub mod Kinds
pub mod Ready
use eauto_ai.Prelude.{ℕ, String, Option, none, some, Bool, List, [], ◌∷◌, ◌++◌}
use eauto_ai.Prelude.Int.{ℤ}

pub data SupplyWorkflowKind : Type 0 where
  supplier_pause supplier_full_scrape stock_sync : SupplyWorkflowKind
  stock_autopause purchase_opportunistic : SupplyWorkflowKind

pub data SupplyWorkflowStatus : Type 0 where
  draft ready waiting_evidence proposed completed failed : SupplyWorkflowStatus

pub record SupplyWorkflowParameters : Type 0 where
  pub maximum_age_ms : ℤ
  pub stock_floor : Option ℤ
  pub stock_ceiling : Option ℤ
  pub maximum_purchase_quantity : Option ℤ
  pub maximum_unit_cost_minor_clp : Option ℤ
  pub reason : String

pub record SupplyWorkflowRequest : Type 0 where
  pub organization_id : String
  pub account_id : String
  pub kind : SupplyWorkflowKind
  pub supplier_id : String
  pub listing_id : Option String
  pub requested_by : String
  pub parameters : SupplyWorkflowParameters
  pub evidence_refs : List String
  pub dry_run : Bool
  pub idempotency_key : String

pub data StepKind : Type 0 where
  read compare propose stop : StepKind

pub data StepStatus : Type 0 where
  pending step_ready blocked step_completed : StepStatus

pub record SupplyWorkflowStep : Type 0 where
  pub id : String
  pub sequence : ℕ
  pub kind : StepKind
  pub description : String
  pub required_evidence_kinds : List String
  pub status : StepStatus
  pub output_refs : List String
  pub missing_inputs : List String

pub record SupplyWorkflowRun : Type 0 where
  pub id : String
  pub organization_id : String
  pub account_id : String
  pub kind : SupplyWorkflowKind
  pub supplier_id : String
  pub listing_id : Option String
  pub requested_by : String
  pub status : SupplyWorkflowStatus
  pub dry_run : Bool
  pub steps : List SupplyWorkflowStep
  pub evidence_refs : List String
  pub proposed_action_kind : Option String
  pub proposed_action_id : Option String
  pub missing_inputs : List String
  pub created_at : ℕ
  pub updated_at : ℕ
  pub completed_at : Option ℕ
  pub content_hash : String

-- A step at its place in the plan; its id is written with the place.
abbrev pub step : String → ℕ → StepKind → String → List String → SupplyWorkflowStep
step id sequence kind description required = record {
  id = id;
  sequence = sequence;
  kind = kind;
  description = description;
  required_evidence_kinds = required;
  status = pending;
  output_refs = [];
  missing_inputs = [];
}

abbrev pub common_steps : List SupplyWorkflowStep
common_steps =
    step "step-1" 1 read "Load current supplier evidence and authority." ("supplier-evidence" ∷ [])
    ∷ step "step-2" 2 read "Load current listing, stock and economic evidence."
        ("listing-snapshot" ∷ "inventory-snapshot" ∷ "economic-snapshot" ∷ [])
    ∷ []

abbrev pub specific_steps : SupplyWorkflowKind → List SupplyWorkflowStep
specific_steps supplier_pause =
    step "step-3" 3 compare "Confirm supplier evidence is stale, unavailable or policy-blocked."
      ("supplier-evidence" ∷ [])
    ∷ step "step-4" 4 propose "Prepare a governed supplier pause proposal." ("policy-version" ∷ [])
    ∷ []
specific_steps supplier_full_scrape =
    step "step-3" 3 compare "Determine whether mirror coverage or freshness requires a full scan."
      ("supplier-evidence" ∷ [])
    ∷ step "step-4" 4 propose "Queue a bounded full catalog acquisition work order."
        ("policy-version" ∷ [])
    ∷ []
specific_steps stock_sync =
    step "step-3" 3 compare "Compare authoritative supplier stock with marketplace stock."
      ("supplier-evidence" ∷ "inventory-snapshot" ∷ [])
    ∷ step "step-4" 4 propose "Prepare an exact stock synchronization proposal."
        ("policy-version" ∷ [])
    ∷ []
specific_steps stock_autopause =
    step "step-3" 3 compare "Confirm supplier stock is below the configured safe floor."
      ("supplier-evidence" ∷ "inventory-snapshot" ∷ [])
    ∷ step "step-4" 4 propose "Prepare a governed listing pause proposal." ("policy-version" ∷ [])
    ∷ []
specific_steps purchase_opportunistic =
    step "step-3" 3 compare "Verify opportunity margin, stock and purchase caps."
      ("supplier-evidence" ∷ "economic-snapshot" ∷ [])
    ∷ step "step-4" 4 propose "Prepare a non-executable purchase opportunity proposal."
        ("policy-version" ∷ [])
    ∷ []

abbrev pub plan_supply_workflow : SupplyWorkflowKind → List SupplyWorkflowStep
plan_supply_workflow kind = common_steps ++ specific_steps kind

abbrev pub supply_workflow_action_kind : SupplyWorkflowKind → String
supply_workflow_action_kind supplier_pause = "supplier.pause"
supply_workflow_action_kind supplier_full_scrape = "supplier.catalog.refresh"
supply_workflow_action_kind stock_sync = "listing.stock.update"
supply_workflow_action_kind stock_autopause = "listing.pause"
supply_workflow_action_kind purchase_opportunistic = "supplier.purchase.propose"
