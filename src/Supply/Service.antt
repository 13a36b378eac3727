-- ===== src/Supply/Service.antt =====
-- `SupplyWorkflowService` of packages/application/src/supplyWorkflowService.ts. The reader of
-- evidence, the repository, the ids and the hash come from outside.
use eauto_ai.Prelude.{
  ℕ, zero, suc, String, Option, none, some, Bool, true, false, not, ◌&&◌, ◌||◌, List, [], ◌∷◌, ◌++◌,
  map, filter, min, includes, unique, string_eq, if◌then◌else◌, ◌==◌,
}
use eauto_ai.Prelude.Int.{ℤ, pos, negsuc, is_safe}
use eauto_ai.Prelude.Strings.{sort, is_blank}
use eauto_ai.Prelude.Result.{Result, ok, err}
use eauto_ai.Prelude.Result.Pure.{◌>>=◌, ◌>>◌, throw_if}
use eauto_ai.Supply.{
  SupplyWorkflowKind, supplier_full_scrape, stock_sync, stock_autopause, purchase_opportunistic,
  waiting_evidence, proposed, SupplyWorkflowRequest, StepStatus, blocked, step_completed,
  SupplyWorkflowStep, SupplyWorkflowRun, plan_supply_workflow, supply_workflow_action_kind,
}

pub data SupplyError : Type 0 where
  not_dry_run no_scope no_supplier no_listing : SupplyError
  not_positive : (field : String) → SupplyError
  outside : (message : String) → SupplyError

-- What the reader of evidence answers.
pub record Observed : Type 0 where
  pub available_kinds : List String
  pub evidence_refs : List String
  pub missing_inputs : List String

-- `!Number.isSafeInteger(value) || value < 1`
unfoldable pub positive : ℤ → String → Result SupplyError ℕ
positive (negsuc n) field = err (not_positive field)
positive (pos zero) field = err (not_positive field)
positive (pos (suc n)) field =
    if is_safe (pos (suc n)) then ok (suc n) else err (not_positive field)

abbrev pub is_full_scrape : SupplyWorkflowKind → Bool
is_full_scrape supplier_full_scrape = true
is_full_scrape _ = false

-- `!request.listingId`
abbrev pub is_absent : Option String → Bool
is_absent none = true
is_absent (some id) = id == ""

abbrev pub missing_kinds : List String → List String → List String
missing_kinds available required = filter (λ kind. not (includes available kind)) required

abbrev pub finish_step : List String → List String → SupplyWorkflowStep → SupplyWorkflowStep
finish_step [] refs s = record s {
  status = step_completed;
  output_refs = sort (unique refs);
  missing_inputs = [];
}
finish_step (kind ∷ kinds) refs s = record s { status = blocked; missing_inputs = kind ∷ kinds }

abbrev pub complete_step : List String → List String → SupplyWorkflowStep → SupplyWorkflowStep
complete_step available refs s =
    finish_step (missing_kinds available s.required_evidence_kinds) refs s

abbrev pub missing_if_null : Option ℤ → String → List String
missing_if_null none name = name ∷ []
missing_if_null (some value) name = []

abbrev pub parameters_missing : SupplyWorkflowKind → SupplyWorkflowRequest → List String
parameters_missing stock_autopause q = missing_if_null q.parameters.stock_floor "stock-floor"
parameters_missing stock_sync q = missing_if_null q.parameters.stock_ceiling "stock-ceiling"
parameters_missing purchase_opportunistic q =
    missing_if_null q.parameters.maximum_purchase_quantity "maximum-purchase-quantity"
    ++ missing_if_null q.parameters.maximum_unit_cost_minor_clp "maximum-unit-cost"
parameters_missing _ q = []

abbrev pub validate_business_parameters : SupplyWorkflowRequest → List String
validate_business_parameters q = parameters_missing q.kind q

-- `steps.flatMap((step) => step.missingInputs)`
abbrev pub missing_of : List SupplyWorkflowStep → List String
missing_of [] = []
missing_of (s ∷ steps) = s.missing_inputs ++ missing_of steps

abbrev pub is_step_completed : StepStatus → Bool
is_step_completed step_completed = true
is_step_completed _ = false

abbrev pub all_completed : List SupplyWorkflowStep → Bool
all_completed [] = true
all_completed (s ∷ steps) = is_step_completed s.status && all_completed steps

abbrev pub is_empty : List String → Bool
is_empty [] = true
is_empty (x ∷ xs) = false

abbrev pub completed_steps : SupplyWorkflowRequest → Observed → List SupplyWorkflowStep
completed_steps q observed =
    map (complete_step observed.available_kinds observed.evidence_refs)
      (plan_supply_workflow q.kind)

abbrev pub all_missing : SupplyWorkflowRequest → Observed → List String
all_missing q observed = sort (
    unique (
      observed.missing_inputs
      ++ (missing_of (completed_steps q observed) ++ validate_business_parameters q)))

abbrev pub is_ready : SupplyWorkflowRequest → Observed → Bool
is_ready q observed =
    is_empty (all_missing q observed) && all_completed (completed_steps q observed)

unfoldable pub normalized :
    SupplyWorkflowRequest → Observed → ℕ → String → String → SupplyWorkflowRun
normalized q observed now id hash = record {
  id = id;
  organization_id = q.organization_id;
  account_id = q.account_id;
  kind = q.kind;
  supplier_id = q.supplier_id;
  listing_id = q.listing_id;
  requested_by = q.requested_by;
  status = if is_ready q observed then proposed else waiting_evidence;
  dry_run = true;
  steps = completed_steps q observed;
  evidence_refs = sort (unique (q.evidence_refs ++ observed.evidence_refs));
  proposed_action_kind =
      if is_ready q observed then some (supply_workflow_action_kind q.kind) else none;
  proposed_action_id = none;
  missing_inputs = all_missing q observed;
  created_at = now;
  updated_at = now;
  completed_at = if is_ready q observed then some now else none;
  content_hash = hash;
}

-- The checks of `run` before it reads the evidence.
unfoldable pub check_request : SupplyWorkflowRequest → Result SupplyError ℕ
check_request q = do
  throw_if (not q.dry_run) not_dry_run
  throw_if (is_blank q.organization_id || is_blank q.account_id) no_scope
  throw_if (is_blank q.supplier_id) no_supplier
  throw_if (not (is_full_scrape q.kind) && is_absent q.listing_id) no_listing
  positive q.parameters.maximum_age_ms "maximumAgeMs"

pub record SupplyPorts : Type 0 where
  pub now : ℕ
  pub next_id : String
  -- `hashJson({ request, normalized })`
  pub hash : SupplyWorkflowRequest → SupplyWorkflowRun → String
  pub read : SupplyWorkflowRequest → (as_of maximum_age_ms : ℕ) → Result SupplyError Observed
  pub save : SupplyWorkflowRun → Result SupplyError SupplyWorkflowRun

module _ (ports : SupplyPorts) where
  -- The run, its hash made from the run without one.
  abbrev pub built : SupplyWorkflowRequest → Observed → SupplyWorkflowRun
  built q observed =
      normalized q observed ports.now ports.next_id
        (ports.hash q (normalized q observed ports.now "" ""))

  -- What `run` hands to the repository.
  unfoldable pub prepare_run : SupplyWorkflowRequest → Result SupplyError SupplyWorkflowRun
  prepare_run q = do
    age ← check_request q
    observed ← ports.read q ports.now age
    ok (built q observed)

  unfoldable pub run : SupplyWorkflowRequest → Result SupplyError SupplyWorkflowRun
  run q = do saved ← prepare_run q; ports.save saved

-- `Math.min(100, positive(input.limit ?? 50, "limit"))`
abbrev pub list_limit : Option ℤ → Result SupplyError ℕ
list_limit none = ok 50
list_limit (some limit) = do n ← positive limit "limit"; ok (min 100 n)
