-- ===== src/Tests/Supply.antt =====
-- The supply workflows at concrete inputs.
use eauto_ai.Prelude.{none, some, true, [], ◌∷◌, ◌≡◌, ◌⊎◌, refl}
use eauto_ai.Prelude.Int.{pos}
use eauto_ai.Prelude.Strings.{is_blank}
use eauto_ai.Prelude.Result.{ok}
use eauto_ai.Supply.{stock_autopause, SupplyWorkflowRequest, SupplyWorkflowRun}
use eauto_ai.Supply.Service.{Observed, SupplyPorts, positive, check_request, prepare_run}
use eauto_ai.Supply.Kinds.{needed_kinds}
use eauto_ai.Supply.Ready.{IsReady, IsSettled, IsWaiting, prepare_run-decided}

abbrev request : SupplyWorkflowRequest
request = record {
  organization_id = "org";
  account_id = "acct";
  kind = stock_autopause;
  supplier_id = "supplier";
  listing_id = some "listing";
  requested_by = "u1";
  parameters = record {
    maximum_age_ms = pos 60;
    stock_floor = some (pos 2);
    stock_ceiling = none;
    maximum_purchase_quantity = none;
    maximum_unit_cost_minor_clp = none;
    reason = "low stock";
  };
  evidence_refs = [];
  dry_run = true;
  idempotency_key = "k";
}

abbrev observed : Observed
observed = record { available_kinds = needed_kinds; evidence_refs = "e1" ∷ []; missing_inputs = [] }

abbrev ports : SupplyPorts
ports = record {
  now = 100;
  next_id = "supply-workflow-1";
  hash = λ q r. "h";
  read = λ q as_of age. ok observed;
  save = λ r. ok r;
}

passed : check_request request ≡ ok 60
unfolding check_request is_blank positive
passed = refl

prepare_run-decided_example :
    (r : SupplyWorkflowRun) × (prepare_run ports request ≡ ok r)
    × (r.dry_run ≡ true)
    × (r.organization_id ≡ "org")
    × (r.account_id ≡ "acct")
    × ((IsReady request observed × IsSettled request r)
        ⊎ ((¬ IsReady request observed) × IsWaiting r))
prepare_run-decided_example = prepare_run-decided ports request 60 observed passed refl
