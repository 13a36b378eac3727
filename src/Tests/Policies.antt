-- ===== src/Tests/Policies.antt =====
-- The rules on stock, access and autonomy at concrete inputs.
use eauto_ai.Prelude.{ℕ, String, none, some, true, false, [], ◌∷◌, ◌≡◌, ◌↔◌, refl}
use eauto_ai.Prelude.Int.{pos}
use eauto_ai.Prelude.Strings.{is_blank}
use eauto_ai.Prelude.Result.{Result, ok}
use eauto_ai.Time.{at}
use eauto_ai.Action.{RiskLevel}
use eauto_ai.Access.{
  ActorIdentity, owner, action_approve, action_execute, assert_authorized, has_permission,
  role_permissions, can_access_account,
}
use eauto_ai.Access.Duties.{Some, IsPermitted, IsWithin, runs, assert_authorized_iff, execute_duty}
use eauto_ai.Autonomy.{
  Money, clp, money, add_money, AutonomyPolicy, AutonomyRequest, autonomous,
  can_execute_without_approval,
}
use eauto_ai.Autonomy.Free.{IsFree, can_execute_without_approval_iff}
use eauto_ai.SupplierStock.{
  SupplierStockEvidence, SupplierStockInput, SupplierStockPolicy, StockError, online, active,
  profitable, listing_pause, supplier_out_of_stock, non_negative_integer, positive_integer,
  basis_points, is_stale, calculate_cost_change_bps,
}
use eauto_ai.SupplierStock.Assess.{
  Facts, check_input, assess, availability_proposal, proposal, evaluate_supplier_stock,
}
use eauto_ai.SupplierStock.Reading.{IsRead}
use eauto_ai.SupplierStock.Facts.{IsJustified, evaluate_supplier_stock-IsJustified}
use eauto_ai.SupplierStock.Service.{
  IsEvaluated, effects_of, evaluate_listing, evaluate_listing-IsFor,
}

abbrev chief : ActorIdentity
chief = record { id = "u1"; organization_id = "org"; roles = owner ∷ []; account_ids = "*" ∷ [] }

chief_executes : assert_authorized chief action_execute (some "acct") ≡ ok tt
unfolding assert_authorized has_permission role_permissions can_access_account
chief_executes = refl

chief_approves : assert_authorized chief action_approve (some "acct") ≡ ok tt
unfolding assert_authorized has_permission role_permissions can_access_account
chief_approves = refl

assert_authorized_iff_example :
    (assert_authorized chief action_execute (some "acct") ≡ ok tt)
    ↔ (IsPermitted chief action_execute × IsWithin chief (some "acct"))
assert_authorized_iff_example = assert_authorized_iff chief action_execute (some "acct")

execute_duty_example : Some (λ r. runs r ≡ true) (owner ∷ [])
execute_duty_example = execute_duty chief (some "acct") chief_executes

abbrev pesos : ℕ → Money
pesos n = record { amount_minor = pos n; currency = clp }

three_and_four : add_money (pesos 3) (pesos 4) ≡ ok (pesos 7)
unfolding add_money money
three_and_four = refl

abbrev policy_of : AutonomyPolicy
policy_of = record {
  account_id = "acct";
  action_kind = "price.update";
  mode = autonomous;
  maximum_risk = RiskLevel.medium;
  daily_budget = pesos 100;
  reversible_only = true;
  minimum_verified_actions = 3;
}

abbrev request : AutonomyRequest
request = record {
  policy = policy_of;
  risk = RiskLevel.low;
  reversible = true;
  verified_history_count = 4;
  spent_today = pesos 50;
  estimated_cost = pesos 50;
}

can_execute_without_approval_iff_example :
    (can_execute_without_approval request ≡ true) ↔ IsFree request
can_execute_without_approval_iff_example = can_execute_without_approval_iff request

abbrev stock_reading : SupplierStockEvidence
stock_reading = record { id = "e1"; source = "feed"; observed_at = at 90; content_hash = "h" }

abbrev sold_out : SupplierStockInput
sold_out = record {
  organization_id = "org";
  account_id = "acct";
  listing_id = "listing";
  supplier_source_id = "supplier";
  source_type = online;
  previous_stock = pos 4;
  current_stock = pos 0;
  consecutive_successful_syncs = pos 2;
  sync_succeeded = true;
  listing_status = active;
  previous_unit_cost_minor = some (pos 1000);
  current_unit_cost_minor = some (pos 1000);
  profitability_status = profitable;
  stock_evidence = stock_reading;
  cost_evidence = none;
  as_of = at 100;
  maximum_evidence_age_ms = pos 60;
}

abbrev rules : SupplierStockPolicy
rules = record {
  recovery_stock_threshold = pos 2;
  recovery_consecutive_syncs = pos 2;
  cost_change_alert_bps = pos 500;
  policy_version = "v1";
}

abbrev facts : Facts
facts = record {
  previous_stock = 4;
  current_stock = 0;
  syncs = 2;
  threshold = 2;
  required_syncs = 2;
  alert_bps = 500;
  stock_stale = false;
  cost_stale = false;
  change = some (record { bps = pos 0; previous = 1000; current = 1000 });
}

checked : check_input sold_out rules ≡ ok facts
unfolding check_input non_negative_integer positive_integer basis_points is_stale
    calculate_cost_change_bps is_blank
checked = refl

evaluated : evaluate_supplier_stock sold_out rules ≡ ok (assess sold_out rules facts)
unfolding evaluate_supplier_stock
evaluated = rw checked refl

proposed_pause :
    (assess sold_out rules facts).availability_proposal
    ≡ some (proposal sold_out rules listing_pause supplier_out_of_stock)
unfolding assess availability_proposal
proposed_pause = refl

evaluate_supplier_stock-IsJustified_example :
    (f : Facts) × (check_input sold_out rules ≡ ok f)
    × IsRead sold_out rules f
    × IsJustified sold_out f listing_pause
    × (proposal sold_out rules listing_pause supplier_out_of_stock
        ≡ proposal sold_out rules listing_pause supplier_out_of_stock)
evaluate_supplier_stock-IsJustified_example =
    evaluate_supplier_stock-IsJustified sold_out rules (assess sold_out rules facts)
      (proposal sold_out rules listing_pause supplier_out_of_stock) evaluated proposed_pause

abbrev reader : String → String → String → Result StockError SupplierStockInput
reader account listing source = ok sold_out

listed :
    evaluate_listing reader "acct" "listing" "supplier" rules
    ≡ ok (assess sold_out rules facts, effects_of (assess sold_out rules facts))
unfolding evaluate_listing
listed = rw evaluated refl

evaluate_listing-IsFor_example :
    IsEvaluated reader "acct" "listing" "supplier" rules (effects_of (assess sold_out rules facts))
evaluate_listing-IsFor_example =
    evaluate_listing-IsFor reader "acct" "listing" "supplier" rules (assess sold_out rules facts)
      (effects_of (assess sold_out rules facts)) listed
