-- ===== src/Tests/WorkOrders.antt =====
-- A work order at a concrete input.
use eauto_ai.Prelude.{ℕ, ◌+◌, ◌*◌, ◌-◌, none, some, true, false, [], ◌∷◌, eqb, refl, ◌≡◌}
use eauto_ai.Prelude.Int.{pos}
use eauto_ai.Prelude.Strings.{is_blank}
use eauto_ai.Prelude.Result.{ok}
use eauto_ai.Time.{at}
use eauto_ai.Action.{EvidenceConfidence, fresh}
use eauto_ai.Agents.{AgentRoleContract, AgentRiskLevel, ceo, executive, inform}
use eauto_ai.Collaboration.{EvidenceDocument, economic, authoritative}
use eauto_ai.WorkOrders.{
  OperationalEvidencePack, Doubles, number, decide_wake, assert_usable_evidence_pack, analysis,
  new_signals, queued,
}
use eauto_ai.WorkOrders.Service.{
  sanitize, validate_non_negative, validate_positive, OrderInput, AgentWorkOrder, OrderPorts,
  prepare_order,
}
use eauto_ai.WorkOrders.Governed.{IsGoverned, prepare_order-IsGoverned}

abbrev whole_numbers : Doubles
whole_numbers = record {
  Double = ℕ;
  zero = 0;
  add = λ a b. a + b;
  subtract = λ a b. a - b;
  multiply = λ a b. a * b;
  is_at_most_zero = λ a. eqb a 0;
}

abbrev auditor : AgentRoleContract
auditor = record {
  id = "cfo";
  version = "1";
  label = "CFO";
  level = ceo;
  department_id = executive;
  parent_agent_id = none;
  mission = "audit";
  inputs = [];
  outputs = [];
  required_evidence_kinds = "cost" ∷ [];
  allowed_capabilities = "audit" ∷ [];
  forbidden_capabilities = "pay" ∷ [];
  skill_ids = [];
  default_autonomy = inform;
  risk_level = AgentRiskLevel.low;
  maximum_iterations = pos 3;
  timeout_ms = pos 5000;
  maximum_daily_budget_minor_clp = pos 1000;
  stable_prompt_version = "1";
  active = true;
}

abbrev document : EvidenceDocument
document = record {
  reference = record {
    id = "e1";
    source = "feed";
    source_record_id = "r1";
    observed_at = at 90;
    freshness = fresh;
    confidence = EvidenceConfidence.high;
    content_hash = "h";
  };
  subject = economic;
  kind = some "cost";
  authority = authoritative;
  expires_at = at 900;
  payload = "{}";
}

abbrev pack : OperationalEvidencePack
pack = record {
  id = "p1";
  organization_id = "org";
  account_id = "acct";
  purpose = "audit";
  subject = economic;
  generated_at = 90;
  expires_at = at 900;
  documents = document ∷ [];
  complete = true;
  missing_inputs = [];
  content_hash = "h";
}

abbrev ports : OrderPorts whole_numbers
ports = record {
  catalog = auditor ∷ [];
  now = 100;
  next_id = "work-order-1";
  hash = λ signals. "hash";
  get_evidence_pack = λ id organization account. ok (some pack);
}

abbrev asked : OrderInput whole_numbers
asked = record {
  organization_id = "org";
  account_id = "acct";
  objective_id = "o1";
  agent_id = "cfo";
  capability = "audit";
  task_class = analysis;
  instruction = "audit";
  evidence_pack_id = "p1";
  signals =
      record {
        kind = "cost";
        entity_id = "item";
        observed_at = at 95;
        material_value = number 5;
        urgency = 2;
        expected_impact = 3;
        confidence = 4;
      }
      ∷ [];
  previous_signals_hash = some "old";
  cooldown_until = some (at 50);
  estimated_cost_micros_usd = 7;
  budget_micros_usd = pos 10;
  budget_minor_clp = pos 0;
  maximum_attempts = pos 3;
  idempotency_key = "k";
  is_manual = false;
}

abbrev order : AgentWorkOrder whole_numbers
order = record {
  id = "work-order-1";
  idempotency_key = "k";
  organization_id = "org";
  account_id = "acct";
  objective_id = "o1";
  agent_id = "cfo";
  capability = "audit";
  task_class = analysis;
  requested_action = "audit";
  evidence_pack_id = "p1";
  memory_refs = [];
  signals_hash = "hash";
  expected_utility = 17;
  wake_reason = some new_signals;
  status = queued;
  budget_minor_clp = 0;
  budget_micros_usd = 10;
  maximum_attempts = 3;
  attempts = 0;
  available_at = 100;
  cooldown_until = some (at 50);
  lease_owner = none;
  lease_until = none;
  session_id = none;
  output_refs = [];
  failure_reason = none;
  created_at = 100;
  updated_at = 100;
  completed_at = none;
}

prepared : prepare_order whole_numbers ports asked ≡ ok order
unfolding prepare_order assert_usable_evidence_pack sanitize validate_non_negative validate_positive
    decide_wake is_blank
prepared = refl

prepare_order-IsGoverned_example : IsGoverned whole_numbers ports asked order
prepare_order-IsGoverned_example = prepare_order-IsGoverned whole_numbers ports asked order prepared
