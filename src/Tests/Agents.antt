-- ===== src/Tests/Agents.antt =====
-- The company of agents at concrete inputs: a CEO and one director.
use eauto_ai.Prelude.{none, some, true, List, [], ◌∷◌, All, ◌≡◌, ◌↔◌, refl}
use eauto_ai.Prelude.Assoc.{lookup, set}
use eauto_ai.Prelude.Int.{pos}
use eauto_ai.Prelude.Strings.{is_blank}
use eauto_ai.Prelude.Result.{ok}
use eauto_ai.Agents.{
  AgentRoleContract, ceo, director, executive, finance, inform, low, assert_valid_agent_contract,
  index_from, check_all, assert_valid_agent_hierarchy,
}
use eauto_ai.Agents.Hierarchy.{Reports, rank, assert_valid_agent_hierarchy-Reports}
use eauto_ai.Agents.Preflight.{AgentPreflightInput, allow, status}
use eauto_ai.Agents.Clearance.{IsCleared, status-allow_iff}

abbrev chief : AgentRoleContract
chief = record {
  id = "ceo";
  version = "1";
  label = "CEO";
  level = ceo;
  department_id = executive;
  parent_agent_id = none;
  mission = "lead";
  inputs = [];
  outputs = [];
  required_evidence_kinds = "sales" ∷ [];
  allowed_capabilities = "plan" ∷ [];
  forbidden_capabilities = "pay" ∷ [];
  skill_ids = [];
  default_autonomy = inform;
  risk_level = low;
  maximum_iterations = pos 3;
  timeout_ms = pos 5000;
  maximum_daily_budget_minor_clp = pos 1000;
  stable_prompt_version = "1";
  active = true;
}

abbrev head : AgentRoleContract
head = record chief {
  id = "cfo";
  level = director;
  department_id = finance;
  parent_agent_id = some "ceo";
}

abbrev company : List AgentRoleContract
company = chief ∷ head ∷ []

valid : assert_valid_agent_hierarchy company ≡ ok tt
unfolding assert_valid_agent_hierarchy assert_valid_agent_contract check_all index_from lookup set
    is_blank
valid = refl

assert_valid_agent_hierarchy-Reports_example :
    All (λ c. Reports (index_from [] company) (rank c.level) c) company
assert_valid_agent_hierarchy-Reports_example = assert_valid_agent_hierarchy-Reports company valid

abbrev input : AgentPreflightInput
input = record {
  organization_id = "org";
  account_id = "acct";
  contract = chief;
  skills = [];
  requested_action = "plan";
  available_evidence_kinds = "sales" ∷ [];
  autonomy = inform;
  delegation_depth = pos 0;
  requested_budget_minor_clp = pos 10;
  spent_today_minor_clp = pos 20;
  policy_allowed = true;
  stable_context_refs = [];
  volatile_context_refs = [];
  generated_at = "now";
}

status-allow_iff_example : (status input [] ≡ allow) ↔ IsCleared input []
status-allow_iff_example = status-allow_iff input []
