-- ===== src/Agents/Preflight.antt =====
-- The gate in front of every action of an agent: `runAgentPreflight` of
-- packages/agent-kernel/src/agentPreflight.ts. The canonical JSON hashed with SHA-256 comes from
-- outside.
use eauto_ai.Prelude.{
  String, Option, none, some, Bool, true, false, not, ◌&&◌, ◌||◌, List, [], ◌∷◌, ◌++◌, map, any,
  filter, includes, unique, is_empty, ◌==◌, string_eq, eqb, if◌then◌else◌,
}
use eauto_ai.Prelude.Assoc.{Assoc, lookup, set}
use eauto_ai.Prelude.Int.{ℤ, pos, negsuc, ◌+ℤ◌, leb_ℤ, is_safe}
use eauto_ai.Prelude.Strings.{sort}
use eauto_ai.Prelude.Result.{Result, ok, err}
use eauto_ai.Prelude.Result.Pure.{◌>>=◌}
use eauto_ai.Agents.{
  AgentRoleContract, AgentSkillManifest, AgentLevel, ceo, director, specialist, AgentAutonomyLevel,
  ask, autonomous, AgentRiskLevel, critical, AgentError, unknown_skill,
}

pub record AgentPreflightInput : Type 0 where
  pub organization_id : String
  pub account_id : String
  pub contract : AgentRoleContract
  pub skills : List AgentSkillManifest
  pub requested_action : String
  pub available_evidence_kinds : List String
  pub autonomy : AgentAutonomyLevel
  pub delegation_depth : ℤ
  pub requested_budget_minor_clp : ℤ
  pub spent_today_minor_clp : ℤ
  pub policy_allowed : Bool
  pub stable_context_refs : List String
  pub volatile_context_refs : List String
  pub generated_at : String

pub data AgentPreflightStatus : Type 0 where
  allow ask_first deny : AgentPreflightStatus

pub record AgentPreflightReport : Type 0 where
  pub status : AgentPreflightStatus
  pub organization_id : String
  pub account_id : String
  pub agent_id : String
  pub requested_action : String
  pub contract_version : String
  pub contract_hash : String
  pub skill_hashes : List String
  pub autonomy : AgentAutonomyLevel
  pub risk_level : AgentRiskLevel
  pub evidence_complete : Bool
  pub missing_evidence_kinds : List String
  pub budget_allowed : Bool
  pub policy_allowed : Bool
  pub delegation_allowed : Bool
  pub reasons : List String
  pub stable_context_refs : List String
  pub volatile_context_refs : List String
  pub generated_at : String

pub record Hashes : Type 0 where
  pub of_contract : AgentRoleContract → String
  pub of_skill : AgentSkillManifest → String

unfoldable pub index_skills :
    Assoc AgentSkillManifest → List AgentSkillManifest → Assoc AgentSkillManifest
index_skills m [] = m
index_skills m (s ∷ ss) = index_skills (set s.id s m) ss

abbrev pub found_skill :
    String → String → Option AgentSkillManifest → Result AgentError AgentSkillManifest
found_skill agent_id skill_id none = err (unknown_skill agent_id skill_id)
found_skill agent_id skill_id (some skill) = ok skill

unfoldable pub select_skills :
    String → Assoc AgentSkillManifest → List String → Result AgentError (List AgentSkillManifest)
select_skills agent_id by_id [] = ok []
select_skills agent_id by_id (skill_id ∷ ids) = do
  skill ← found_skill agent_id skill_id (lookup skill_id by_id)
  rest ← select_skills agent_id by_id ids
  ok (skill ∷ rest)

abbrev pub flat_map : (AgentSkillManifest → List String) → List AgentSkillManifest → List String
flat_map f [] = []
flat_map f (s ∷ ss) = f s ++ flat_map f ss

abbrev pub is_autonomous : AgentAutonomyLevel → Bool
is_autonomous autonomous = true
is_autonomous _ = false

abbrev pub is_ask : AgentAutonomyLevel → Bool
is_ask ask = true
is_ask _ = false

abbrev pub is_critical : AgentRiskLevel → Bool
is_critical critical = true
is_critical _ = false

-- The depth at which an agent of this level may be called.
abbrev pub is_own_depth : AgentLevel → ℤ → Bool
is_own_depth level (negsuc n) = false
is_own_depth ceo (pos n) = eqb n 0
is_own_depth director (pos n) = eqb n 1
is_own_depth specialist (pos n) = eqb n 2

abbrev pub reason : Bool → String → List String
reason true text = text ∷ []
reason false text = []

module _ (input : AgentPreflightInput) (skills : List AgentSkillManifest) where
  unfoldable pub missing_evidence_kinds : List String
  missing_evidence_kinds =
      filter (λ kind. not (includes input.available_evidence_kinds kind))
        (unique (
          input.contract.required_evidence_kinds
          ++ flat_map (λ s. s.required_evidence_kinds) skills))

  unfoldable pub is_action_allowed : Bool
  is_action_allowed =
      includes
        (input.contract.allowed_capabilities ++ flat_map (λ s. s.allowed_capabilities) skills)
        input.requested_action
      && not (
          includes
            (input.contract.forbidden_capabilities
              ++ flat_map (λ s. s.forbidden_capabilities) skills)
            input.requested_action)

  unfoldable pub is_budget_allowed : Bool
  is_budget_allowed =
      is_safe input.requested_budget_minor_clp
      && (leb_ℤ (pos 0) input.requested_budget_minor_clp
          && leb_ℤ (input.spent_today_minor_clp +ℤ input.requested_budget_minor_clp)
              input.contract.maximum_daily_budget_minor_clp)

  abbrev pub is_delegation_allowed : Bool
  is_delegation_allowed =
      leb_ℤ (pos 0) input.delegation_depth
      && (leb_ℤ input.delegation_depth (pos 2)
          && is_own_depth input.contract.level input.delegation_depth)

  unfoldable pub is_evidence_complete : Bool
  is_evidence_complete = is_empty missing_evidence_kinds

  unfoldable pub needs_human : Bool
  needs_human =
      is_autonomous input.autonomy
      && (any (λ s. s.requires_human_approval) skills || is_critical input.contract.risk_level)

  abbrev pub is_hard_denied : Bool
  is_hard_denied =
      not input.contract.active
      || (not is_action_allowed
          || (not input.policy_allowed || (not is_budget_allowed || not is_delegation_allowed)))

  unfoldable pub reasons : List String
  reasons =
      reason (not input.contract.active) "agent-inactive"
      ++ reason (not is_action_allowed) "capability-not-allowed"
      ++ reason (not input.policy_allowed) "policy-denied"
      ++ reason (not is_budget_allowed) "budget-exceeded"
      ++ reason (not is_delegation_allowed) "delegation-depth-invalid"
      ++ reason (not is_evidence_complete) "missing-evidence"
      ++ reason needs_human "human-approval-required"

  abbrev pub status : AgentPreflightStatus
  status =
      if is_hard_denied
      then deny
      else if not is_evidence_complete
          || ((is_ask input.autonomy && not (input.requested_action == "evidence.request"))
              || includes reasons "human-approval-required")
      then ask_first
      else allow

unfoldable pub run_agent_preflight :
    Hashes → AgentPreflightInput → Result AgentError AgentPreflightReport
run_agent_preflight hashes input = do
  skills ← select_skills input.contract.id (index_skills [] input.skills) input.contract.skill_ids
  ok (record {
    status = status input skills;
    organization_id = input.organization_id;
    account_id = input.account_id;
    agent_id = input.contract.id;
    requested_action = input.requested_action;
    contract_version = input.contract.version;
    contract_hash = hashes.of_contract input.contract;
    skill_hashes = sort (map hashes.of_skill skills);
    autonomy = input.autonomy;
    risk_level = input.contract.risk_level;
    evidence_complete = is_evidence_complete input skills;
    missing_evidence_kinds = sort (missing_evidence_kinds input skills);
    budget_allowed = is_budget_allowed input skills;
    policy_allowed = input.policy_allowed;
    delegation_allowed = is_delegation_allowed input skills;
    reasons = reasons input skills;
    stable_context_refs = input.stable_context_refs;
    volatile_context_refs = input.volatile_context_refs;
    generated_at = input.generated_at;
  })
