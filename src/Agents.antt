-- ===== src/Agents.antt =====
-- The company of agents: contracts, skills and the hierarchy (packages/domain/src/agentOs.ts). A number
-- that is no integer is not modelled.
pub mod Hierarchy
pub mod Preflight
pub mod Gates
pub mod Clearance
use eauto_ai.Prelude.{
  ℕ, String, Option, none, some, Bool, true, false, not, ◌&&◌, ◌||◌, List, [], ◌∷◌, length, filter,
  ◌!=◌, nat_eq, eqb, leb, if◌then◌else◌,
}
use eauto_ai.Prelude.Assoc.{Assoc, lookup, set}
use eauto_ai.Prelude.Int.{ℤ, pos, negsuc, ltb_ℤ, is_safe}
use eauto_ai.Prelude.Strings.{is_blank}
use eauto_ai.Prelude.Result.{Result, ok, err}
use eauto_ai.Prelude.Result.Pure.{◌>>=◌, ◌>>◌, throw_if}

pub data AgentDepartmentId : Type 0 where
  executive finance portfolio supply operations growth expansion governance : AgentDepartmentId

pub data AgentLevel : Type 0 where
  ceo director specialist : AgentLevel

pub data AgentAutonomyLevel : Type 0 where
  ask inform autonomous : AgentAutonomyLevel

pub data AgentRiskLevel : Type 0 where
  low medium high critical : AgentRiskLevel

pub record AgentRoleContract : Type 0 where
  pub id : String
  pub version : String
  pub label : String
  pub level : AgentLevel
  pub department_id : AgentDepartmentId
  pub parent_agent_id : Option String
  pub mission : String
  pub inputs : List String
  pub outputs : List String
  pub required_evidence_kinds : List String
  pub allowed_capabilities : List String
  pub forbidden_capabilities : List String
  pub skill_ids : List String
  pub default_autonomy : AgentAutonomyLevel
  pub risk_level : AgentRiskLevel
  pub maximum_iterations : ℤ
  pub timeout_ms : ℤ
  pub maximum_daily_budget_minor_clp : ℤ
  pub stable_prompt_version : String
  pub active : Bool

pub data CacheClass : Type 0 where
  global_stable agent_versioned task_volatile : CacheClass

pub record AgentSkillManifest : Type 0 where
  pub id : String
  pub version : String
  pub label : String
  pub description : String
  pub risk_level : AgentRiskLevel
  pub allowed_capabilities : List String
  pub forbidden_capabilities : List String
  pub required_evidence_kinds : List String
  pub maximum_iterations : ℤ
  pub timeout_ms : ℤ
  pub requires_human_approval : Bool
  pub cache_class : CacheClass

pub data AgentError : Type 0 where
  incomplete ceo_has_parent ceo_outside_executive not_one_ceo : AgentError
  bad_iterations bad_timeout bad_budget parent_missing unknown_parent : (id : String) → AgentError
  director_not_under_ceo specialist_not_under_director : (id : String) → AgentError
  unknown_skill : (id skill_id : String) → AgentError

abbrev pub is_ceo : AgentLevel → Bool
is_ceo ceo = true
is_ceo _ = false

abbrev pub is_director : AgentLevel → Bool
is_director director = true
is_director _ = false

abbrev pub is_specialist : AgentLevel → Bool
is_specialist specialist = true
is_specialist _ = false

abbrev pub is_executive : AgentDepartmentId → Bool
is_executive executive = true
is_executive _ = false

abbrev pub is_missing : Option String → Bool
is_missing none = true
is_missing (some id) = false

unfoldable pub assert_valid_agent_contract : AgentRoleContract → Result AgentError (Unit {0})
assert_valid_agent_contract contract = do
  throw_if (is_blank contract.id || (is_blank contract.version || is_blank contract.mission))
      incomplete
  throw_if (ltb_ℤ contract.maximum_iterations (pos 1)) (bad_iterations contract.id)
  throw_if (ltb_ℤ contract.timeout_ms (pos 1000)) (bad_timeout contract.id)
  throw_if
      (not (is_safe contract.maximum_daily_budget_minor_clp)
        || ltb_ℤ contract.maximum_daily_budget_minor_clp (pos 0))
      (bad_budget contract.id)
  throw_if (is_ceo contract.level && not (is_missing contract.parent_agent_id)) ceo_has_parent
  throw_if (not (is_ceo contract.level) && is_missing contract.parent_agent_id)
      (parent_missing contract.id)
  throw_if (is_ceo contract.level && not (is_executive contract.department_id))
      ceo_outside_executive

-- `new Map(contracts.map((contract) => [contract.id, contract]))`
unfoldable pub index_from :
    Assoc AgentRoleContract → List AgentRoleContract → Assoc AgentRoleContract
index_from m [] = m
index_from m (c ∷ cs) = index_from (set c.id c m) cs

abbrev pub check_levels : AgentRoleContract → AgentRoleContract → Result AgentError (Unit {0})
check_levels contract parent =
    throw_if (is_director contract.level && not (is_ceo parent.level))
      (director_not_under_ceo contract.id)
    >> throw_if (is_specialist contract.level && not (is_director parent.level))
        (specialist_not_under_director contract.id)

abbrev pub check_found : AgentRoleContract → Option AgentRoleContract → Result AgentError (Unit {0})
check_found contract none = err (unknown_parent contract.id)
check_found contract (some parent) = check_levels contract parent

abbrev pub check_parent :
    Assoc AgentRoleContract → AgentRoleContract → Option String → Result AgentError (Unit {0})
check_parent by_id contract none = ok tt
check_parent by_id contract (some id) = check_found contract (lookup id by_id)

unfoldable pub check_all :
    Assoc AgentRoleContract → List AgentRoleContract → Result AgentError (Unit {0})
check_all by_id [] = ok tt
check_all by_id (c ∷ cs) =
    assert_valid_agent_contract c >> check_parent by_id c c.parent_agent_id >> check_all by_id cs

unfoldable pub assert_valid_agent_hierarchy : List AgentRoleContract → Result AgentError (Unit {0})
assert_valid_agent_hierarchy contracts =
    throw_if (not (eqb (length (filter (λ c. is_ceo c.level) contracts)) 1)) not_one_ceo
    >> check_all (index_from [] contracts) contracts
