-- ===== src/WorkOrders/Service.antt =====
-- `GovernedWorkOrderService` of packages/application/src/governedWorkOrderService.ts. The catalog of
-- agents, the repository, the ids and the hash of the signals come from outside.
use Prim.Native.String.{◌++◌ as concat}
use eauto_ai.Prelude.{
  ℕ, zero, suc, String, Option, none, some, Bool, false, not, ◌&&◌, ◌||◌, List, [], ◌∷◌, find,
  filter, any, includes, length, string_eq, ◌==◌, ◌!=◌, ltb, if◌then◌else◌,
}
use eauto_ai.Prelude.Int.{ℤ, pos, negsuc, is_safe}
use eauto_ai.Prelude.Strings.{sort, units}
use eauto_ai.Prelude.Result.{Result, ok, err}
use eauto_ai.Prelude.Result.Pure.{◌>>=◌, ◌>>◌, throw_if}
use eauto_ai.Time.{Timestamp}
use eauto_ai.Agents.{AgentRoleContract}
use eauto_ai.Collaboration.{EvidenceDocument}
use eauto_ai.Collaboration.Text.{unbroken, trim_start, trim_end, cut}
use eauto_ai.Collaboration.Router.{joined}
use eauto_ai.WorkOrders.{
  OperationalEvidencePack, WorkOrderStatus, queued, waiting_evidence, skipped, LlmTaskClass,
  OrderError, unknown_agent, not_allowed, forbidden, no_pack, pack_scope, instruction_short,
  not_non_negative, not_positive, assert_usable_evidence_pack, Doubles, WakeReason, Signal,
  WakeDecision, decide_wake,
}

unfoldable pub sanitize : String → ℕ → Result OrderError String
sanitize value maximum =
    let normalized = trim_end (trim_start (unbroken false value)) in
    if ltb (length (units normalized)) 3 then err instruction_short else ok (cut maximum normalized)

unfoldable pub validate_non_negative : ℤ → String → Result OrderError ℕ
validate_non_negative (negsuc n) field = err (not_non_negative field)
validate_non_negative (pos n) field = if is_safe (pos n) then ok n else err (not_non_negative field)

unfoldable pub validate_positive : ℤ → String → Result OrderError ℕ
validate_positive (negsuc n) field = err (not_positive field)
validate_positive (pos zero) field = err (not_positive field)
validate_positive (pos (suc n)) field =
    if is_safe (pos (suc n)) then ok (suc n) else err (not_positive field)

-- `document.kind === kind`, for a kind that is not the empty text
abbrev pub is_kind : String → EvidenceDocument → Bool
is_kind kind d = elim d.kind [ none ↦ false | some own ↦ not (own == "") && own == kind ]

abbrev pub missing_kinds : List EvidenceDocument → List String → List String
missing_kinds documents required = filter (λ kind. not (any (is_kind kind) documents)) required

-- The status by what is missing and by the decision to wake.
abbrev pub status_of : List String → Bool → WorkOrderStatus
status_of (kind ∷ kinds) should_wake = waiting_evidence
status_of [] should_wake = if should_wake then queued else skipped

abbrev pub failure_of : List String → Option String
failure_of [] = none
failure_of (kind ∷ kinds) = some (concat "missing-evidence:" (joined (sort (kind ∷ kinds))))

abbrev pub completed_of : List String → Bool → ℕ → Option ℕ
completed_of (kind ∷ kinds) should_wake now = none
completed_of [] should_wake now = if should_wake then none else some now

-- The reason of the decision; none stands for "missing-evidence".
abbrev pub wake_reason_of : List String → WakeReason → Option WakeReason
wake_reason_of [] reason = some reason
wake_reason_of (kind ∷ kinds) reason = none

module _ (D : Doubles) where
  pub record OrderInput : Type 0 where
    pub organization_id : String
    pub account_id : String
    pub objective_id : String
    pub agent_id : String
    pub capability : String
    pub task_class : LlmTaskClass
    pub instruction : String
    pub evidence_pack_id : String
    pub signals : List (Signal D)
    pub previous_signals_hash : Option String
    pub cooldown_until : Option Timestamp
    pub estimated_cost_micros_usd : D.Double
    pub budget_micros_usd : ℤ
    pub budget_minor_clp : ℤ
    pub maximum_attempts : ℤ
    pub idempotency_key : String
    pub is_manual : Bool

  pub record AgentWorkOrder : Type 0 where
    pub id : String
    pub idempotency_key : String
    pub organization_id : String
    pub account_id : String
    pub objective_id : String
    pub agent_id : String
    pub capability : String
    pub task_class : LlmTaskClass
    pub requested_action : String
    pub evidence_pack_id : String
    pub memory_refs : List String
    pub signals_hash : String
    pub expected_utility : D.Double
    pub wake_reason : Option WakeReason
    pub status : WorkOrderStatus
    pub budget_minor_clp : ℕ
    pub budget_micros_usd : ℕ
    pub maximum_attempts : ℕ
    pub attempts : ℕ
    pub available_at : ℕ
    pub cooldown_until : Option Timestamp
    pub lease_owner : Option String
    pub lease_until : Option ℕ
    pub session_id : Option String
    pub output_refs : List String
    pub failure_reason : Option String
    pub created_at : ℕ
    pub updated_at : ℕ
    pub completed_at : Option ℕ

  pub record OrderPorts : Type 0 where
    pub catalog : List AgentRoleContract
    pub now : ℕ
    pub next_id : String
    pub hash : List (Signal D) → String
    pub get_evidence_pack :
        (id organization account : String) → Result OrderError (Option OperationalEvidencePack)

  abbrev pub found_contract : Option AgentRoleContract → Result OrderError AgentRoleContract
  found_contract none = err unknown_agent
  found_contract (some contract) = if contract.active then ok contract else err unknown_agent

  abbrev pub found_pack : Option OperationalEvidencePack → Result OrderError OperationalEvidencePack
  found_pack none = err no_pack
  found_pack (some pack) = ok pack

  -- `previousSignalsHash ? … : {}`: an empty text is none.
  abbrev pub given : Option String → Option String
  given none = none
  given (some t) = if t == "" then none else some t

  abbrev pub wake_of : OrderPorts → OrderInput → WakeDecision D
  wake_of ports q =
      decide_wake D (ports.hash q.signals) q.signals (given q.previous_signals_hash)
        q.cooldown_until ports.now q.estimated_cost_micros_usd q.is_manual

  -- The order that `enqueue` hands to the repository.
  unfoldable pub prepare_order : OrderPorts → OrderInput → Result OrderError AgentWorkOrder
  prepare_order ports q = do
    contract ← found_contract (find (λ c. c.id == q.agent_id) ports.catalog)
    throw_if (not (includes contract.allowed_capabilities q.capability)) not_allowed
    throw_if (includes contract.forbidden_capabilities q.capability) forbidden
    answer ← ports.get_evidence_pack q.evidence_pack_id q.organization_id q.account_id
    pack ← found_pack answer
    throw_if (pack.organization_id != q.organization_id || pack.account_id != q.account_id)
        pack_scope
    assert_usable_evidence_pack pack ports.now
    action ← sanitize q.instruction 5000
    clp ← validate_non_negative q.budget_minor_clp "budgetMinorClp"
    usd ← validate_non_negative q.budget_micros_usd "budgetMicrosUsd"
    attempts ← validate_positive q.maximum_attempts "maximumAttempts"
    ok (record {
      id = ports.next_id;
      idempotency_key = q.idempotency_key;
      organization_id = q.organization_id;
      account_id = q.account_id;
      objective_id = q.objective_id;
      agent_id = q.agent_id;
      capability = q.capability;
      task_class = q.task_class;
      requested_action = action;
      evidence_pack_id = q.evidence_pack_id;
      memory_refs = [];
      signals_hash = (wake_of ports q).signals_hash;
      expected_utility = (wake_of ports q).expected_utility;
      wake_reason =
          wake_reason_of (missing_kinds pack.documents contract.required_evidence_kinds)
            (wake_of ports q).reason;
      status =
          status_of (missing_kinds pack.documents contract.required_evidence_kinds)
            (wake_of ports q).should_wake;
      budget_minor_clp = clp;
      budget_micros_usd = usd;
      maximum_attempts = attempts;
      attempts = 0;
      available_at = ports.now;
      cooldown_until = q.cooldown_until;
      lease_owner = none;
      lease_until = none;
      session_id = none;
      output_refs = [];
      failure_reason = failure_of (missing_kinds pack.documents contract.required_evidence_kinds);
      created_at = ports.now;
      updated_at = ports.now;
      completed_at =
          completed_of (missing_kinds pack.documents contract.required_evidence_kinds)
            (wake_of ports q).should_wake ports.now;
    })
