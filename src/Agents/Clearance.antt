-- ===== src/Agents/Clearance.antt =====
-- Exactly when the preflight of an agent allows its request.
use eauto_ai.Prelude.{
  String, Bool, true, false, not, ◌&&◌, ◌||◌, List, [], ◌∷◌, ◌++◌, includes, All, is_empty, ◌==◌,
  string_eq, if◌then◌else◌, ◌≡◌, ◌≢◌, ◌↔◌, refl, sym, ◌∙◌, arith, ◌⊎◌, inl, inr,
}
use eauto_ai.Prelude.Int.{pos, ◌+ℤ◌, ◌≤ℤ◌, is_safe}
use eauto_ai.Prelude.Tested.{Any}
use eauto_ai.Agents.{AgentSkillManifest, ask, autonomous, critical}
use eauto_ai.Agents.Gates.{
  depth_of, capable_iff, budget_iff, evidence_iff, delegated_iff, unattended_iff, spoken_iff,
}
use eauto_ai.Agents.Preflight.{
  AgentPreflightInput, allow, ask_first, deny, missing_evidence_kinds, is_action_allowed,
  is_budget_allowed, is_delegation_allowed, is_evidence_complete, needs_human, reasons, status,
  reason, is_ask,
}

-- What clears a request of an agent that has these skills.
pub record IsCleared (input : AgentPreflightInput) (skills : List AgentSkillManifest) : Type 0 where
  pub active : input.contract.active ≡ true
  pub capable :
      (includes input.contract.allowed_capabilities input.requested_action ≡ true)
      ⊎ Any (λ s. includes s.allowed_capabilities input.requested_action ≡ true) skills
  pub not_forbidden : includes input.contract.forbidden_capabilities input.requested_action ≡ false
  pub not_forbidden_by_skill :
      All (λ s. includes s.forbidden_capabilities input.requested_action ≡ false) skills
  pub policy : input.policy_allowed ≡ true
  pub budget : is_safe input.requested_budget_minor_clp ≡ true
  pub not_negative : pos 0 ≤ℤ input.requested_budget_minor_clp
  pub affordable :
      (input.spent_today_minor_clp +ℤ input.requested_budget_minor_clp)
      ≤ℤ input.contract.maximum_daily_budget_minor_clp
  pub delegated : input.delegation_depth ≡ depth_of input.contract.level
  pub evidence :
      All
        (λ k. includes input.available_evidence_kinds k ≡ true)
        input.contract.required_evidence_kinds
  pub evidence_of_skills :
      All
        (λ s. All (λ k. includes input.available_evidence_kinds k ≡ true) s.required_evidence_kinds)
        skills
  pub unattended :
      (input.autonomy ≢ autonomous)
      ⊎ (All (λ s. s.requires_human_approval ≡ false) skills
          × (input.contract.risk_level ≢ critical))
  pub spoken : (input.autonomy ≢ ask) ⊎ (input.requested_action ≡ "evidence.request")

-- The tests of the code, one by one.
record IsPassed (input : AgentPreflightInput) (skills : List AgentSkillManifest) : Type 0 where
  active : input.contract.active ≡ true
  capable : is_action_allowed input skills ≡ true
  policy : input.policy_allowed ≡ true
  affordable : is_budget_allowed input skills ≡ true
  delegated : is_delegation_allowed input skills ≡ true
  evidence : missing_evidence_kinds input skills ≡ []
  unattended : needs_human input skills ≡ false
  spoken : (is_ask input.autonomy && not (input.requested_action == "evidence.request")) ≡ false

human :
    (a b c d e f g : Bool)
    → includes
        (reason (not a) "agent-inactive"
          ++ reason (not b) "capability-not-allowed"
          ++ reason (not c) "policy-denied"
          ++ reason (not d) "budget-exceeded"
          ++ reason (not e) "delegation-depth-invalid"
          ++ reason (not f) "missing-evidence"
          ++ reason g "human-approval-required")
        "human-approval-required"
      ≡ g
human a b c d e f g = ground arith

gate :
    (denied incomplete silent human : Bool)
    → (if denied then deny else if incomplete || (silent || human) then ask_first else allow)
      ≡ allow
    → (denied ≡ false) × (incomplete ≡ false) × (silent ≡ false) × (human ≡ false)
gate true b c d h = cc
gate false true c d h = cc
gate false false true d h = cc
gate false false false true h = cc
gate false false false false h = (refl, refl, refl, refl)

five :
    (a b c d e : Bool)
    → (not a || (not b || (not c || (not d || not e)))) ≡ false
    → (a ≡ true) × (b ≡ true) × (c ≡ true) × (d ≡ true) × (e ≡ true)
five a b c d e h = (ground arith, ground arith, ground arith, ground arith, ground arith)

empty_list : (xs : List String) → not (is_empty xs) ≡ false → xs ≡ []
empty_list [] h = refl
empty_list (x ∷ xs) h = cc

spoken_of : (a b : Bool) → (a && not b) ≡ false → (a ≡ false) ⊎ (b ≡ true)
spoken_of false b h = inl refl
spoken_of true true h = inr refl
spoken_of true false h = cc

silent_of : (a b : Bool) → (a ≡ false) ⊎ (b ≡ true) → (a && not b) ≡ false
silent_of a b (inl e) = rw e refl
silent_of a b (inr e) = rw e (ground arith)

status-IsPassed_iff :
    (input : AgentPreflightInput) (skills : List AgentSkillManifest)
    → (status input skills ≡ allow) ↔ IsPassed input skills
unfolding reasons is_evidence_complete
status-IsPassed_iff input skills = (
  λ h.
      let (a, b, c, d) = gate _ _ _ _ h in
      let (active, capable, policy, affordable, delegated) = five _ _ _ _ _ a in
      record {
        active = active;
        capable = capable;
        policy = policy;
        affordable = affordable;
        delegated = delegated;
        evidence = empty_list _ b;
        unattended = sym (human _ _ _ _ _ _ _) ∙ d;
        spoken = c;
      },
  λ k.
      rw
        (
          k.capable, k.affordable, k.evidence, k.unattended, k.delegated, k.spoken, k.policy,
          k.active,
        )
        refl,
)

module _ (input : AgentPreflightInput) (skills : List AgentSkillManifest) where
  -- The preflight allows an action exactly when the agent is active, the action is among the
  -- capabilities of the agent or of one of its skills and forbidden by none of them, the policy
  -- allows it, the requested budget is a safe integer that is not negative and with what was spent
  -- today stays within the daily budget, the delegation has the depth of the agent's level, every
  -- kind of evidence that the agent and its skills require is there, the agent is not autonomous, or
  -- no skill requires approval and its risk is not critical, and the agent is not one that must ask,
  -- unless the request is for evidence.
  pub status-allow_iff : (status input skills ≡ allow) ↔ IsCleared input skills
  status-allow_iff = (
    λ h.
        let k = (status-IsPassed_iff input skills).0 h in
        let (capable, not_forbidden, by_skill) = (capable_iff input skills).0 k.capable in
        let (budget, not_negative, affordable) = (budget_iff input skills).0 k.affordable in
        let (evidence, of_skills) = (evidence_iff input skills).0 k.evidence in
        record {
          active = k.active;
          capable = capable;
          not_forbidden = not_forbidden;
          not_forbidden_by_skill = by_skill;
          policy = k.policy;
          budget = budget;
          not_negative = not_negative;
          affordable = affordable;
          delegated = (delegated_iff input skills).0 k.delegated;
          evidence = evidence;
          evidence_of_skills = of_skills;
          unattended = (unattended_iff input skills).0 k.unattended;
          spoken = (spoken_iff input skills).0 k.spoken;
        },
    λ k. (status-IsPassed_iff input skills).1 (record {
      active = k.active;
      capable = (capable_iff input skills).1 (k.capable, k.not_forbidden, k.not_forbidden_by_skill);
      policy = k.policy;
      affordable = (budget_iff input skills).1 (k.budget, k.not_negative, k.affordable);
      delegated = (delegated_iff input skills).1 k.delegated;
      evidence = (evidence_iff input skills).1 (k.evidence, k.evidence_of_skills);
      unattended = (unattended_iff input skills).1 k.unattended;
      spoken = (spoken_iff input skills).1 k.spoken;
    }),
  )
