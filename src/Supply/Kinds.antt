-- ===== src/Supply/Kinds.antt =====
-- The kinds of evidence that the steps of a workflow need, and those that are missing.
use eauto_ai.Prelude.{
  append-nil, String, true, List, [], ◌∷◌, map, includes, All, ◌≡◌, ◌≢◌, refl, ◌∙◌, sym, arith,
  Bool-cases, inl, inr, string_eq,
}
use eauto_ai.Supply.{
  SupplyWorkflowKind, supplier_pause, supplier_full_scrape, stock_sync, stock_autopause,
  purchase_opportunistic, SupplyWorkflowStep, plan_supply_workflow,
}
use eauto_ai.Supply.Service.{missing_kinds, finish_step, complete_step, missing_of, all_completed}

-- The kinds of evidence that every workflow needs.
abbrev pub needed_kinds : List String
needed_kinds =
    "supplier-evidence" ∷ "listing-snapshot" ∷ "inventory-snapshot" ∷ "economic-snapshot"
    ∷ "policy-version" ∷ []

-- Nothing is missing of a list of kinds exactly where all of them are available.
module _ (available : List String) where
  abbrev pub HasAll : List String → Type 0
  HasAll = All (λ kind. includes available kind ≡ true)

  missing_kinds-HasAll : (kinds : List String) → missing_kinds available kinds ≡ [] → HasAll kinds
  missing_kinds-HasAll [] h = tt
  missing_kinds-HasAll (k ∷ ks) h = elim (Bool-cases (includes available k)) [
    | inl e ↦ (e, missing_kinds-HasAll ks (rw e at h))
    | inr e ↦ absurd (no_cons (rw e at h))
  ]
    where
      no_cons : (k ∷ missing_kinds available ks) ≢ []
      no_cons h = cc

  HasAll-missing_kinds : (kinds : List String) → HasAll kinds → missing_kinds available kinds ≡ []
  HasAll-missing_kinds [] h = refl
  HasAll-missing_kinds (k ∷ ks) (e, h) = rw e (HasAll-missing_kinds ks h)

  module _ (refs : List String) where
    finish_step-nil :
        (ks : List String) (s : SupplyWorkflowStep) → (finish_step ks refs s).missing_inputs ≡ ks
    finish_step-nil [] s = refl
    finish_step-nil (k ∷ ks) s = refl

    pub missing_of-HasAll :
        (steps : List SupplyWorkflowStep)
        → missing_of (map (complete_step available refs) steps) ≡ []
        → All (λ s. HasAll s.required_evidence_kinds) steps
    missing_of-HasAll [] h = tt
    missing_of-HasAll (s ∷ steps) h =
        let (first, rest) = append-nil _ _ h in
        (
          missing_kinds-HasAll s.required_evidence_kinds
              (sym (finish_step-nil (missing_kinds available s.required_evidence_kinds) s) ∙ first),
          missing_of-HasAll steps rest,
        )

    -- With all kinds available every step is completed, and none misses an input.
    pub HasAll-completed :
        (steps : List SupplyWorkflowStep)
        → All (λ s. HasAll s.required_evidence_kinds) steps
        → (missing_of (map (complete_step available refs) steps) ≡ [])
          × (all_completed (map (complete_step available refs) steps) ≡ true)
    HasAll-completed [] h = (refl, refl)
    HasAll-completed (s ∷ steps) (e, h) =
        let (none_missing, done) = HasAll-completed steps h in
        rw (HasAll-missing_kinds s.required_evidence_kinds e) (none_missing, done)

  pub plan-HasAll :
      (kind : SupplyWorkflowKind)
      → All (λ s. HasAll s.required_evidence_kinds) (plan_supply_workflow kind)
      → HasAll needed_kinds
  plan-HasAll supplier_pause h = ground arith
  plan-HasAll supplier_full_scrape h = ground arith
  plan-HasAll stock_sync h = ground arith
  plan-HasAll stock_autopause h = ground arith
  plan-HasAll purchase_opportunistic h = ground arith

  pub HasAll-plan :
      (kind : SupplyWorkflowKind)
      → HasAll needed_kinds
      → All (λ s. HasAll s.required_evidence_kinds) (plan_supply_workflow kind)
  HasAll-plan supplier_pause h = ground arith
  HasAll-plan supplier_full_scrape h = ground arith
  HasAll-plan stock_sync h = ground arith
  HasAll-plan stock_autopause h = ground arith
  HasAll-plan purchase_opportunistic h = ground arith
