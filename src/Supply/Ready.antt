-- ===== src/Supply/Ready.antt =====
-- When a supply workflow is proposed.
use eauto_ai.Prelude.{
  append-nil, unique-nil, ℕ, String, Option, none, some, Bool, true, false, ◌&&◌, List, [], ◌∷◌,
  ◌++◌, includes, unique, All, ◌≡◌, ◌≢◌, ◌⊎◌, refl, ◌∙◌, sym, arith, Bool-cases, inl, inr,
  string_eq,
}
use eauto_ai.Prelude.Int.{ℤ}
use eauto_ai.Prelude.Strings.{sort, sort-nil}
use eauto_ai.Prelude.Result.{ok}
use eauto_ai.Supply.{
  SupplyWorkflowKind, supplier_pause, supplier_full_scrape, stock_sync, stock_autopause,
  purchase_opportunistic, waiting_evidence, proposed, SupplyWorkflowRequest, SupplyWorkflowRun,
  plan_supply_workflow, supply_workflow_action_kind,
}
use eauto_ai.Supply.Service.{
  Observed, missing_if_null, parameters_missing, validate_business_parameters, missing_of, is_empty,
  completed_steps, all_missing, is_ready, normalized, check_request, SupplyPorts, built,
  prepare_run,
}
use eauto_ai.Supply.Kinds.{
  needed_kinds, missing_of-HasAll, HasAll-completed, plan-HasAll, HasAll-plan,
}

-- The parameters that the kind of a workflow needs.
abbrev pub IsGiven : Option ℤ → Type 0
IsGiven o = o ≢ none

abbrev pub AreGiven : SupplyWorkflowKind → SupplyWorkflowRequest → Type 0
AreGiven stock_autopause q = IsGiven q.parameters.stock_floor
AreGiven stock_sync q = IsGiven q.parameters.stock_ceiling
AreGiven purchase_opportunistic q =
    IsGiven q.parameters.maximum_purchase_quantity
    × IsGiven q.parameters.maximum_unit_cost_minor_clp
AreGiven supplier_pause q = Unit
AreGiven supplier_full_scrape q = Unit

abbrev pub IsReady : SupplyWorkflowRequest → Observed → Type 0
IsReady q o =
    (o.missing_inputs ≡ [])
    × All (λ kind. includes o.available_kinds kind ≡ true) needed_kinds
    × AreGiven q.kind q

given : (o : Option ℤ) (name : String) → missing_if_null o name ≡ [] → IsGiven o
given none name h = cc
given (some z) name h = λ e. cc

none_missing : (o : Option ℤ) (name : String) → IsGiven o → missing_if_null o name ≡ []
none_missing none name h = absurd (h refl)
none_missing (some z) name h = refl

parameters_missing-AreGiven :
    (kind : SupplyWorkflowKind) (q : SupplyWorkflowRequest)
    → parameters_missing kind q ≡ []
    → AreGiven kind q
parameters_missing-AreGiven supplier_pause q h = tt
parameters_missing-AreGiven supplier_full_scrape q h = tt
parameters_missing-AreGiven stock_sync q h = given q.parameters.stock_ceiling _ h
parameters_missing-AreGiven stock_autopause q h = given q.parameters.stock_floor _ h
parameters_missing-AreGiven purchase_opportunistic q h =
    let (first, second) = append-nil _ _ h in
    (
      given q.parameters.maximum_purchase_quantity _ first,
      given q.parameters.maximum_unit_cost_minor_clp _ second,
    )

AreGiven-parameters_missing :
    (kind : SupplyWorkflowKind) (q : SupplyWorkflowRequest)
    → AreGiven kind q
    → parameters_missing kind q ≡ []
AreGiven-parameters_missing supplier_pause q h = refl
AreGiven-parameters_missing supplier_full_scrape q h = refl
AreGiven-parameters_missing stock_sync q h = none_missing _ _ h
AreGiven-parameters_missing stock_autopause q h = none_missing _ _ h
AreGiven-parameters_missing purchase_opportunistic q h =
    rw (none_missing q.parameters.maximum_purchase_quantity "maximum-purchase-quantity" h.0)
      (none_missing q.parameters.maximum_unit_cost_minor_clp "maximum-unit-cost" h.1)

is_empty-nil : (xs : List String) → is_empty xs ≡ true → xs ≡ []
is_empty-nil [] h = refl
is_empty-nil (x ∷ xs) h = cc

both : (a b : Bool) → (a && b) ≡ true → a ≡ true
both a b h = ground arith

is_ready-IsReady : (q : SupplyWorkflowRequest) (o : Observed) → is_ready q o ≡ true → IsReady q o
is_ready-IsReady q o h =
    let nothing = is_empty-nil (all_missing q o) (both _ _ h) in
    let ms = missing_of (completed_steps q o) in
    let ps = validate_business_parameters q in
    let all = o.missing_inputs ++ (ms ++ ps) in
    let (seen, rest) =
      append-nil o.missing_inputs (ms ++ ps) (unique-nil all (sort-nil (unique all) nothing)) in
    let (kinds, parameters) = append-nil ms ps rest in
    (
      seen,
      plan-HasAll o.available_kinds q.kind
          (missing_of-HasAll o.available_kinds o.evidence_refs (plan_supply_workflow q.kind) kinds),
      parameters_missing-AreGiven q.kind q parameters,
    )

IsReady-is_ready : (q : SupplyWorkflowRequest) (o : Observed) → IsReady q o → is_ready q o ≡ true
unfolding sort
IsReady-is_ready q o (seen, kinds, parameters) =
    let (none_of, done) =
      HasAll-completed o.available_kinds o.evidence_refs (plan_supply_workflow q.kind)
        (HasAll-plan o.available_kinds q.kind kinds) in
    rw (seen, none_of, AreGiven-parameters_missing q.kind q parameters) done

-- The state of a run that is proposed, and of one that waits.
abbrev pub IsSettled : SupplyWorkflowRequest → SupplyWorkflowRun → Type 0
IsSettled q r =
    (r.status ≡ proposed)
    × (r.missing_inputs ≡ [])
    × (r.proposed_action_kind ≡ some (supply_workflow_action_kind q.kind))
    × (r.completed_at ≡ some r.created_at)

abbrev pub IsWaiting : SupplyWorkflowRun → Type 0
IsWaiting r =
    (r.status ≡ waiting_evidence) × (r.proposed_action_kind ≡ none) × (r.completed_at ≡ none)

normalized-cases :
    (q : SupplyWorkflowRequest) (o : Observed) (now : ℕ) (id hash : String)
    → (IsReady q o × IsSettled q (normalized q o now id hash))
      ⊎ ((¬ IsReady q o) × IsWaiting (normalized q o now id hash))
unfolding normalized
normalized-cases q o now id hash = elim (Bool-cases (is_ready q o)) [
  | inl e ↦
      inl (
        is_ready-IsReady q o e,
        rw e (refl, is_empty-nil (all_missing q o) (both _ _ e), refl, refl),
      )
  | inr e ↦ inr ((λ h. false_ne_true (sym e ∙ IsReady-is_ready q o h)), rw e (refl, refl, refl))
]
  where
    false_ne_true : false ≢ true
    false_ne_true h = cc

-- A request that passes the checks, with evidence that is read, always gives a run, for the
-- request's scope and dry: a proposed one, with the action of its kind, nothing missing and its date
-- of completion, exactly where the reader misses nothing, the five kinds of evidence are available
-- and the parameters of its kind are given; in every other case one that waits for evidence, with no
-- action and no date of completion.
pub prepare_run-decided :
    (ports : SupplyPorts) (q : SupplyWorkflowRequest) (age : ℕ) (o : Observed)
    → check_request q ≡ ok age
    → ports.read q ports.now age ≡ ok o
    → (r : SupplyWorkflowRun) × (prepare_run ports q ≡ ok r)
      × (r.dry_run ≡ true)
      × (r.organization_id ≡ q.organization_id)
      × (r.account_id ≡ q.account_id)
      × ((IsReady q o × IsSettled q r) ⊎ ((¬ IsReady q o) × IsWaiting r))
unfolding prepare_run normalized
prepare_run-decided ports q age o checked read = (
  built ports q o,
  rw checked (rw read refl),
  refl,
  refl,
  refl,
  normalized-cases q o ports.now ports.next_id (ports.hash q (normalized q o ports.now "" "")),
)
