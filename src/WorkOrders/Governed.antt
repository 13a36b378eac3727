-- ===== src/WorkOrders/Governed.antt =====
-- What an order has passed before it is handed on.
use eauto_ai.Prelude.{
  String, Option, none, some, Bool, true, false, not, ◌||◌, List, [], ◌∷◌, find, includes, All,
  string_eq, ◌==◌, ◌!=◌, ◌≡◌, ◌↔◌, if◌then◌else◌, refl, ap, ◌∙◌, arith, eq_of_not_!=,
}
use mathlib.Core.Path.{subst}
use eauto_ai.Prelude.Result.{ok, err, Returns, ok-injective, err-ne-ok}
use eauto_ai.Prelude.Result.Pure.{throw_if, bind-Returns}
use eauto_ai.Agents.{AgentRoleContract}
use eauto_ai.WorkOrders.{
  OperationalEvidencePack, WorkOrderStatus, queued, waiting_evidence, skipped, unknown_agent,
  not_allowed, forbidden, pack_scope, assert_usable_evidence_pack, Doubles,
}
use eauto_ai.WorkOrders.Evidence.{
  passed, IsUsable, assert_usable_evidence_pack-IsUsable, HasKind, missing_kinds-nil,
  missing_kinds-cons,
}
use eauto_ai.WorkOrders.Wake.{IsWanted, decide_wake_iff}
use eauto_ai.Prelude.Tested.{Any}
use mathlib.Core.Bool.{false≢true}
use eauto_ai.WorkOrders.Service.{
  given, sanitize, validate_non_negative, validate_positive, missing_kinds, status_of, OrderInput,
  AgentWorkOrder, OrderPorts, found_contract, found_pack, prepare_order,
}

-- What the status of a new order says of the evidence and of the wish to wake its agent.
abbrev pub IsJustly :
    WorkOrderStatus → AgentRoleContract → OperationalEvidencePack → Type 0 → Type 0
IsJustly queued contract pack Wanted =
    All (HasKind pack.documents) contract.required_evidence_kinds × Wanted
IsJustly skipped contract pack Wanted =
    All (HasKind pack.documents) contract.required_evidence_kinds × (¬ Wanted)
IsJustly waiting_evidence contract pack Wanted =
    Any (λ kind. ¬ HasKind pack.documents kind) contract.required_evidence_kinds
IsJustly _ contract pack Wanted = ⊥

status_of-IsJustly :
    (contract : AgentRoleContract) (pack : OperationalEvidencePack) (missing : List String)
    (wake : Bool) (Wanted : Type 0)
    → missing_kinds pack.documents contract.required_evidence_kinds ≡ missing
    → ((wake ≡ true) ↔ Wanted)
    → IsJustly (status_of missing wake) contract pack Wanted
status_of-IsJustly contract pack [] true Wanted h w =
    (missing_kinds-nil pack.documents contract.required_evidence_kinds h, w.0 refl)
status_of-IsJustly contract pack [] false Wanted h w =
    (missing_kinds-nil pack.documents contract.required_evidence_kinds h, λ k. false≢true (w.1 k))
status_of-IsJustly contract pack (k ∷ ks) wake Wanted h w =
    missing_kinds-cons pack.documents contract.required_evidence_kinds k ks h

active_or :
    (b : Bool) (d c : AgentRoleContract)
    → (if b then ok d else err unknown_agent) ≡ ok c
    → (b ≡ true) × (d ≡ c)
active_or true d c h = (refl, ok-injective d c h)
active_or false d c h = absurd (err-ne-ok unknown_agent c h)

module _ (D : Doubles) where
  -- The agent is active and may use the capability, which is not forbidden to it; the pack is of the
  -- scope of the order and usable; and the status says what evidence and decision there is.
  pub record IsGoverned (ports : OrderPorts D) (q : OrderInput D) (o : AgentWorkOrder D)
      : Type 0 where
    pub contract : AgentRoleContract
    pub pack : OperationalEvidencePack
    pub listed : find (λ c. c.id == q.agent_id) ports.catalog ≡ some contract
    pub is_active : contract.active ≡ true
    pub allowed : includes contract.allowed_capabilities q.capability ≡ true
    pub not_forbidden : includes contract.forbidden_capabilities q.capability ≡ false
    pub read :
        ports.get_evidence_pack q.evidence_pack_id q.organization_id q.account_id ≡ ok (some pack)
    pub scope : (pack.organization_id ≡ q.organization_id) × (pack.account_id ≡ q.account_id)
    pub usable : IsUsable pack ports.now
    pub justly : IsJustly o.status contract pack (
        IsWanted D
          (ports.hash q.signals)
          q.signals
          (given D q.previous_signals_hash)
          q.cooldown_until
          ports.now
          q.estimated_cost_micros_usd
          q.is_manual)
    pub order :
        (o.organization_id ≡ q.organization_id)
        × (o.account_id ≡ q.account_id)
        × (o.agent_id ≡ q.agent_id)
        × (o.attempts ≡ 0)
        × (o.lease_owner ≡ none)

  found_contract-active :
      (o : Option AgentRoleContract) (c : AgentRoleContract)
      → found_contract D o ≡ ok c
      → (o ≡ some c) × (c.active ≡ true)
  found_contract-active none c h = cc
  found_contract-active (some d) c h =
      let (e, same) = active_or d.active d c h in
      (ap some same, subst (λ x. x.active ≡ true) same e)

  found_pack-some :
      (o : Option OperationalEvidencePack) (p : OperationalEvidencePack)
      → found_pack D o ≡ ok p
      → o ≡ some p
  found_pack-some none p h = cc
  found_pack-some (some x) p h = ap some (ok-injective x p h)

  same_scope : (a b c d : String) → (a != b || c != d) ≡ false → (a ≡ b) × (c ≡ d)
  same_scope a b c d h = (eq_of_not_!= (ground arith), eq_of_not_!= (ground arith))

  prepare_order-Returns :
      (ports : OrderPorts D) (q : OrderInput D)
      → Returns (IsGoverned ports q) (prepare_order D ports q)
  unfolding prepare_order
  prepare_order-Returns ports q =
      let Q = IsGoverned ports q in
      bind-Returns Q (found_contract D (find (λ c. c.id == q.agent_id) ports.catalog)) _
        λ contract e0.
          bind-Returns Q
            (throw_if (not (includes contract.allowed_capabilities q.capability)) not_allowed) _
            λ u1 e1.
              bind-Returns Q
                (throw_if (includes contract.forbidden_capabilities q.capability) forbidden) _
                λ u2 e2.
                  bind-Returns Q
                    (ports.get_evidence_pack q.evidence_pack_id q.organization_id q.account_id) _
                    λ answer e3. bind-Returns Q (found_pack D answer) _ λ pack e4.
                      bind-Returns Q
                        (throw_if
                          (pack.organization_id != q.organization_id
                            || pack.account_id != q.account_id)
                          pack_scope)
                        _
                        λ u5 e5.
                          bind-Returns Q (assert_usable_evidence_pack pack ports.now) _ λ u6 e6.
                            bind-Returns Q (sanitize q.instruction 5000) _ λ action e7.
                              bind-Returns Q (validate_non_negative q.budget_minor_clp _) _
                                λ clp e8.
                                  bind-Returns Q (validate_non_negative q.budget_micros_usd _) _
                                    λ usd e9.
                                      bind-Returns Q (validate_positive q.maximum_attempts _) _
                                        λ attempts e10.
                                          let (listed, is_active) =
                                            found_contract-active _ contract e0 in
                                          record {
                                            contract = contract;
                                            pack = pack;
                                            listed = listed;
                                            is_active = is_active;
                                            allowed = un_not _ (passed _ _ u1 e1);
                                            not_forbidden = passed _ _ u2 e2;
                                            read = e3 ∙ ap ok (found_pack-some answer pack e4);
                                            scope = same_scope _ _ _ _ (passed _ _ u5 e5);
                                            usable =
                                                assert_usable_evidence_pack-IsUsable pack ports.now
                                                  u6 e6;
                                            justly =
                                                status_of-IsJustly contract pack _ _ _ refl
                                                  (decide_wake_iff D _ _ _ _ _ _ _);
                                            order = (refl, refl, refl, refl, refl);
                                          }
    where
      un_not : (b : Bool) → not b ≡ false → b ≡ true
      un_not true h = refl
      un_not false h = cc

-- An order is prepared only for an active agent of the catalog, for a capability that it is allowed
-- and not forbidden, with a pack of the order's scope that is whole, has not expired where its expiry
-- is a date, and has documents that are each of a named kind, not advisory, fresh, and not expired
-- where their expiry is a date. It is queued only if each kind of evidence that the agent requires is
-- among the documents and waking is wanted, skipped only if they are and it is not wanted, waits for
-- evidence only if one of the kinds is not among them, and has no other status. Waking is wanted if
-- somebody asks for it, or the pause is over or is no date, the signals have another hash than
-- before, and their utility is not zero or less.
pub prepare_order-IsGoverned :
    (D : Doubles) (ports : OrderPorts D) (q : OrderInput D) (o : AgentWorkOrder D)
    → prepare_order D ports q ≡ ok o
    → IsGoverned D ports q o
prepare_order-IsGoverned D ports q o h =
    subst (Returns (IsGoverned D ports q)) h (prepare_order-Returns D ports q)
