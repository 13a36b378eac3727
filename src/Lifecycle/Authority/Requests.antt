-- ===== src/Lifecycle/Authority/Requests.antt =====
-- The requests of the service keep every stored action authorised.
use eauto_ai.Prelude.{
  String, Option, none, some, Bool, true, false, ◌≡◌, refl, sym, ap, inl, inr, arith, ◌!=◌,
  string_eq,
}
use mathlib.Core.Path.{subst}
use eauto_ai.Prelude.Assoc.{lookup}
use eauto_ai.Prelude.Result.{Result, ok, err, err-ne-ok, ok-injective}
use eauto_ai.Prelude.Result.Exec.{lift, throw_if, Ends, lift-Ends, bind-Ends}
use eauto_ai.Time.{due}
use eauto_ai.Action.{
  BusinessAction, Approval, ActionStatus, proposed, reviewed, approved, ActionError,
  transition_action, assert_complete_evidence, not_reviewed, action_expired, status_eq,
}
use eauto_ai.Action.Graph.{◌⟶◌, transition_action_iff}
use eauto_ai.Lifecycle.{World, ReceiptType, Payload}
use eauto_ai.Lifecycle.Environment.{Environment}
use eauto_ai.Lifecycle.Repository.{save_approval, check_save}
use eauto_ai.Lifecycle.Service.{
  require_some, require_action, lifecycle_event, receipt_draft, save_with, propose, mark_reviewed,
  approve as approve_action,
}
use eauto_ai.Lifecycle.Authority.{
  books, Covers, Covers-status, IsBacked, IsAuthorised, save-IsAuthorised,
  save_approval-IsAuthorised,
}

module _ (env : Environment) (message : ActionError → String) where
  -- Good in both ways to end: the stores are authorised.
  abbrev pub Safe : World → Type 0
  Safe w = IsAuthorised env (books w)

  abbrev pub Kept : {A : Type 0} → A → World → Type 0
  Kept a w = Safe w

  -- A save with its event and receipt changes the two maps as the save itself does.
  save_with-Safe :
      (a : BusinessAction) (type : String) (p : Payload) (kind : ReceiptType) (q : Payload)
      (w : World)
      → Safe w
      → (check_save a (lookup a.id w.actions) ≡ ok tt
          → IsBacked env a.id (some a) (lookup a.id w.approvals))
      → Safe (save_with env message a type p kind q w).1
  unfolding save_with lifecycle_event receipt_draft
  save_with-Safe a type p kind q w h new = save-IsAuthorised env a _ _ _ h new

  check_save-new :
      (a : BusinessAction) (o : Option BusinessAction)
      → a.status ≡ proposed
      → check_save a o ≡ ok tt
      → o ≡ none
  unfolding check_save
  check_save-new a none s h = refl
  check_save-new a (some b) s h = absurd (err-ne-ok _ tt (rw (s, check_save) at h))

  new-IsBacked :
      (a : BusinessAction) (o : Option BusinessAction) (p : Option Approval)
      → a.status ≡ proposed
      → o ≡ none
      → IsBacked env a.id o p
      → IsBacked env a.id (some a) p
  new-IsBacked a none none s e h = (refl, inl s)
  new-IsBacked a none (some p) s e h = absurd h
  new-IsBacked a (some b) p s e h = cc

  abbrev Moved : BusinessAction → ActionStatus → BusinessAction → World → Type 0
  Moved a to b w = Safe w × (a.status ⟶ to) × (record a { status = to } ≡ b)

  pub end_of_state : {A : Type 0} (e : Result ActionError A × World) → Safe e.1 → Ends Safe Kept e
  end_of_state (ok a, w) h = h
  end_of_state (err e, w) h = h

  reviewed_from : {s t : ActionStatus} → s ⟶ t → t ≡ reviewed → s ≡ proposed
  reviewed_from e h = grind arith

  reviewed-IsBacked :
      (a : BusinessAction) (p : Option Approval)
      → a.status ⟶ reviewed
      → IsBacked env a.id (some a) p
      → IsBacked env a.id (some (record a { status = reviewed })) p
  reviewed-IsBacked a none e h = (h.0, inr refl)
  reviewed-IsBacked a (some p) e h = absurd (h.2 (reviewed_from e refl))

  move-Ends :
      (a : BusinessAction) (to : ActionStatus) (w : World)
      → Safe w
      → Ends Safe (Moved a to) (lift (transition_action a to) w)
  move-Ends a to w h =
      lift-Ends Safe (Moved a to) (transition_action a to) w h
        (λ b e. let (edge, same) = (transition_action_iff a b to).0 e in (h, edge, same))

  pub propose-Safe :
      (a : BusinessAction) (by : String) (w : World)
      → Safe w
      → Ends Safe Kept (propose env message a by w)
  unfolding propose
  propose-Safe a by w h =
      bind-Ends Safe Kept Kept (lift (assert_complete_evidence a.evidence_bundle)) _ w
        (end_of_state _ h)
        (λ _ w h.
          bind-Ends Safe (Moved a proposed) Kept (lift (transition_action a proposed)) _ w
            (move-Ends a proposed w h)
            (λ b w (h, _, same).
              bind-Ends Safe Kept Kept (save_with env message b _ _ _ _) _ w
                (end_of_state _ (
                  save_with-Safe b _ _ _ _ w h (λ e.
                    new-IsBacked b _ _ (ap (λ x. x.status) (sym same))
                      (check_save-new b _ (ap (λ x. x.status) (sym same)) e) (h.backed b.id))))
                (λ _ w h. h)))

  unfoldable pub Found : String → BusinessAction → World → Type 0
  Found id a w = Safe w × (a.id ≡ id) × (lookup id w.actions ≡ some a)

  IsBacked-id :
      (id : String) (a : BusinessAction) (o : Option Approval)
      → IsBacked env id (some a) o
      → a.id ≡ id
  IsBacked-id id a none h = h.0
  IsBacked-id id a (some p) h = h.0

  require_some-ok :
      (id : String) (o : Option BusinessAction) (a : BusinessAction)
      → require_some id o ≡ ok a
      → o ≡ some a
  require_some-ok id none a h = cc
  require_some-ok id (some b) a h = ap some (ok-injective b a h)

  pub require_action-Ends :
      (id : String) (w : World) → Safe w → Ends Safe (Found id) (require_action id w)
  unfolding require_action Found
  require_action-Ends id w h =
      lift-Ends Safe (Found id) (require_some id (lookup id w.actions)) w h (λ a e.
        let found = require_some-ok id (lookup id w.actions) a e in
        (h, IsBacked-id id a (lookup id w.approvals) (rw found at (h.backed id)), found))

  reviewed_stored :
      (a b : BusinessAction) (w : World)
      → Safe w
      → lookup a.id w.actions ≡ some a
      → a.status ⟶ reviewed
      → record a { status = reviewed } ≡ b
      → IsBacked env b.id (some b) (lookup b.id w.approvals)
  reviewed_stored a b w h found edge same =
      subst (λ x. IsBacked env x.id (some x) (lookup x.id w.approvals)) same
        (reviewed-IsBacked a (lookup a.id w.approvals) edge (rw found at (h.backed a.id)))

  pub mark_reviewed-Safe :
      (id : String) (by : String) (w : World)
      → Safe w
      → Ends Safe Kept (mark_reviewed env message id by w)
  unfolding mark_reviewed Found
  mark_reviewed-Safe id by w h =
      bind-Ends Safe (Found id) Kept (require_action id) _ w (require_action-Ends id w h)
        (λ a w (h, own, found).
          bind-Ends Safe (λ b u. Moved a reviewed b u × (lookup a.id u.actions ≡ some a)) Kept
            (lift (transition_action a reviewed)) _ w
            (lift-Ends Safe _ (transition_action a reviewed) w h (λ b e.
              let (edge, same) = (transition_action_iff a b reviewed).0 e in
              ((h, edge, same), subst (λ k. lookup k w.actions ≡ some a) (sym own) found)))
            (λ b w ((h, edge, same), found).
              bind-Ends Safe Kept Kept (save_with env message b _ _ _ _) _ w
                (end_of_state _
                  (save_with-Safe b _ _ _ _ w h (λ _. reviewed_stored a b w h found edge same)))
                (λ _ w h. h)))

  covered-Covers :
      (a b : BusinessAction) (p : Approval) (to : ActionStatus)
      → record a { status = to } ≡ b
      → Covers env a p
      → Covers env b p
  covered-Covers a b p to same c = subst (λ x. Covers env x p) same (Covers-status env a p to c)

  throw_if-Ends :
      (bad : Bool) (e : ActionError) (w : World) → Safe w → Ends Safe Kept (throw_if bad e w)
  throw_if-Ends true e w h = h
  throw_if-Ends false e w h = h

  pub approve-Safe :
      (id : String) (by : String) (w : World)
      → Safe w
      → Ends Safe Kept (approve_action env message id by w)
  unfolding approve_action Found lifecycle_event receipt_draft
  approve-Safe id by w h =
      bind-Ends Safe (Found id) Kept (require_action id) _ w (require_action-Ends id w h)
        (λ a w (h, own, found).
          bind-Ends Safe Kept Kept (throw_if (a.status != reviewed) not_reviewed) _ w
            (throw_if-Ends _ _ w h)
            (λ _ w h.
              bind-Ends Safe Kept Kept
                (throw_if (due a.expires_at (env.clock w.asked)) action_expired) _ _
                (throw_if-Ends _ _ _ h)
                (λ _ w h.
                  bind-Ends Safe (Moved a approved) Kept (lift (transition_action a approved)) _ _
                    (move-Ends a approved _ h)
                    (λ b w (h, _, same).
                      bind-Ends Safe Kept Kept (save_approval env _ b _ _) _ _
                        (end_of_state _ (
                          save_approval-IsAuthorised env _ b _ _ _ h
                            (covered-Covers a b _ approved same
                              (record { of_action = refl; of_content = refl; same_expiry = refl }))
                            (ap (λ x. x.status) (sym same))))
                        (λ _ w h. h)))))
