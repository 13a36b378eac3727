-- ===== src/Lifecycle/Authority/Execution.antt =====
-- An execution keeps every stored action authorised, however the provider answers.
use eauto_ai.Prelude.{
  not, ◌∙◌, ℕ, String, Option, none, some, Bool, true, false, ◌≡◌, ◌≢◌, refl, sym, ap, inl, inr,
  Option-cases, ◌!=◌, string_eq,
}
use mathlib.Core.Path.{subst}
use eauto_ai.Prelude.Assoc.{lookup}
use eauto_ai.Prelude.Result.{Result, ok, err}
use eauto_ai.Prelude.Result.Exec.{lift, throw_if, Ends, lift-Ends, bind-Ends, state_of_Ends}
use eauto_ai.Time.{due}
use eauto_ai.Outbox.{OutboxEventDraft}
use eauto_ai.Action.{
  BusinessAction, Approval, ActionStatus, proposed, reviewed, executing, executed, verified,
  uncertain, ActionError, transition_action, approval_mismatch, approval_expired,
  verification_failed, status_eq,
}
use eauto_ai.Action.Graph.{transition_action_iff}
use eauto_ai.Lifecycle.{LifecyclePayload, ReceiptDraft, World, ReceiptType, Payload}
use eauto_ai.Lifecycle.Environment.{Environment, hash_action, ask}
use eauto_ai.Lifecycle.Repository.{save}
use eauto_ai.Lifecycle.Service.{
  require_approval, require_action, lifecycle_event, receipt_draft, save_with, begin_execution,
  call_provider, confirm, doubt, run_provider, execute, catch_doubt, after_call,
}
use eauto_ai.Lifecycle.Authority.{
  books, Covers, Covers-status, IsBacked, IsAuthorised, save-IsAuthorised, approvals-save,
}
use eauto_ai.Lifecycle.Authority.Requests.{Found, require_action-Ends, end_of_state}

module _ (env : Environment) (message : ActionError → String) where
  abbrev Safe : World → Type 0
  Safe w = IsAuthorised env (books w)

  abbrev Kept : {A : Type 0} → A → World → Type 0
  Kept a w = Safe w

  -- An action under way: the stores are authorised, and an approval on file covers it.
  Approved : BusinessAction → World → Type 0
  Approved a w = (p : Approval) × (lookup a.id w.approvals ≡ some p) × Covers env a p

  abbrev Backed : BusinessAction → World → Type 0
  Backed a w = Safe w × Approved a w × (a.status ≢ proposed) × (a.status ≢ reviewed)

  -- A write of an action that is under way keeps every action under way.
  save-Backed :
      (a b : BusinessAction) (event : Option (OutboxEventDraft LifecyclePayload))
      (receipt : Option ReceiptDraft) (w : World)
      → Backed a w
      → Backed b w
      → Backed a (save env b event receipt w).1
  unfolding Approved
  save-Backed a b event receipt w (_, (p, on_file, c), n, m) (h, (q, found, d), k, l) = (
    save-IsAuthorised env b event receipt w h (λ _. rw found (refl, d, k, l)),
    (p, ap (lookup a.id) (approvals-save env b event receipt w) ∙ on_file, c),
    n,
    m,
  )

  moved-Backed :
      (a b : BusinessAction) (to : ActionStatus) (w : World)
      → Safe w
      → Approved a w
      → to ≢ proposed
      → to ≢ reviewed
      → record a { status = to } ≡ b
      → Backed b w
  unfolding Approved
  moved-Backed a b to w h (p, found, c) n m same =
      subst (λ x. Backed x w) same (h, (p, found, Covers-status env a p to c), n, m)

  move_on-Ends :
      (a : BusinessAction) (to : ActionStatus) (w : World)
      → Backed a w
      → to ≢ proposed
      → to ≢ reviewed
      → Ends (Backed a) (λ b u. Backed a u × Backed b u) (lift (transition_action a to) w)
  move_on-Ends a to w h n m =
      lift-Ends (Backed a) (λ b u. Backed a u × Backed b u) (transition_action a to) w h
        (λ b e. (h, moved-Backed a b to w h.0 h.1 n m ((transition_action_iff a b to).0 e).1))

  save_with-Backed :
      (a b : BusinessAction) (type : String) (p : Payload) (kind : ReceiptType) (q : Payload)
      (w : World)
      → Backed a w
      → Backed b w
      → Backed a (save_with env message b type p kind q w).1
  unfolding save_with lifecycle_event receipt_draft Approved
  save_with-Backed a b type p kind q w h k = save-Backed a b _ _ _ h k

  always :
      {A : Type 0} (I : World → Type 0) (e : Result ActionError A × World)
      → I e.1
      → Ends I (λ _ u. I u) e
  always I (ok x, u) h = h
  always I (err x, u) h = h

  asked-Backed :
      (a : BusinessAction) (n : ℕ) (w : World) → Backed a w → Backed a (record w { asked = n })
  unfolding Approved
  asked-Backed a n w h = h

  throw_if-keeps :
      (I : World → Type 0) (bad : Bool) (e : ActionError) (w : World)
      → I w
      → Ends I (λ _ u. I u) (throw_if bad e w)
  throw_if-keeps I true e w h = h
  throw_if-keeps I false e w h = h

  confirm-Backed :
      (b : BusinessAction) (result by : String) (w : World)
      → Backed b w
      → Ends (Backed b) (λ _ u. Backed b u) (confirm env message b result by w)
  unfolding confirm
  confirm-Backed b result by w h =
      bind-Ends (Backed b) (λ _. Backed b) (λ _. Backed b) (save_with env message b _ _ _ _) _ w
        (always (Backed b) _ (save_with-Backed b b _ _ _ _ w h h))
        (λ _ w h.
          bind-Ends (Backed b) (λ _. Backed b) (λ _. Backed b) (ask env (env.verify b)) _ w
            (always (Backed b) _ (asked-Backed b _ w h))
            (λ (seen, state) w h.
              bind-Ends (Backed b) (λ _. Backed b) (λ _. Backed b)
                (throw_if (not seen) verification_failed) _ w
                (throw_if-keeps (Backed b) (not seen) verification_failed w h)
                (λ _ w h.
                  bind-Ends (Backed b) (λ c u. Backed b u × Backed c u) (λ _. Backed b)
                    (lift (transition_action b verified)) _ w
                    (move_on-Ends b verified w h (λ e. cc) (λ e. cc))
                    (λ c w (h, k).
                      bind-Ends (Backed b) (λ _. Backed b) (λ _. Backed b)
                        (save_with env message c _ _ _ _) _ w
                        (always (Backed b) _ (save_with-Backed b c _ _ _ _ w h k)) (λ _ w h. h)))))

  doubt-Backed :
      (a : BusinessAction) (e : ActionError) (by : String) (w : World)
      → Backed a w
      → Ends (Backed a) (λ _ u. Backed a u) (doubt env message a e by w)
  unfolding doubt
  doubt-Backed a e by w h =
      bind-Ends (Backed a) (λ c u. Backed a u × Backed c u) (λ _. Backed a)
        (lift (transition_action a uncertain)) _ w
        (move_on-Ends a uncertain w h (λ e. cc) (λ e. cc))
        (λ c w (h, k).
          bind-Ends (Backed a) (λ _. Backed a) (λ _. Backed a) (save_with env message c _ _ _ _) _ w
            (always (Backed a) _ (save_with-Backed a c _ _ _ _ w h k)) (λ _ w h. h))

  catch_doubt-Backed :
      (a : BusinessAction) (by : String) (r : Result ActionError BusinessAction) (w : World)
      → Backed a w
      → Safe (catch_doubt env message a by r w).1
  catch_doubt-Backed a by (ok b) w h = h.0
  catch_doubt-Backed a by (err e) w h =
      (state_of_Ends (Backed a) (doubt env message a e by w) (doubt-Backed a e by w h)).0

  call_provider-Backed :
      (a : BusinessAction) (w : World)
      → Backed a w
      → Ends (Backed a) (λ x u. Backed x.0 u) (call_provider env message a w)
  unfolding call_provider
  call_provider-Backed a w h =
      bind-Ends (Backed a) (λ _. Backed a) (λ x. Backed x.0) (ask env (env.execute a)) _ w
        (always (Backed a) _ (asked-Backed a _ w h))
        (λ result w h.
          bind-Ends (Backed a) (λ c u. Backed a u × Backed c u) (λ x. Backed x.0)
            (lift (transition_action a executed)) _ w
            (move_on-Ends a executed w h (λ e. cc) (λ e. cc)) (λ c w (h, k). k))

  after_call-Safe :
      (a : BusinessAction) (by : String) (e : Result ActionError (BusinessAction × String) × World)
      → Ends (Backed a) (λ x u. Backed x.0 u) e
      → Safe (after_call env message a by e.0 e.1).1
  after_call-Safe a by (err e, w) h =
      (state_of_Ends (Backed a) (doubt env message a e by w) (doubt-Backed a e by w h)).0
  after_call-Safe a by (ok (done, result), w) h =
      let tried = confirm env message done result by w in
      catch_doubt-Backed done by tried.0 tried.1
        (state_of_Ends (Backed done) tried (confirm-Backed done result by w h))

  run_provider-Safe :
      (a : BusinessAction) (by : String) (w : World)
      → Backed a w
      → Safe (run_provider env message a by w).1
  unfolding run_provider
  run_provider-Safe a by w h =
      after_call-Safe a by (call_provider env message a w) (call_provider-Backed a w h)

  -- What `execute` has before it looks the approval up, and after it.
  IsCovered-of_backed :
      (a : BusinessAction) (id : String) (p : Approval)
      → IsBacked env id (some a) (some p)
      → Covers env a p
  IsCovered-of_backed a id p h = h.1

  require_approval-Ends :
      (id : String) (a : BusinessAction) (w : World)
      → Found env message id a w
      → Ends Safe (λ p u. Safe u × Approved a u) (lift (require_approval (lookup id w.approvals)) w)
  unfolding Found Approved
  require_approval-Ends id a w (h, own, found) = elim (Option-cases (lookup id w.approvals)) [
    | inl missing ↦ rw missing h
    | inr (p, there) ↦ rw there (
      h,
      (
        p,
        subst (λ k. lookup k w.approvals ≡ some p) (sym own) there,
        IsCovered-of_backed a id p (rw (found, there) at (h.backed id)),
      ),
    )
  ]

  throw_if-both :
      (I J : World → Type 0) (bad : Bool) (e : ActionError) (w : World)
      → I w
      → J w
      → Ends I (λ _ u. J u) (throw_if bad e w)
  throw_if-both I J true e w h k = h
  throw_if-both I J false e w h k = k

  end_Backed :
      {A : Type 0} (b : BusinessAction) (e : Result ActionError A × World)
      → Backed b e.1
      → Ends Safe (λ _ u. Backed b u) e
  end_Backed b (ok x, u) h = h
  end_Backed b (err x, u) h = h.0

  begin_execution-Backed :
      (id by : String) (w : World) → Safe w → Ends Safe Backed (begin_execution env message id by w)
  unfolding begin_execution lifecycle_event Approved
  begin_execution-Backed id by w h =
      bind-Ends Safe (Found env message id) Backed (require_action id) _ w
        (require_action-Ends env message id w h)
        (λ a w f.
          bind-Ends Safe (λ _ u. Safe u × Approved a u) Backed
            (λ w. (require_approval (lookup id w.approvals), w)) _ w
            (require_approval-Ends id a w f)
            (λ p w h.
              bind-Ends Safe (λ _ u. Safe u × Approved a u) Backed
                (throw_if (p.action_hash != hash_action env a) approval_mismatch) _ w
                (throw_if-both Safe (λ u. Safe u × Approved a u) _ _ _ h.0 h)
                (λ _ w h.
                  bind-Ends Safe (λ _ u. Safe u × Approved a u) Backed
                    (throw_if (due p.expires_at (env.clock w.asked)) approval_expired) _ _
                    (throw_if-both Safe (λ u. Safe u × Approved a u) _ _ _ h.0 h)
                    (λ _ w h.
                      bind-Ends Safe Backed Backed (lift (transition_action a executing)) _ w
                        (lift-Ends Safe Backed (transition_action a executing) w h.0 (λ b e.
                          moved-Backed a b executing w h.0 h.1 (λ e. cc) (λ e. cc)
                            ((transition_action_iff a b executing).0 e).1))
                        (λ b w h.
                          bind-Ends Safe (λ _. Backed b) Backed (save env b _ none) _ _
                            (end_Backed b _ (save-Backed b b _ _ _ h h)) (λ _ w h. h))))))

  pub execute-Safe : (id by : String) (w : World) → Safe w → Safe (execute env message id by w).1
  unfolding execute
  execute-Safe id by w h = state_of_Ends Safe (execute env message id by w) (
      bind-Ends Safe Backed Kept (begin_execution env message id by) _ w
        (begin_execution-Backed id by w h)
        (λ a u k. end_of_state env message _ (run_provider-Safe a by u k)))
