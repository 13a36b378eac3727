-- ===== src/Lifecycle/Authority.antt =====
-- No action goes beyond `approved` without an approval of exactly its content: what the stores hold
-- of an action, and the writes that keep it.
pub mod Requests
pub mod Execution
pub mod Served
use eauto_ai.Prelude.{
  ℕ, String, Option, none, some, Bool, true, false, ◌≡◌, ◌≢◌, refl, sym, ap, ◌⊎◌, inl, inr, arith,
  Bool-cases, eq_of_==, ◌==◌, string_eq, if◌then◌else◌,
}
use mathlib.Core.Path.{subst}
use eauto_ai.Prelude.Assoc.{Assoc, lookup, set, lookup-set}
use eauto_ai.Prelude.Result.{Result, ok, err, Result-cases}
use eauto_ai.Prelude.Result.Exec.{Exec, ◌>>=◌, >>=-keeps}
use eauto_ai.Action.{
  BusinessAction, Approval, ActionStatus, proposed, reviewed, approved, ActionError,
}
use eauto_ai.Outbox.{OutboxEventDraft}
use eauto_ai.Lifecycle.{LifecyclePayload, ReceiptDraft, World}
use eauto_ai.Lifecycle.Environment.{Environment, hash_action}
use eauto_ai.Lifecycle.Repository.{
  save, save_approval, check_save, check_approval, put_action, put_approval, write_receipt,
  write_event,
}

-- The two maps of the repository.
pub record Books : Type 0 where
  pub actions : Assoc BusinessAction
  pub approvals : Assoc Approval

abbrev pub books : World → Books
books w = record { actions = w.actions; approvals = w.approvals }

-- The approval on file is for this content and this expiry date.
pub record Covers (env : Environment) (a : BusinessAction) (p : Approval) : Type 0 where
  pub of_action : p.action_id ≡ a.id
  pub of_content : p.action_hash ≡ hash_action env a
  pub same_expiry : p.expires_at ≡ a.expires_at

-- What is stored under one id: an action on which no one decided has no approval on file, and any
-- other has one that covers it.
abbrev pub IsBacked : Environment → String → Option BusinessAction → Option Approval → Type 0
IsBacked env id none none = Unit
IsBacked env id none (some p) = ⊥
IsBacked env id (some a) none = (a.id ≡ id) × ((a.status ≡ proposed) ⊎ (a.status ≡ reviewed))
IsBacked env id (some a) (some p) =
    (a.id ≡ id) × Covers env a p × (a.status ≢ proposed) × (a.status ≢ reviewed)

pub record IsAuthorised (env : Environment) (b : Books) : Type 0 where
  pub backed : (id : String) → IsBacked env id (lookup id b.actions) (lookup id b.approvals)

-- The hash leaves the status out, so an approval covers an action in every state.
pub Covers-status :
    (env : Environment) (a : BusinessAction) (p : Approval) (t : ActionStatus)
    → Covers env a p
    → Covers env (record a { status = t }) p
unfolding hash_action
Covers-status env a p t c = record {
  of_action = c.of_action;
  of_content = c.of_content;
  same_expiry = c.same_expiry;
}

module _ (env : Environment) where
  books-write_tail :
      (event : Option (OutboxEventDraft LifecyclePayload)) (receipt : Option ReceiptDraft)
      (w : World)
      → books ((write_receipt env receipt >>= λ _. write_event env event) w).1 ≡ books w
  books-write_tail event receipt w =
      >>=-keeps (λ u. books u ≡ books w) (write_receipt env receipt) (λ _. write_event env event)
        (λ u h. unfold write_receipt in ground arith) (λ _ u h. unfold write_event in ground arith)
        w refl

  put_action-IsAuthorised :
      (a : BusinessAction) (b : Books)
      → IsAuthorised env b
      → IsBacked env a.id (some a) (lookup a.id b.approvals)
      → IsAuthorised env (record b { actions = set a.id a b.actions })
  put_action-IsAuthorised a b h new = record {
    backed = λ id. elim (Bool-cases (a.id == id)) [
      | inl same ↦
          rw (lookup-set a.id id a b.actions, same)
            (subst (λ k. IsBacked env k (some a) (lookup k b.approvals)) (eq_of_== same) new)
      | inr other ↦ rw (lookup-set a.id id a b.actions, other) (h.backed id)
    ];
  }

  -- `save` keeps the invariant if what it writes is backed; and it changes no approval.
  pub save-IsAuthorised :
      (a : BusinessAction) (event : Option (OutboxEventDraft LifecyclePayload))
      (receipt : Option ReceiptDraft) (w : World)
      → IsAuthorised env (books w)
      → (check_save a (lookup a.id w.actions) ≡ ok tt
          → IsBacked env a.id (some a) (lookup a.id w.approvals))
      → IsAuthorised env (books (save env a event receipt w).1)
  unfolding save
  save-IsAuthorised a event receipt w h new =
      elim (Result-cases (check_save a (lookup a.id w.actions))) [
        | inl (_, passed) ↦
            rw (passed, books-write_tail event receipt (put_action a w))
              (put_action-IsAuthorised a (books w) h (new passed))
        | inr (_, refused) ↦ rw refused h
      ]

  pub approvals-save :
      (a : BusinessAction) (event : Option (OutboxEventDraft LifecyclePayload))
      (receipt : Option ReceiptDraft) (w : World)
      → (save env a event receipt w).1.approvals ≡ w.approvals
  unfolding save
  approvals-save a event receipt w = elim (Result-cases (check_save a (lookup a.id w.actions))) [
    | inl (_, passed) ↦
        rw passed (ap (λ b. b.approvals) (books-write_tail event receipt (put_action a w)))
    | inr (_, refused) ↦ rw refused
  ]

  put_approval-IsAuthorised :
      (p : Approval) (a : BusinessAction) (b : Books)
      → IsAuthorised env b
      → Covers env a p
      → a.status ≡ approved
      → IsAuthorised env
          (record { actions = set a.id a b.actions; approvals = set p.action_id p b.approvals })
  put_approval-IsAuthorised p a b h c s = record {
    backed = λ id.
        let tested : (v : Bool) → (a.id == id) ≡ v → (p.action_id == id) ≡ v =
          λ v e. subst (λ k. (k == id) ≡ v) (sym c.of_action) e in
        elim (Bool-cases (a.id == id)) [
          | inl same ↦
              rw
                (
                  lookup-set a.id id a b.actions,
                  same,
                  lookup-set p.action_id id p b.approvals,
                  tested true same,
                )
                (eq_of_== same, c, (λ e. cc), (λ e. cc))
          | inr other ↦
              rw
                (
                  lookup-set a.id id a b.actions,
                  other,
                  lookup-set p.action_id id p b.approvals,
                  tested false other,
                )
                (h.backed id)
        ];
  }

  -- `saveApproval` puts an approval and its action on file together.
  pub save_approval-IsAuthorised :
      (p : Approval) (a : BusinessAction) (event : Option (OutboxEventDraft LifecyclePayload))
      (receipt : Option ReceiptDraft) (w : World)
      → IsAuthorised env (books w)
      → Covers env a p
      → a.status ≡ approved
      → IsAuthorised env (books (save_approval env p a event receipt w).1)
  unfolding save_approval
  save_approval-IsAuthorised p a event receipt w h c s =
      elim (Result-cases (check_approval p a w.store)) [
        | inl (_, passed) ↦
            rw (passed, books-write_tail event receipt (put_action a (put_approval p w)))
              (put_approval-IsAuthorised p a (books w) h c s)
        | inr (_, refused) ↦ rw refused h
      ]
