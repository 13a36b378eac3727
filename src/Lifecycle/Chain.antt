-- ===== src/Lifecycle/Chain.antt =====
-- The receipts of each action form one chain of hashes.
use eauto_ai.Prelude.{
  String, Option, none, some, List, [], ◌∷◌, ◌++◌, any, last, ◌==◌, string_eq, if◌then◌else◌, ◌≡◌,
  refl, sym, ap, ◌∙◌, inl, inr, Bool-cases, eq_of_==,
}
use mathlib.Core.Path.{subst}
use eauto_ai.Prelude.Result.{ok, ok-injective, err-ne-ok, Result-cases}
use eauto_ai.Prelude.Result.Exec.{◌>>=◌, >>=-keeps}
use eauto_ai.Action.{BusinessAction, Approval}
use eauto_ai.Outbox.{OutboxEventDraft}
use eauto_ai.Lifecycle.{ReceiptDraft, VerifiableReceipt, LifecyclePayload, World}
use eauto_ai.Lifecycle.Environment.{Environment}
use eauto_ai.Lifecycle.Receipts.{
  create_receipt, same_hash, list_for_action, append, chain_hash_of, append_receipt,
}
use eauto_ai.Prelude.Assoc.{lookup}
use eauto_ai.Lifecycle.Repository.{
  check_save, check_approval, put_action, put_approval, write_receipt, write_event, save,
  save_approval,
}
use eauto_ai.Lifecycle.Guards.{Write, saves, approves, write, write_all}

module _ (env : Environment) where
  -- Each receipt is the one that `createReceipt` makes from its content and the hash before it.
  abbrev pub Chain : Option String → List VerifiableReceipt → Type 0
  Chain previous [] = Unit
  Chain previous (r ∷ rs) = (create_receipt env r.draft previous ≡ r) × Chain (some r.chain_hash) rs

  pub record IsChained (receipts : List VerifiableReceipt) : Type 0 where
    pub chained : (action_id : String) → Chain none (list_for_action action_id receipts)

  abbrev ending : Option String → List VerifiableReceipt → Option String
  ending previous [] = previous
  ending previous (r ∷ rs) = ending (some r.chain_hash) rs

  ending-cons :
      (r : VerifiableReceipt) (rs : List VerifiableReceipt)
      → ending (some r.chain_hash) rs ≡ chain_hash_of (last (r ∷ rs))
  ending-cons r [] = refl
  ending-cons r (s ∷ rs) = ending-cons s rs

  ending-none : (rs : List VerifiableReceipt) → ending none rs ≡ chain_hash_of (last rs)
  ending-none [] = refl
  ending-none (r ∷ rs) = ending-cons r rs

  Chain-append :
      (previous : Option String) (rs : List VerifiableReceipt) (r : VerifiableReceipt)
      → Chain previous rs
      → create_receipt env r.draft (ending previous rs) ≡ r
      → Chain previous (rs ++ r ∷ [])
  Chain-append previous [] r h e = (e, tt)
  Chain-append previous (s ∷ rs) r (h, hs) e = (h, Chain-append (some s.chain_hash) rs r hs e)

  list_for_action-append :
      (id : String) (rs : List VerifiableReceipt) (r : VerifiableReceipt)
      → list_for_action id (rs ++ r ∷ [])
        ≡ (if r.action_id == id then list_for_action id rs ++ r ∷ [] else list_for_action id rs)
  unfolding list_for_action
  list_for_action-append id [] r = elim (Bool-cases (r.action_id == id)) [
    | inl e ↦ rw e refl
    | inr e ↦ rw e refl
  ]
  list_for_action-append id (s ∷ rs) r = elim (Bool-cases (s.action_id == id)) [
    | inl e ↦ elim (Bool-cases (r.action_id == id)) [
      | inl f ↦ rw (e, f) (ap (λ l. s ∷ l) (rw f at (list_for_action-append id rs r)))
      | inr f ↦ rw (e, f) (ap (λ l. s ∷ l) (rw f at (list_for_action-append id rs r)))
    ]
    | inr e ↦ rw e (list_for_action-append id rs r)
  ]

  append-ok :
      (r : VerifiableReceipt) (rs rs' : List VerifiableReceipt)
      → append r rs ≡ ok rs'
      → rs ++ r ∷ [] ≡ rs'
  unfolding append
  append-ok r rs rs' h =
      elim (Bool-cases (
        any (λ x. same_hash x.previous_receipt_hash r.previous_receipt_hash)
          (list_for_action r.action_id rs))) [
            | inl taken ↦ absurd (err-ne-ok _ rs' (rw taken at h))
            | inr free ↦ ok-injective _ rs' (rw free at h)
          ]

  created_again :
      (draft : ReceiptDraft) (previous : Option String)
      → create_receipt env (create_receipt env draft previous).draft previous
        ≡ create_receipt env draft previous
  unfolding create_receipt
  created_again draft previous = refl

  created_for :
      (draft : ReceiptDraft) (previous : Option String)
      → (create_receipt env draft previous).action_id ≡ draft.action_id
  unfolding create_receipt
  created_for draft previous = refl

  extend :
      (draft : ReceiptDraft) (rs : List VerifiableReceipt)
      → IsChained rs
      → IsChained (
          rs
          ++ create_receipt env draft (chain_hash_of (last (list_for_action draft.action_id rs)))
            ∷ [])
  extend draft rs h = record {
    chained = λ id.
        let r =
          create_receipt env draft (chain_hash_of (last (list_for_action draft.action_id rs))) in
        let next : create_receipt env r.draft (ending none (list_for_action draft.action_id rs))
            ≡ r =
          rw (ending-none (list_for_action draft.action_id rs)) (created_again draft _) in
        let own : r.action_id ≡ draft.action_id = created_for draft _ in
        elim (Bool-cases (r.action_id == id)) [
          | inl same ↦
              let at_id : draft.action_id ≡ id = sym own ∙ eq_of_== same in
              rw (list_for_action-append id rs r, same)
                (Chain-append none (list_for_action id rs) r (h.chained id) (
                  subst (λ k. create_receipt env r.draft (ending none (list_for_action k rs)) ≡ r)
                    at_id next))
          | inr other ↦ rw (list_for_action-append id rs r, other) (h.chained id)
        ];
  }

  append_receipt-IsChained :
      (draft : ReceiptDraft) (rs rs' : List VerifiableReceipt)
      → append_receipt env draft rs ≡ ok rs'
      → IsChained rs
      → IsChained rs'
  unfolding append_receipt
  append_receipt-IsChained draft rs rs' h k =
      subst IsChained (append-ok _ rs rs' h) (extend draft rs k)

  write_receipt-IsChained :
      (draft : Option ReceiptDraft) (w : World)
      → IsChained w.receipts
      → IsChained (write_receipt env draft w).1.receipts
  unfolding write_receipt
  write_receipt-IsChained none w h = h
  write_receipt-IsChained (some draft) w h =
      elim (Result-cases (append_receipt env draft w.receipts)) [
        | inl (rs, done) ↦ rw done (append_receipt-IsChained draft w.receipts rs done h)
        | inr (e, refused) ↦ rw refused h
      ]

  write_event-IsChained :
      (event : Option (OutboxEventDraft LifecyclePayload)) (w : World)
      → IsChained w.receipts
      → IsChained (write_event env event w).1.receipts
  unfolding write_event
  write_event-IsChained none w h = h
  write_event-IsChained (some event) w h = h

  abbrev K : World → Type 0
  K w = IsChained w.receipts

  tail-IsChained :
      (event : Option (OutboxEventDraft LifecyclePayload)) (receipt : Option ReceiptDraft)
      (w : World)
      → K w
      → K ((write_receipt env receipt >>= λ _. write_event env event) w).1
  tail-IsChained event receipt w h =
      >>=-keeps K (write_receipt env receipt) (λ _. write_event env event)
        (λ u k. write_receipt-IsChained receipt u k) (λ _ u k. write_event-IsChained event u k) w h

  save-IsChained :
      (a : BusinessAction) (event : Option (OutboxEventDraft LifecyclePayload))
      (receipt : Option ReceiptDraft) (w : World)
      → K w
      → K (save env a event receipt w).1
  unfolding save
  save-IsChained a event receipt w h = elim (Result-cases (check_save a (lookup a.id w.actions))) [
    | inl (_, passed) ↦ rw passed (tail-IsChained event receipt (put_action a w) h)
    | inr (_, refused) ↦ rw refused h
  ]

  save_approval-IsChained :
      (p : Approval) (a : BusinessAction) (event : Option (OutboxEventDraft LifecyclePayload))
      (receipt : Option ReceiptDraft) (w : World)
      → K w
      → K (save_approval env p a event receipt w).1
  unfolding save_approval
  save_approval-IsChained p a event receipt w h = elim (Result-cases (check_approval p a w.store)) [
    | inl (_, passed) ↦ rw passed (tail-IsChained event receipt (put_action a (put_approval p w)) h)
    | inr (_, refused) ↦ rw refused h
  ]

  write-IsChained : (x : Write) (w : World) → K w → K (write env w x)
  unfolding write
  write-IsChained (saves a event receipt) w h = save-IsChained a event receipt w h
  write-IsChained (approves p a event receipt) w h = save_approval-IsChained p a event receipt w h

  -- Whatever writes are made in whatever order, the receipts of each action stay one chain, from the
  -- root on: each is the receipt that `createReceipt` makes from its content and the chain hash of
  -- the receipt before it.
  pub write_all-IsChained :
      (xs : List Write) (w : World) → IsChained w.receipts → IsChained (write_all env w xs).receipts
  unfolding write_all
  write_all-IsChained [] w h = h
  write_all-IsChained (x ∷ xs) w h = write_all-IsChained xs (write env w x) (write-IsChained x w h)
