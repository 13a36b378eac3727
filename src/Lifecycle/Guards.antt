-- ===== src/Lifecycle/Guards.antt =====
-- The guards of the repository: its own table against the diagram of the domain, and any writes in
-- any order, as concurrent requests make them.
use eauto_ai.Prelude.{
  String, Option, none, some, Bool, true, false, ◌≡◌, ◌≢◌, ◌↔◌, inl, inr, refl, ◌∙◌, List, [], ◌∷◌,
  All, includes, ◌==◌, string_eq, if◌then◌else◌, eq_iff, arith, Bool-cases, Option-cases, eq_of_==,
  eq_of_not_!=, ◌||◌, not, ◌!=◌,
}
use mathlib.Core.Path.{subst}
use eauto_ai.Prelude.Assoc.{lookup, set, lookup-set}
use eauto_ai.Prelude.Result.{ok, err, err-ne-ok, Result-cases}
use eauto_ai.Prelude.Result.Exec.{◌>>=◌, >>=-keeps}
use eauto_ai.Action.{
  BusinessAction, Approval, ActionStatus, proposed, reviewed, approved, status_eq, ActionError,
}
use eauto_ai.Action.Graph.{
  ◌⟶◌, ◌⟶*◌, propose, review, approve, start, finish, verify, fail_running, fail_done,
  doubt_running, doubt_done, reject_proposed, reject_reviewed, expire_proposed, expire_reviewed,
  expire_approved, here, next, edges, ⟶*-trans,
}
use eauto_ai.Outbox.{OutboxEventDraft}
use eauto_ai.Lifecycle.{LifecyclePayload, ReceiptDraft, World}
use eauto_ai.Lifecycle.Environment.{Environment}
use eauto_ai.Lifecycle.Repository.{
  allowed, check_save, check_reviewed, check_approval, put_action, put_approval, write_receipt,
  write_event, save, save_approval,
}

allowed_sound : (s t : ActionStatus) → includes (allowed t) s ≡ true → s ⟶ t
allowed_sound s t h = grind (arith, edges)

allowed_complete : {s t : ActionStatus} → s ⟶ t → t ≢ proposed → includes (allowed t) s ≡ true
allowed_complete propose h = absurd (h refl)
allowed_complete review h = refl
allowed_complete approve h = refl
allowed_complete start h = refl
allowed_complete finish h = refl
allowed_complete verify h = refl
allowed_complete fail_running h = refl
allowed_complete fail_done h = refl
allowed_complete doubt_running h = refl
allowed_complete doubt_done h = refl
allowed_complete reject_proposed h = refl
allowed_complete reject_reviewed h = refl
allowed_complete expire_proposed h = refl
allowed_complete expire_reviewed h = refl
allowed_complete expire_approved h = refl

-- The table that the repository keeps allows exactly the transitions of the domain, but for the
-- first one: a proposed action is new to it.
pub allowed_iff : (s t : ActionStatus) → t ≢ proposed → (includes (allowed t) s ≡ true) ↔ (s ⟶ t)
allowed_iff s t h = (allowed_sound s t, λ e. allowed_complete e h)

-- What one write may do to the action stored under an id, `Q` being what an approval hands over.
pub data Moves (Q : BusinessAction → Type 0)
    : Option BusinessAction → Option BusinessAction → Type 0 where
  stays : {o : Option BusinessAction} → Moves Q o o
  appears : {a : BusinessAction} → a.status ≡ proposed → Moves Q none (some a)
  steps :
      {a b : BusinessAction}
      → a.status ⟶ b.status
      → a.account_id ≡ b.account_id
      → Moves Q (some a) (some b)
  approved_over :
      {a b : BusinessAction}
      → a.status ≡ reviewed
      → Q b
      → a.account_id ≡ b.account_id
      → Moves Q (some a) (some b)

pub guards_passed :
    (fresh foreign listed : Bool) (e e' e'' : ActionError)
    → (if fresh then err e else if foreign then err e' else if not listed then err e'' else ok tt)
      ≡ ok (tt {0})
    → (foreign ≡ false) × (listed ≡ true)
guards_passed fresh foreign listed e e' e'' h = ground arith

check_save-Moves :
    (Q : BusinessAction → Type 0) (b : BusinessAction) (o : Option BusinessAction)
    → check_save b o ≡ ok tt
    → Moves Q o (some b)
unfolding check_save
check_save-Moves Q b none h = elim (Bool-cases (b.status == proposed)) [
  | inl e ↦ appears (eq_of_== e)
  | inr e ↦ absurd (err-ne-ok _ tt (rw e at h))
]
check_save-Moves Q b (some a) h =
    let (same, listed) =
      guards_passed (b.status == proposed) (a.account_id != b.account_id)
        (includes (allowed b.status) a.status) _ _ _ h in
    steps (allowed_sound a.status b.status listed)
      (ground (arith, eq_iff a.account_id b.account_id))

pub reviewed_passed :
    (foreign unready : Bool) (e : ActionError)
    → (if foreign || unready then err e else ok tt) ≡ ok (tt {0})
    → (foreign ≡ false) × (unready ≡ false)
reviewed_passed foreign unready e h = ground arith

check_reviewed-Moves :
    {Q : BusinessAction → Type 0} (b : BusinessAction) (o : Option BusinessAction)
    → Q b
    → check_reviewed b o ≡ ok tt
    → Moves Q o (some b)
unfolding check_reviewed
check_reviewed-Moves b none q h = cc
check_reviewed-Moves b (some a) q h =
    let (same, ready) = reviewed_passed (a.account_id != b.account_id) (a.status != reviewed) _ h in
    approved_over (eq_of_not_!= ready) q (eq_of_not_!= same)

check_approval-Moves :
    {Q : BusinessAction → Type 0} (p : Approval) (b : BusinessAction) (w : World)
    → Q b
    → check_approval p b w.store ≡ ok tt
    → Moves Q (lookup b.id w.actions) (some b)
unfolding check_approval
check_approval-Moves p b w q h = elim (Option-cases (lookup p.action_id w.approvals)) [
  | inl new ↦ check_reviewed-Moves b (lookup b.id w.actions) q (rw (new, check_approval) at h)
  | inr (earlier, taken) ↦ absurd (err-ne-ok _ tt (rw (taken, check_approval) at h))
]

-- A write of the repository, with all that the caller hands it.
pub data Write : Type 0 where
  saves : BusinessAction → Option (OutboxEventDraft LifecyclePayload) → Option ReceiptDraft → Write
  approves :
      Approval
      → BusinessAction
      → Option (OutboxEventDraft LifecyclePayload)
      → Option ReceiptDraft
      → Write

-- What an approval of the write hands over.
abbrev pub Handed : Write → BusinessAction → Type 0
Handed (saves a event receipt) b = ⊥
Handed (approves p a event receipt) b = a ≡ b

-- An approval hands over an approved action, as `approve` of the service does.
abbrev pub IsProper : Write → Type 0
IsProper (saves a event receipt) = Unit
IsProper (approves p a event receipt) = a.status ≡ approved

Handed-approved : (x : Write) (b : BusinessAction) → IsProper x → Handed x b → b.status ≡ approved
Handed-approved (saves a event receipt) b h k = absurd k
Handed-approved (approves p a event receipt) b h k = subst (λ c. c.status ≡ approved) k h

module _ (env : Environment) where
  unfoldable pub write : World → Write → World
  write w (saves a event receipt) = (save env a event receipt w).1
  write w (approves p a event receipt) = (save_approval env p a event receipt w).1

  pub actions-write_tail :
      (event : Option (OutboxEventDraft LifecyclePayload)) (receipt : Option ReceiptDraft)
      (w : World)
      → ((write_receipt env receipt >>= λ _. write_event env event) w).1.actions ≡ w.actions
  actions-write_tail event receipt w =
      >>=-keeps (λ u. u.actions ≡ w.actions) (write_receipt env receipt)
        (λ _. write_event env event) (λ u h. unfold write_receipt in ground arith)
        (λ _ u h. unfold write_event in ground arith) w refl

  put-Moves :
      {Q : BusinessAction → Type 0} (a : BusinessAction) (w : World) (id : String)
      → Moves Q (lookup a.id w.actions) (some a)
      → Moves Q (lookup id w.actions) (lookup id (set a.id a w.actions))
  put-Moves {Q} a w id m = elim (Bool-cases (a.id == id)) [
    | inl same ↦
        rw (lookup-set a.id id a w.actions, same)
          (subst (λ k. Moves Q (lookup k w.actions) (some a)) (eq_of_== same) m)
    | inr other ↦ rw (lookup-set a.id id a w.actions, other) stays
  ]

  save-Moves :
      (Q : BusinessAction → Type 0) (a : BusinessAction)
      (event : Option (OutboxEventDraft LifecyclePayload)) (receipt : Option ReceiptDraft)
      (w : World) (id : String)
      → Moves Q (lookup id w.actions) (lookup id (save env a event receipt w).1.actions)
  unfolding save
  save-Moves Q a event receipt w id = elim (Result-cases (check_save a (lookup a.id w.actions))) [
    | inl (_, passed) ↦
        rw (passed, actions-write_tail event receipt (put_action a w))
          (put-Moves a w id (check_save-Moves Q a (lookup a.id w.actions) passed))
    | inr (_, refused) ↦ rw refused stays
  ]

  save_approval-Moves :
      (p : Approval) (a : BusinessAction) (event : Option (OutboxEventDraft LifecyclePayload))
      (receipt : Option ReceiptDraft) (w : World) (id : String)
      → Moves
          (λ b. a ≡ b)
          (lookup id w.actions)
          (lookup id (save_approval env p a event receipt w).1.actions)
  unfolding save_approval
  save_approval-Moves p a event receipt w id = elim (Result-cases (check_approval p a w.store)) [
    | inl (_, passed) ↦
        rw (passed, actions-write_tail event receipt (put_action a (put_approval p w)))
          (put-Moves a w id (check_approval-Moves p a w refl passed))
    | inr (_, refused) ↦ rw refused stays
  ]

  pub write-Moves :
      (w : World) (x : Write) (id : String)
      → Moves (Handed x) (lookup id w.actions) (lookup id (write w x).actions)
  unfolding write
  write-Moves w (saves a event receipt) id = save-Moves _ a event receipt w id
  write-Moves w (approves p a event receipt) id = save_approval-Moves p a event receipt w id

  unfoldable pub write_all : World → List Write → World
  write_all w [] = w
  write_all w (x ∷ xs) = write_all (write w x) xs

  Moves-from_some :
      (Q : BusinessAction → Type 0) {a : BusinessAction} {o : Option BusinessAction}
      → ((b : BusinessAction) → Q b → b.status ≡ approved)
      → Moves Q (some a) o
      → (b : BusinessAction) × (o ≡ some b) × (a.status ⟶* b.status) × (a.account_id ≡ b.account_id)
  Moves-from_some Q {a} proper stays = (a, refl, here, refl)
  Moves-from_some Q proper (steps e same) = (_, refl, next e here, same)
  Moves-from_some Q proper (approved_over {b = b} ready q same) =
      (b, refl, rw (ready, proper b q) (next approve here), same)

  -- Whatever writes are made in whatever order, if each approval among them hands over an action of
  -- status approved, an action that is stored stays stored, under its account, and its status has
  -- gone a path of the diagram.
  pub write_all-path :
      (w : World) (xs : List Write) (id : String) (a : BusinessAction)
      → All IsProper xs
      → lookup id w.actions ≡ some a
      → (b : BusinessAction) × (lookup id (write_all w xs).actions ≡ some b)
        × (a.status ⟶* b.status)
        × (a.account_id ≡ b.account_id)
  unfolding write_all
  write_all-path w [] id a _ h = (a, h, here, refl)
  write_all-path w (x ∷ xs) id a (proper, rest) h =
      let (b, h', p, same) =
        Moves-from_some (Handed x) (λ b k. Handed-approved x b proper k)
          (rw h at (write-Moves w x id)) in
      let (c, h'', q, same') = write_all-path (write w x) xs id b rest h' in
      (c, h'', ⟶*-trans p q, same ∙ same')
