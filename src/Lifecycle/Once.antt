-- ===== src/Lifecycle/Once.antt =====
-- An action starts at most once. `execute` calls the provider only after its write of the status
-- `executing` returned, so this bounds the calls of the provider under any interleaving of requests.
use eauto_ai.Prelude.{
  ℕ, ◌+◌, ◌≤◌, String, Option, none, some, Bool, true, false, ◌≡◌, refl, sym, List, [], ◌∷◌,
  includes, ◌==◌, ◌!=◌, ◌&&◌, string_eq, if◌then◌else◌, arith, Bool-cases, inl, inr, eq_of_==,
  eq_of_not_!=, Option-cases,
}
use mathlib.Core.Path.{subst}
use mathlib.Core.Bool.{false≢true, and-eq-true_iff}
use eauto_ai.Prelude.Assoc.{lookup, lookup-set_self}
use eauto_ai.Prelude.Result.{Result, ok, err, err-ne-ok, Result-cases}
use eauto_ai.Action.{
  BusinessAction, Approval, ActionStatus, draft, proposed, reviewed, approved, executing, status_eq,
}
use eauto_ai.Action.Graph.{◌⟶◌}
use eauto_ai.Lifecycle.{LifecyclePayload, ReceiptDraft, World}
use eauto_ai.Outbox.{OutboxEventDraft}
use eauto_ai.Lifecycle.Environment.{Environment}
use eauto_ai.Lifecycle.Repository.{
  allowed, check_save, check_reviewed, check_approval, put_action, put_approval, save,
  save_approval,
}
use eauto_ai.Lifecycle.Guards.{
  Write, saves, approves, write, Moves, stays, appears, steps, write-Moves, actions-write_tail,
  guards_passed, reviewed_passed, approved_over,
}

abbrev pub returned {ℓ κ} : {E : Type ℓ} {A : Type κ} → Result E A → Bool
returned (ok a) = true
returned (err e) = false

abbrev pub unstarted : ActionStatus → ℕ
unstarted draft = 1
unstarted proposed = 1
unstarted reviewed = 1
unstarted approved = 1
unstarted _ = 0

-- How often the action may still start.
abbrev left : Option BusinessAction → ℕ
left none = 1
left (some a) = unstarted a.status

left-le-one : (o : Option BusinessAction) → left o ≤ 1
left-le-one none = omega arith
left-le-one (some a) = ground arith

unstarted-⟶ : {s t : ActionStatus} → s ⟶ t → unstarted t ≤ unstarted s
unstarted-⟶ e = grind arith

left-Moves :
    {Q : BusinessAction → Type 0} {o p : Option BusinessAction} → Moves Q o p → left p ≤ left o
left-Moves stays = omega arith
left-Moves (appears e) = rw e (omega arith)
left-Moves (steps e same) = unstarted-⟶ e
left-Moves (approved_over {b = b} ready q same) = rw ready (left-le-one (some b))

executing_from : (s : ActionStatus) → includes (allowed executing) s ≡ true → unstarted s ≡ 1
executing_from s h = ground arith

reviewed-left :
    (b : BusinessAction) (o : Option BusinessAction) → check_reviewed b o ≡ ok tt → left o ≡ 1
unfolding check_reviewed
reviewed-left b none h = cc
reviewed-left b (some a) h =
    let (_, ready) = reviewed_passed (a.account_id != b.account_id) (a.status != reviewed) _ h in
    subst (λ t. unstarted t ≡ 1) {x = reviewed} (sym (eq_of_not_!= ready)) refl

module _ (env : Environment) where
  -- Whether a write is one that starts the action `id`.
  unfoldable pub is_start : String → World → Write → Bool
  is_start id w (saves a event receipt) =
      a.id == id && (a.status == executing && returned (save env a event receipt w).0)
  is_start id w (approves p a event receipt) =
      a.id == id && (a.status == executing && returned (save_approval env p a event receipt w).0)

  unfoldable pub count_starts : String → World → List Write → ℕ
  count_starts id w [] = 0
  count_starts id w (x ∷ xs) =
      (if is_start id w x then 1 else 0) + count_starts id (write env w x) xs

  check_save-left :
      (a : BusinessAction) (o : Option BusinessAction)
      → a.status ≡ executing
      → check_save a o ≡ ok tt
      → left o ≡ 1
  unfolding check_save
  check_save-left a none run h = refl
  check_save-left a (some b) run h =
      let (_, listed) =
        guards_passed (a.status == proposed) (b.account_id != a.account_id)
          (includes (allowed a.status) b.status) _ _ _ h in
      executing_from b.status (subst (λ s. includes (allowed s) b.status ≡ true) run listed)

  check_approval-left :
      (p : Approval) (a : BusinessAction) (w : World)
      → check_approval p a w.store ≡ ok tt
      → left (lookup a.id w.actions) ≡ 1
  unfolding check_approval check_reviewed
  check_approval-left p a w h = elim (Option-cases (lookup p.action_id w.approvals)) [
    | inr (earlier, taken) ↦ absurd (err-ne-ok _ tt (rw (taken, check_approval) at h))
    | inl new ↦ reviewed-left a (lookup a.id w.actions) (rw (new, check_approval) at h)
  ]

  save-starts :
      (a : BusinessAction) (event : Option (OutboxEventDraft LifecyclePayload))
      (receipt : Option ReceiptDraft) (w : World)
      → a.status ≡ executing
      → returned (save env a event receipt w).0 ≡ true
      → (left (lookup a.id w.actions) ≡ 1)
        × (left (lookup a.id (save env a event receipt w).1.actions) ≡ 0)
  unfolding save
  save-starts a event receipt w run h = elim (Result-cases (check_save a (lookup a.id w.actions))) [
    | inl (_, passed) ↦ (
      check_save-left a (lookup a.id w.actions) run passed,
      rw
          (
            passed,
            actions-write_tail env event receipt (put_action a w),
            lookup-set_self a.id a w.actions,
            run,
          )
          refl,
    )
    | inr (_, refused) ↦ absurd (false≢true (rw (refused, save) at h))
  ]

  save_approval-starts :
      (p : Approval) (a : BusinessAction) (event : Option (OutboxEventDraft LifecyclePayload))
      (receipt : Option ReceiptDraft) (w : World)
      → a.status ≡ executing
      → returned (save_approval env p a event receipt w).0 ≡ true
      → (left (lookup a.id w.actions) ≡ 1)
        × (left (lookup a.id (save_approval env p a event receipt w).1.actions) ≡ 0)
  unfolding save_approval
  save_approval-starts p a event receipt w run h =
      elim (Result-cases (check_approval p a w.store)) [
        | inl (_, passed) ↦ (
          check_approval-left p a w passed,
          rw
              (
                passed,
                actions-write_tail env event receipt (put_action a (put_approval p w)),
                lookup-set_self a.id a w.actions,
                run,
              )
              refl,
        )
        | inr (_, refused) ↦ absurd (false≢true (rw (refused, save_approval) at h))
      ]

  start-spends :
      (id : String) (w : World) (x : Write)
      → is_start id w x ≡ true
      → (left (lookup id w.actions) ≡ 1) × (left (lookup id (write env w x).actions) ≡ 0)
  unfolding is_start write
  start-spends id w (saves a event receipt) h =
      let (same, h') = (and-eq-true_iff _ _).0 h in
      let (run, done) = (and-eq-true_iff _ _).0 h' in
      subst
        (λ k.
          (left (lookup k w.actions) ≡ 1)
          × (left (lookup k (save env a event receipt w).1.actions) ≡ 0))
        (eq_of_== same) (save-starts a event receipt w (eq_of_== run) done)
  start-spends id w (approves p a event receipt) h =
      let (same, h') = (and-eq-true_iff _ _).0 h in
      let (run, done) = (and-eq-true_iff _ _).0 h' in
      subst
        (λ k.
          (left (lookup k w.actions) ≡ 1)
          × (left (lookup k (save_approval env p a event receipt w).1.actions) ≡ 0))
        (eq_of_== same) (save_approval-starts p a event receipt w (eq_of_== run) done)

  starts-le-left :
      (id : String) (w : World) (xs : List Write)
      → count_starts id w xs ≤ left (lookup id w.actions)
  unfolding count_starts
  starts-le-left id w [] = omega arith
  starts-le-left id w (x ∷ xs) =
      let later = starts-le-left id (write env w x) xs in
      elim (Bool-cases (is_start id w x)) [
        | inl e ↦ rw e (omega (arith, later, start-spends id w x e))
        | inr e ↦ rw e (omega (arith, later, left-Moves (write-Moves env w x id)))
      ]

  -- Whatever writes are made in whatever order, at most one of them starts a given action:
  -- stores it as executing.
  pub starts_once : (id : String) (w : World) (xs : List Write) → count_starts id w xs ≤ 1
  starts_once id w xs = omega (arith, starts-le-left id w xs, left-le-one (lookup id w.actions))

  -- Once an action is stored as executing, as executed or in a final state, no write of any
  -- sequence starts it.
  pub starts_never_again :
      (id : String) (w : World) (xs : List Write) (a : BusinessAction)
      → lookup id w.actions ≡ some a
      → unstarted a.status ≡ 0
      → count_starts id w xs ≡ 0
  starts_never_again id w xs a h past =
      let none_left : left (lookup id w.actions) ≡ 0 = rw h past in
      omega (arith, none_left, starts-le-left id w xs)
