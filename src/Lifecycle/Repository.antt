-- ===== src/Lifecycle/Repository.antt =====
-- `InMemoryActionRepository`: the guarded writes of actions and approvals, each with its receipt and
-- its event.
use eauto_ai.Prelude.{
  suc, String, Option, none, some, not, ◌&&◌, ◌||◌, List, [], ◌∷◌, filter, map, ◌==◌, ◌!=◌,
  includes, string_eq, if◌then◌else◌,
}
use eauto_ai.Prelude.Assoc.{lookup, set}
use eauto_ai.Prelude.Result.{Result, ok, err}
use eauto_ai.Prelude.Result.Exec.{Exec, modify, ◌>>◌}
use eauto_ai.Action.{
  BusinessAction, Approval, ActionStatus, proposed, reviewed, approved, executing, executed,
  verified, failed, uncertain, rejected, expired, status_eq, ActionError, already_exists,
  transition_conflict, already_approved,
}
use eauto_ai.Outbox.{OutboxEventDraft, enqueue}
use eauto_ai.Lifecycle.{LifecyclePayload, ReceiptDraft, VerifiableReceipt, Store, World}
use eauto_ai.Lifecycle.Environment.{Environment}
use eauto_ai.Lifecycle.Receipts.{append_receipt}

-- The states from which `save` takes an action to a state; none for a state that is not listed.
abbrev pub allowed : ActionStatus → List ActionStatus
allowed reviewed = proposed ∷ []
allowed approved = reviewed ∷ []
allowed executing = approved ∷ []
allowed executed = executing ∷ []
allowed verified = executed ∷ []
allowed failed = executing ∷ executed ∷ []
allowed uncertain = executing ∷ executed ∷ []
allowed rejected = proposed ∷ reviewed ∷ []
allowed expired = proposed ∷ reviewed ∷ approved ∷ []
allowed _ = []

abbrev conflict : BusinessAction → Result ActionError (Unit {0})
conflict action = err (transition_conflict action.id)

check_new : BusinessAction → Option BusinessAction → Result ActionError (Unit {0})
check_new action none = ok tt
check_new action (some current) = err (already_exists action.id)

check_next : BusinessAction → Option BusinessAction → Result ActionError (Unit {0})
check_next action none = conflict action
check_next action (some current) =
    if current.account_id != action.account_id
    then conflict action
    else if not (includes (allowed action.status) current.status)
    then conflict action
    else ok tt

unfoldable pub check_save : BusinessAction → Option BusinessAction → Result ActionError (Unit {0})
unfolding check_new check_next
check_save action current =
    if action.status == proposed then check_new action current else check_next action current

unfoldable pub check_reviewed :
    BusinessAction → Option BusinessAction → Result ActionError (Unit {0})
check_reviewed action none = conflict action
check_reviewed action (some current) =
    if current.account_id != action.account_id || current.status != reviewed
    then conflict action
    else ok tt

unfoldable pub check_approval : Approval → BusinessAction → Store → Result ActionError (Unit {0})
check_approval approval action s = elim (lookup approval.action_id s.approvals) [
  | some earlier ↦ err (already_approved approval.action_id)
  | none ↦ check_reviewed action (lookup action.id s.actions)
]

abbrev pub put_action : BusinessAction → World → World
put_action action w = record w {
  store = record w.store { actions = set action.id action w.actions };
}

abbrev pub put_approval : Approval → World → World
put_approval approval w = record w {
  store = record w.store { approvals = set approval.action_id approval w.approvals };
}

module _ (env : Environment) where
  put_receipts : Result ActionError (List VerifiableReceipt) → Exec World ActionError (Unit {0})
  put_receipts (ok receipts) w =
      (ok tt, record w { store = record w.store { receipts = receipts } })
  put_receipts (err e) w = (err e, w)

  unfoldable pub write_receipt : Option ReceiptDraft → Exec World ActionError (Unit {0})
  unfolding put_receipts
  write_receipt none w = (ok tt, w)
  write_receipt (some receipt) w = put_receipts (append_receipt env receipt w.receipts) w

  -- The outbox stamps the event with its own reading of the clock.
  unfoldable pub write_event :
      Option (OutboxEventDraft LifecyclePayload) → Exec World ActionError (Unit {0})
  write_event none w = (ok tt, w)
  write_event (some event) w = (
    ok tt,
    record w {
      store = record w.store { outbox = enqueue event (env.clock w.asked) w.outbox };
      asked = suc w.asked;
    },
  )

  unfoldable pub save :
      BusinessAction
      → Option (OutboxEventDraft LifecyclePayload)
      → Option ReceiptDraft
      → Exec World ActionError (Unit {0})
  save action event receipt = do
    λ w. (check_save action (lookup action.id w.actions), w)
    modify (put_action action)
    write_receipt receipt
    write_event event

  unfoldable pub save_approval :
      Approval
      → BusinessAction
      → Option (OutboxEventDraft LifecyclePayload)
      → Option ReceiptDraft
      → Exec World ActionError (Unit {0})
  save_approval approval action event receipt = do
    λ w. (check_approval approval action w.store, w)
    modify (put_approval approval)
    modify (put_action action)
    write_receipt receipt
    write_event event

-- `listPending`
abbrev pub pending_statuses : List ActionStatus
pending_statuses = proposed ∷ reviewed ∷ approved ∷ uncertain ∷ []

unfoldable pub list_pending : String → World → List BusinessAction
list_pending account_id w =
    filter (λ a. a.account_id == account_id && includes pending_statuses a.status)
      (map (λ e. e.1) w.actions)
