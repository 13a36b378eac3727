-- ===== src/Lifecycle/Service.antt =====
-- `ActionService` of packages/application/src/actionService.ts: each method of the lifecycle, with
-- every write, in the order of the code.
use Prim.Native.String.{◌++◌ as concat}
use eauto_ai.Prelude.{String, Option, none, some, not, ◌!=◌, string_eq}
use eauto_ai.Prelude.Assoc.{lookup}
use eauto_ai.Prelude.Result.{Result, ok, err}
use eauto_ai.Prelude.Result.Exec.{Exec, pure, throw, lift, throw_if, ◌>>=◌, ◌>>◌}
use eauto_ai.Time.{at, due}
use eauto_ai.Action.{
  BusinessAction, Approval, ActionStatus, draft, proposed, reviewed, approved, executing, executed,
  verified, failed, uncertain, rejected, expired, status_eq, ActionError, not_found, not_reviewed,
  action_expired, approval_required, approval_mismatch, approval_expired, verification_failed,
  transition_action, assert_complete_evidence,
}
use eauto_ai.Outbox.{OutboxEventDraft}
use eauto_ai.Lifecycle.{
  LifecyclePayload, Payload, proposed_by, exact_changes, reviewed_by, approved_by, approval_record,
  requested_by, executed_for, provider_receipt, verified_for, observed_state, unknown_outcome,
  ReceiptType, proposal, review, approval, execution, verification, outcome, ReceiptDraft, World,
}
use eauto_ai.Lifecycle.Environment.{Environment, ask, now, next_id, hash_action}
use eauto_ai.Lifecycle.Repository.{save, save_approval}

abbrev pub status_text : ActionStatus → String
status_text draft = "draft"
status_text proposed = "proposed"
status_text reviewed = "reviewed"
status_text approved = "approved"
status_text executing = "executing"
status_text executed = "executed"
status_text verified = "verified"
status_text failed = "failed"
status_text uncertain = "uncertain"
status_text rejected = "rejected"
status_text expired = "expired"

abbrev pub require_some : String → Option BusinessAction → Result ActionError BusinessAction
require_some id none = err (not_found id)
require_some id (some action) = ok action

abbrev pub require_approval : Option Approval → Result ActionError Approval
require_approval none = err approval_required
require_approval (some given) = ok given

unfoldable pub require_action : String → Exec World ActionError BusinessAction
require_action id w = (require_some id (lookup id w.actions), w)

-- `message e` is the text of a thrown error.
module _ (env : Environment) (message : ActionError → String) where
  unfoldable pub lifecycle_event :
      BusinessAction → String → Payload → Exec World ActionError (OutboxEventDraft LifecyclePayload)
  lifecycle_event action event_type payload = do
    id ← next_id env "event"
    available ← now env
    pure (record {
      id = id;
      idempotency_key =
          concat action.id
            (concat ":" (concat event_type (concat ":" (status_text action.status))));
      aggregate_type = "business_action";
      aggregate_id = action.id;
      account_id = some action.account_id;
      event_type = event_type;
      payload = record { action_id = action.id; account_id = action.account_id; payload = payload };
      available_at = at available;
    })

  unfoldable pub receipt_draft :
      BusinessAction → ReceiptType → Payload → Exec World ActionError ReceiptDraft
  receipt_draft action type payload = do
    id ← next_id env "receipt"
    recorded ← now env
    pure (record {
      id = id;
      type = type;
      account_id = action.account_id;
      action_id = action.id;
      content_hash = hash_action env action;
      policy_hash = env.sha256 action.policy_version;
      evidence_hash = action.evidence_bundle.id;
      payload = payload;
      recorded_at = recorded;
    })

  -- A save with its event and its receipt, built in this order.
  unfoldable pub save_with :
      BusinessAction → String → Payload → ReceiptType → Payload → Exec World ActionError (Unit {0})
  save_with action event_type event_payload type receipt_payload = do
    event ← lifecycle_event action event_type event_payload
    receipt ← receipt_draft action type receipt_payload
    save env action (some event) (some receipt)

  unfoldable pub propose : BusinessAction → String → Exec World ActionError BusinessAction
  propose action by = do
    lift (assert_complete_evidence action.evidence_bundle)
    next ← lift (transition_action action proposed)
    save_with next "action.proposed" (proposed_by by) proposal (exact_changes next.exact_changes by)
    pure next

  unfoldable pub mark_reviewed : String → String → Exec World ActionError BusinessAction
  mark_reviewed action_id by = do
    action ← require_action action_id
    next ← lift (transition_action action reviewed)
    save_with next "action.reviewed" (reviewed_by by next.risk) review (reviewed_by by next.risk)
    pure next

  unfoldable pub approve : String → String → Exec World ActionError Approval
  approve action_id by = do
    action ← require_action action_id
    throw_if (action.status != reviewed) not_reviewed
    time ← now env
    throw_if (due action.expires_at time) action_expired
    id ← next_id env "approval"
    approved_at ← now env
    let given : Approval = record {
      id = id;
      action_id = action.id;
      action_hash = hash_action env action;
      approved_by = by;
      approved_at = approved_at;
      expires_at = action.expires_at;
    }
    next ← lift (transition_action action approved)
    event ← lifecycle_event next "action.approved" (approved_by by given.id)
    receipt ← receipt_draft next approval (approval_record given)
    save_approval env given next (some event) (some receipt)
    pure given

  -- The checks before an execution, up to the write of `executing`.
  unfoldable pub begin_execution : String → String → Exec World ActionError BusinessAction
  begin_execution action_id by = do
    action ← require_action action_id
    given ← λ w. (require_approval (lookup action_id w.approvals), w)
    throw_if (given.action_hash != hash_action env action) approval_mismatch
    time ← now env
    throw_if (due given.expires_at time) approval_expired
    running ← lift (transition_action action executing)
    event ← lifecycle_event running "action.execution.started" (requested_by by)
    save env running (some event) none
    pure running

  -- The `try` block: first while `current` is the running action, then while it is the executed one.
  unfoldable pub call_provider : BusinessAction → Exec World ActionError (BusinessAction × String)
  call_provider running = do
    result ← ask env (env.execute running)
    done ← lift (transition_action running executed)
    pure (done, result)

  unfoldable pub confirm : BusinessAction → String → String → Exec World ActionError BusinessAction
  confirm done result by = do
    save_with done "action.executed" (executed_for by result) execution (provider_receipt result)
    (seen, state) ← ask env (env.verify done)
    throw_if (not seen) verification_failed
    checked ← lift (transition_action done verified)
    save_with checked "action.verified" (verified_for by state) verification (observed_state state)
    pure checked

  -- The `catch` block, which throws the error again.
  unfoldable pub doubt :
      BusinessAction → ActionError → String → Exec World ActionError BusinessAction
  doubt current error by = do
    unsure ← lift (transition_action current uncertain)
    save_with unsure "action.uncertain" (unknown_outcome by (message error)) outcome
        (unknown_outcome by (message error))
    throw error

  abbrev pub catch_doubt :
      BusinessAction
      → String
      → Result ActionError BusinessAction
      → Exec World ActionError BusinessAction
  catch_doubt current by (ok action) = pure action
  catch_doubt current by (err error) = doubt current error by

  abbrev pub after_call :
      BusinessAction
      → String
      → Result ActionError (BusinessAction × String)
      → Exec World ActionError BusinessAction
  after_call running by (err error) = doubt running error by
  after_call running by (ok (done, result)) =
      λ w. let (r, w') = confirm done result by w in catch_doubt done by r w'

  unfoldable pub run_provider : BusinessAction → String → Exec World ActionError BusinessAction
  run_provider running by w = let (r, w') = call_provider running w in after_call running by r w'

  unfoldable pub execute : String → String → Exec World ActionError BusinessAction
  execute action_id by = do running ← begin_execution action_id by; run_provider running by
