-- ===== src/Tests/Lifecycle.antt =====
-- The lifecycle at concrete inputs: one price update, from its proposal to its verification.
use eauto_ai.Prelude.{String, ◌≤◌, none, some, true, List, [], ◌∷◌, ◌≡◌, ◌↔◌, refl}
use eauto_ai.Prelude.Assoc.{lookup, set}
use eauto_ai.Prelude.Result.{ok}
use eauto_ai.Time.{at}
use eauto_ai.Action.{
  reviewed, BusinessAction, price_update, RiskLevel, ActionStatus, draft, proposed, approved,
  executing, verified, status_eq, EvidenceBundle, EvidenceReference, fresh, high, transition_action,
}
use eauto_ai.Action.Graph.{◌⟶◌, ◌⟶*◌, transition_action_iff}
use eauto_ai.Lifecycle.{World}
use eauto_ai.Lifecycle.Environment.{Environment}
use eauto_ai.Lifecycle.Guards.{Write, saves, approves, write_all, write_all-path}
use eauto_ai.Lifecycle.Chain.{IsChained, write_all-IsChained}
use eauto_ai.Lifecycle.Receipts.{list_for_action}
use eauto_ai.Lifecycle.{ReceiptDraft, execution, provider_receipt}
use eauto_ai.Lifecycle.Outcome.{IsVerified, execute-IsVerified}
use eauto_ai.Lifecycle.Service.{
  execute, begin_execution, require_action, lifecycle_event, receipt_draft, save_with, run_provider,
  call_provider, confirm,
}
use eauto_ai.Lifecycle.Repository.{save, check_save, write_receipt, write_event}
use eauto_ai.Lifecycle.Receipts.{append, append_receipt, create_receipt}
use eauto_ai.Lifecycle.Environment.{hash_action}
use eauto_ai.Outbox.{enqueue}
use eauto_ai.Action.{Approval}
use eauto_ai.Lifecycle.Once.{count_starts, starts_once}
use eauto_ai.Lifecycle.Authority.{IsAuthorised, books}
use eauto_ai.Lifecycle.Authority.Served.{
  Request, asks_propose, asks_review, asks_approve, asks_execute, serve_all, serve_all-IsAuthorised,
}

abbrev reading : EvidenceReference
reading = record {
  id = "ref";
  source = "mercadolibre";
  source_record_id = "item";
  observed_at = at 1;
  freshness = fresh;
  confidence = high;
  content_hash = "hash";
}

abbrev evidence : EvidenceBundle
evidence = record {
  id = "bundle";
  account_id = "acct";
  references = reading ∷ [];
  complete = true;
  missing_inputs = [];
}

abbrev update : ActionStatus → BusinessAction
update s = record {
  id = "a1";
  account_id = "acct";
  kind = price_update;
  target = "item";
  exact_changes = [];
  rationale = "margin";
  risk = RiskLevel.medium;
  status = s;
  evidence_bundle = evidence;
  policy_version = "1";
  expires_at = at 100000;
}

abbrev env : Environment
env = record {
  sha256 = λ s. s;
  content_json = λ c. c.id;
  payload_json = λ p. "payload";
  iso_text = λ n. "now";
  clock = λ n. n;
  fresh_id = λ prefix n. prefix;
  execute = λ a n. ok "done";
  verify = λ a n. ok (true, "state");
}

abbrev empty_world : World
empty_world = record {
  store = record {
    actions = [];
    approvals = [];
    receipts = [];
    outbox = record { events = []; idempotency_keys = [] };
  };
  asked = 0;
}

abbrev with_action : ActionStatus → World
with_action s = record empty_world {
  store = record empty_world.store { actions = ("a1", update s) ∷ [] };
}

abbrev requests : List Request
requests =
    asks_propose (update draft) "agent"
    ∷ asks_review "a1" "reviewer"
    ∷ asks_approve "a1" "owner"
    ∷ asks_execute "a1" "owner"
    ∷ []

empty-IsAuthorised : IsAuthorised env (books empty_world)
unfolding lookup
empty-IsAuthorised = record { backed = λ id. tt }

serve_all-IsAuthorised_example :
    IsAuthorised env (books (serve_all env (λ e. "error") requests empty_world))
serve_all-IsAuthorised_example =
    serve_all-IsAuthorised env (λ e. "error") requests empty_world empty-IsAuthorised

abbrev starts : List Write
starts = saves (update executing) none none ∷ saves (update executing) none none ∷ []

starts_once_example : count_starts env "a1" (with_action approved) starts ≤ 1
starts_once_example = starts_once env "a1" (with_action approved) starts

transition_action_iff_example :
    (transition_action (update draft) proposed ≡ ok (update proposed))
    ↔ ((draft ⟶ proposed) × (update proposed ≡ update proposed))
transition_action_iff_example = transition_action_iff (update draft) (update proposed) proposed

abbrev receipt_for : String → ReceiptDraft
receipt_for id = record {
  id = id;
  type = execution;
  account_id = "acct";
  action_id = "a1";
  content_hash = "content";
  policy_hash = "policy";
  evidence_hash = "bundle";
  payload = provider_receipt "done";
  recorded_at = 3;
}

abbrev receipted : List Write
receipted =
    saves (update proposed) none (some (receipt_for "r1"))
    ∷ saves (update reviewed) none (some (receipt_for "r2"))
    ∷ []

empty-IsChained : IsChained env []
unfolding list_for_action
empty-IsChained = record { chained = λ id. tt }

write_all-IsChained_example : IsChained env (write_all env empty_world receipted).receipts
write_all-IsChained_example = write_all-IsChained env receipted empty_world empty-IsChained

abbrev given : Approval
given = record {
  id = "approval";
  action_id = "a1";
  action_hash = "a1";
  approved_by = "owner";
  approved_at = 1;
  expires_at = at 100000;
}

found : (s : ActionStatus) → lookup "a1" (with_action s).actions ≡ some (update s)
unfolding lookup
found s = refl

abbrev approved_and_started : List Write
approved_and_started =
    approves given (update approved) none none ∷ saves (update executing) none none ∷ []

write_all-path_example :
    (b : BusinessAction) × (lookup "a1"
        (write_all env (with_action reviewed) approved_and_started).actions
      ≡ some b)
    × (reviewed ⟶* b.status)
    × ((update reviewed).account_id ≡ b.account_id)
write_all-path_example =
    write_all-path env (with_action reviewed) approved_and_started "a1" (update reviewed)
      (refl, (tt, tt)) (found reviewed)

abbrev ready : World
ready = record empty_world {
  store = record empty_world.store {
    actions = ("a1", update approved) ∷ [];
    approvals = ("a1", given) ∷ [];
  };
}

abbrev after : World
after = (execute env (λ e. "error") "a1" "owner" ready).1

answered : (execute env (λ e. "error") "a1" "owner" ready).0 ≡ ok (update verified)
unfolding execute begin_execution require_action lifecycle_event receipt_draft save_with
    run_provider call_provider confirm save check_save write_receipt write_event append
    append_receipt create_receipt list_for_action hash_action enqueue transition_action lookup set
answered = refl

execute-IsVerified_example :
    IsVerified env (λ e. "error") (update verified)
    × (lookup "a1" after.actions ≡ some (update verified))
execute-IsVerified_example =
    execute-IsVerified env (λ e. "error") "a1" "owner" ready (update verified) answered
