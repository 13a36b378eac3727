-- ===== src/Tests/Outbox.antt =====
-- The outbox at concrete inputs: one event, two workers.
use eauto_ai.Prelude.{
  ℕ, ◌+◌, ◌≤◌, String, Option, none, some, List, [], ◌∷◌, All, length, ◌≡◌, ◌≢◌, ◌==◌, string_eq,
  refl, sym, ap, arith,
}
use mathlib.Core.Bool.{false≢true}
use eauto_ai.Prelude.Assoc.{lookup, set, adjust}
use eauto_ai.Prelude.Result.{ok, err}
use eauto_ai.Time.{at}
use eauto_ai.Outbox.{
  Outbox, OutboxEventDraft, StoredOutboxEvent, processing, not_leased, enqueue, empty,
}
use eauto_ai.Outbox.Claim.{claim_batch, claimable, is_claimable, by_age, insert_by_age}
use eauto_ai.Outbox.Settle.{mark_processed, mark_failed, require_owned}
use eauto_ai.Outbox.Leases.{IsConsistent}
use eauto_ai.Outbox.History.{Call, enqueues, claims, run, step, run-IsConsistent, enqueue_once}
use eauto_ai.Outbox.Exclusion.{
  IsLeased, claim_batch-IsLeased, claim_batch_twice, claim_batch-settle,
}
use eauto_ai.Outbox.Processor.{
  ProcessorOptions, OutboxProcessorResult, World, Handler, retry_delay, run_once, process_all,
  process_one, attempt, settle,
}
use eauto_ai.Outbox.Processor.Totals.{retry_delay_bounds, run_once-total}

abbrev draft_a : OutboxEventDraft ℕ
draft_a = record {
  id = "e1";
  idempotency_key = "k1";
  aggregate_type = "business_action";
  aggregate_id = "a1";
  account_id = some "acct";
  event_type = "action.proposed";
  payload = 7;
  available_at = at 10;
}

abbrev draft_b : OutboxEventDraft ℕ
draft_b = record draft_a { id = "e2" }

abbrev calls : List (Call ℕ)
calls = enqueues draft_a 5 ∷ claims "w" 10 100 (at 400) ∷ []

abbrev one : Outbox ℕ
one = run empty (enqueues draft_a 5 ∷ [])

abbrev held : Outbox ℕ
held = run empty calls

abbrev leased : StoredOutboxEvent ℕ
leased = record {
  event = draft_a;
  status = processing;
  attempts = 1;
  locked_by = some "w";
  locked_until = some (at 400);
  processed_at = none;
  last_error = none;
  created_at = 5;
}

held_lookup : lookup "e1" held.events ≡ some leased
unfolding run step enqueue claim_batch claimable is_claimable by_age insert_by_age lookup set adjust
held_lookup = refl

run-IsConsistent_example : IsConsistent (run empty calls)
run-IsConsistent_example = run-IsConsistent calls

enqueue_once_example :
    enqueue draft_b 900 (run (enqueue draft_a 5 empty) (claims "w" 10 100 (at 400) ∷ []))
    ≡ run (enqueue draft_a 5 empty) (claims "w" 10 100 (at 400) ∷ [])
enqueue_once_example =
    enqueue_once draft_a draft_b 5 900 empty (claims "w" 10 100 (at 400) ∷ []) refl

claim_batch-IsLeased_example :
    (length (claim_batch "w" 10 100 (at 400) one).0 ≤ 10)
    × All
        (IsLeased "w" 100 (at 400) one (claim_batch "w" 10 100 (at 400) one).1)
        (claim_batch "w" 10 100 (at 400) one).0
claim_batch-IsLeased_example =
    claim_batch-IsLeased one (run-IsConsistent (enqueues draft_a 5 ∷ [])) "w" 10 100 (at 400)

claim_batch_twice_example :
    All
      (λ e.
        lookup e.event.id
          (claim_batch "v" 10 200 (at 900) (claim_batch "w" 10 100 (at 400) one).1).1.events
        ≡ some e)
      (claim_batch "w" 10 100 (at 400) one).0
claim_batch_twice_example =
    claim_batch_twice one "w" "v" 10 10 100 200 400 (at 900)
      (run-IsConsistent (enqueues draft_a 5 ∷ [])) (omega arith)

other_worker : ◌≢◌ {A = String} "v" "w"
other_worker h = false≢true (sym (ap (λ o. o == "v") h))

abbrev shared : Outbox ℕ
shared = (claim_batch "v" 10 200 (at 900) (claim_batch "w" 10 100 (at 400) one).1).1

claim_batch-settle_example :
    All
      (λ e.
        (mark_processed e.event.id "v" (at 200) shared ≡ (err (not_leased e.event.id "v"), shared))
        × (mark_failed e.event.id "v" "boom" (at 200) 3 shared
            ≡ (err (not_leased e.event.id "v"), shared))
        × ((mark_processed e.event.id "w" (at 200) shared).0 ≡ ok tt))
      (claim_batch "w" 10 100 (at 400) one).0
claim_batch-settle_example =
    claim_batch-settle one "w" "v" "boom" 10 10 100 200 400 3 (at 900) (at 200)
      (run-IsConsistent (enqueues draft_a 5 ∷ [])) (omega arith) other_worker

abbrev options : ProcessorOptions
options = record {
  worker_id = "w";
  lease_ms = 300;
  max_attempts = 3;
  base_retry_ms = 1000;
  max_retry_ms = 60000;
}

retry_delay_bounds_example :
    (retry_delay options 2 ≤ 60000)
    × (retry_delay options 2 ≤ retry_delay options 3)
    × (retry_delay options 1 ≡ 1000)
retry_delay_bounds_example = retry_delay_bounds options 2

abbrev handlers : String → Option (Handler ℕ)
handlers type = some (λ e w. (ok tt, w))

abbrev world : World ℕ
world = record { outbox = one; readings = 0 }

abbrev outcome : OutboxProcessorResult
outcome = record { claimed = 1; processed = 1; retried = 0; dead = 0 }

ran : (run_once (λ n. 100 + n) handlers options 10 world).0 ≡ ok outcome
unfolding run_once process_all process_one attempt settle run step enqueue claim_batch claimable
    is_claimable by_age insert_by_age lookup set adjust mark_processed require_owned
ran = refl

run_once-total_example : outcome.claimed ≡ outcome.processed + outcome.retried + outcome.dead
run_once-total_example = run_once-total (λ n. 100 + n) handlers options 10 outcome world ran
