-- ===== src/Outbox/History.antt =====
-- Histories of the outbox: any workers make any calls in any order. A call of the in-memory store
-- runs to its end before another starts, so a history is a list of calls.
use eauto_ai.Prelude.{
  ℕ, String, List, [], ◌∷◌, true, ◌≡◌, arith, includes, string_eq, includes-append, ==_refl,
}
use eauto_ai.Time.{Timestamp}
use eauto_ai.Outbox.{Outbox, OutboxEventDraft, enqueue, empty}
use eauto_ai.Outbox.Claim.{claim_batch}
use eauto_ai.Outbox.Settle.{mark_processed, mark_failed, requeue_dead}
use eauto_ai.Outbox.Leases.{IsConsistent}
use eauto_ai.Outbox.Consistency.{
  empty-IsConsistent, enqueue-IsConsistent, claim_batch-IsConsistent, mark_processed-IsConsistent,
  mark_failed-IsConsistent, requeue_dead-IsConsistent,
}

-- One call of the repository by some worker.
pub data Call (P : Type 0) : Type 0 where
  enqueues : OutboxEventDraft P → ℕ → Call P
  claims : (worker : String) (limit now : ℕ) (until : Timestamp) → Call P
  completes : (id worker : String) → Timestamp → Call P
  fails : (id worker error : String) → Timestamp → (max_attempts : ℕ) → Call P
  requeues : (id : String) → List String → Timestamp → Call P

module _ {P : Type 0} where
  unfoldable pub step : Outbox P → Call P → Outbox P
  step s (enqueues event now) = enqueue event now s
  step s (claims worker limit now until) = (claim_batch worker limit now until s).1
  step s (completes id worker t) = (mark_processed id worker t s).1
  step s (fails id worker error t max_attempts) = (mark_failed id worker error t max_attempts s).1
  step s (requeues id accounts t) = (requeue_dead id accounts t s).1

  unfoldable pub run : Outbox P → List (Call P) → Outbox P
  unfolding step
  run s [] = s
  run s (c ∷ cs) = run (step s c) cs

  pub step-IsConsistent : (s : Outbox P) (c : Call P) → IsConsistent s → IsConsistent (step s c)
  unfolding step
  step-IsConsistent s (enqueues event now) h = enqueue-IsConsistent event now s h
  step-IsConsistent s (claims worker limit now until) h =
      claim_batch-IsConsistent worker limit now until s h
  step-IsConsistent s (completes id worker t) h = mark_processed-IsConsistent id worker t s h
  step-IsConsistent s (fails id worker error t max_attempts) h =
      mark_failed-IsConsistent id worker error t max_attempts s h
  step-IsConsistent s (requeues id accounts t) h = requeue_dead-IsConsistent id accounts t s h

  run_from-IsConsistent :
      (s : Outbox P) (cs : List (Call P)) → IsConsistent s → IsConsistent (run s cs)
  unfolding run
  run_from-IsConsistent s [] h = h
  run_from-IsConsistent s (c ∷ cs) h = run_from-IsConsistent (step s c) cs (step-IsConsistent s c h)

  -- After any calls in any order from the empty outbox, the ids of the stored events are distinct,
  -- each event carries the id that it is stored under, has an owner and a deadline exactly while its
  -- status is `processing`, and has then been claimed at least once.
  pub run-IsConsistent : (cs : List (Call P)) → IsConsistent (run empty cs)
  run-IsConsistent cs = run_from-IsConsistent empty cs empty-IsConsistent

  step-keeps_key :
      (s : Outbox P) (c : Call P) (k : String)
      → includes s.idempotency_keys k ≡ true
      → includes (step s c).idempotency_keys k ≡ true
  unfolding step enqueue claim_batch mark_processed mark_failed requeue_dead
  step-keeps_key s (enqueues event now) k h =
      ground (arith, includes-append s.idempotency_keys (event.idempotency_key ∷ []) k)
  step-keeps_key s (claims worker limit now until) k h = h
  step-keeps_key s (completes id worker t) k h = ground arith
  step-keeps_key s (fails id worker error t max_attempts) k h = ground arith
  step-keeps_key s (requeues id accounts t) k h = ground arith

  run-keeps_key :
      (s : Outbox P) (cs : List (Call P)) (k : String)
      → includes s.idempotency_keys k ≡ true
      → includes (run s cs).idempotency_keys k ≡ true
  unfolding run
  run-keeps_key s [] k h = h
  run-keeps_key s (c ∷ cs) k h = run-keeps_key (step s c) cs k (step-keeps_key s c k h)

  enqueue-known :
      (event : OutboxEventDraft P) (now : ℕ) (s : Outbox P)
      → includes (enqueue event now s).idempotency_keys event.idempotency_key ≡ true
  unfolding enqueue
  enqueue-known event now s = ground (
    arith,
    includes-append s.idempotency_keys (event.idempotency_key ∷ []) event.idempotency_key,
    ==_refl event.idempotency_key,
  )

  enqueue_of_known :
      (event : OutboxEventDraft P) (now : ℕ) (s : Outbox P)
      → includes s.idempotency_keys event.idempotency_key ≡ true
      → enqueue event now s ≡ s
  unfolding enqueue
  enqueue_of_known event now s h = rw h

  -- Once an event was enqueued, no later call stores another with its idempotency key: a second
  -- `enqueue` with that key changes nothing, however many calls lie between and whatever became of
  -- the first event.
  pub enqueue_once :
      (event again : OutboxEventDraft P) (now later : ℕ) (s : Outbox P) (cs : List (Call P))
      → again.idempotency_key ≡ event.idempotency_key
      → enqueue again later (run (enqueue event now s) cs) ≡ run (enqueue event now s) cs
  enqueue_once event again now later s cs same =
      enqueue_of_known again later (run (enqueue event now s) cs) (
        rw same (
          run-keeps_key (enqueue event now s) cs event.idempotency_key (enqueue-known event now s)))
