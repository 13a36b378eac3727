-- ===== src/Outbox/Processor/Totals.antt =====
-- What one run of the processor reports, and the state that it leaves.
use native.Mathlib.Nat.{pow-suc}
use eauto_ai.Prelude.{
  min, ℕ, zero, suc, ◌+◌, ◌*◌, ◌^◌, ◌-◌, ◌≤◌, String, Option, ◌≡◌, List, [], ◌∷◌, length, arith,
  min,
}
use eauto_ai.Prelude.Result.{Result, ok, err}
use eauto_ai.Prelude.Result.Exec.{>>=-eq-ok}
use eauto_ai.Outbox.{StoredOutboxEvent, OutboxStatus, OutboxError}
use eauto_ai.Outbox.Claim.{claim_batch}
use eauto_ai.Time.{at}
use eauto_ai.Outbox.Processor.{
  ProcessorOptions, World, OutboxProcessorResult, Handler, retry_delay, attempt, give_back, settle,
  process_one, process_all, run_once, tally,
}

two_pow : (n : ℕ) → 2 ^ suc n ≡ 2 ^ n + 2 ^ n
two_pow n = omega (arith, pow-suc 2 n)

pow_grows : (n : ℕ) → 2 ^ (n - 1) ≤ 2 ^ (n + 1 - 1)
pow_grows zero = omega arith
pow_grows (suc n) =
    let before : suc n - 1 ≡ n = omega arith in
    let after : suc n + 1 - 1 ≡ suc n = omega arith in rw (before, after) (omega (arith, two_pow n))

scale_le : (k a b : ℕ) → a ≤ b → k * a ≤ k * b
scale_le k a b h = grind arith

-- The delay before a retry never passes the configured maximum, never falls from one attempt to the
-- next, and after the first attempt is the base delay, capped by the maximum.
pub retry_delay_bounds :
    (o : ProcessorOptions) (attempts : ℕ)
    → (retry_delay o attempts ≤ o.max_retry_ms)
      × (retry_delay o attempts ≤ retry_delay o (attempts + 1))
      × (retry_delay o 1 ≡ min o.max_retry_ms o.base_retry_ms)
unfolding retry_delay
retry_delay_bounds o n =
    let grows = scale_le o.base_retry_ms (2 ^ (n - 1)) (2 ^ (n + 1 - 1)) (pow_grows n) in
    (omega arith, omega (arith, grows), omega arith)

total : OutboxProcessorResult → ℕ
total r = r.processed + r.retried + r.dead

total-tally :
    (status : OutboxStatus) (r : OutboxProcessorResult)
    → (total (tally status r) ≡ suc (total r)) × ((tally status r).claimed ≡ r.claimed)
unfolding total
total-tally status r = ground arith

module _ {P : Type 0} (clock : ℕ → ℕ) (handlers : String → Option (Handler P))
    (o : ProcessorOptions) where
  settle-total :
      (e : StoredOutboxEvent P) (r r' : OutboxProcessorResult)
      (outcome : Result OutboxError (Unit {0})) (w : World P)
      → (settle clock handlers o e r outcome w).0 ≡ ok r'
      → (total r' ≡ suc (total r)) × (r'.claimed ≡ r.claimed)
  unfolding settle total
  settle-total e r r' (ok _) w h = ground arith
  settle-total e r r' (err error) w h =
      let (status, _, same) = >>=-eq-ok (give_back clock handlers o e error) _ w h in
      ground (arith, total-tally status r)

  process_one-total :
      (e : StoredOutboxEvent P) (r r' : OutboxProcessorResult) (w : World P)
      → (process_one clock handlers o e r w).0 ≡ ok r'
      → (total r' ≡ suc (total r)) × (r'.claimed ≡ r.claimed)
  unfolding process_one
  process_one-total e r r' w h =
      let (outcome, w') = attempt clock handlers o e w in settle-total e r r' outcome w' h

  process_all-total :
      (es : List (StoredOutboxEvent P)) (r r' : OutboxProcessorResult) (w : World P)
      → (process_all clock handlers o es r w).0 ≡ ok r'
      → (total r' ≡ length es + total r) × (r'.claimed ≡ r.claimed)
  unfolding process_all total
  process_all-total [] r r' w h = ground arith
  process_all-total (e ∷ es) r r' w h =
      let (next, one, rest) = >>=-eq-ok (process_one clock handlers o e r) _ w h in
      ground (
        arith,
        process_one-total e r next w one,
        process_all-total es next r' (process_one clock handlers o e r w).1 rest,
      )

  -- Whatever the handlers do, a run that returns accounts for each event that it claimed exactly
  -- once: as processed, as to be retried, or as dead.
  pub run_once-total :
      (limit : ℕ) (r : OutboxProcessorResult) (w : World P)
      → (run_once clock handlers o limit w).0 ≡ ok r
      → r.claimed ≡ r.processed + r.retried + r.dead
  unfolding run_once total
  run_once-total limit r w h =
      let start = clock w.readings in
      let (batch, s) = claim_batch o.worker_id limit start (at (start + o.lease_ms)) w.outbox in
      let w' : World P = record { outbox = s; readings = suc w.readings } in
      let zeros : OutboxProcessorResult = record {
        claimed = length batch;
        processed = 0;
        retried = 0;
        dead = 0;
      } in
      omega (arith, process_all-total batch zeros r w' h)
