-- ===== src/Outbox/Processor.antt =====
-- `OutboxProcessor` of packages/application/src/outbox.ts. The handlers are a parameter: what one
-- does to the outbox, and whether it throws. `clock n` is what the n-th reading of the clock gives.
pub mod Totals
use Prim.Native.String.{◌++◌ as concat}
use eauto_ai.Prelude.{
  ℕ, zero, suc, ◌+◌, ◌-◌, ◌*◌, ◌^◌, min, String, Option, none, some, List, [], ◌∷◌, length,
}
use eauto_ai.Prelude.Result.{Result, ok, err}
use eauto_ai.Prelude.Result.Exec.{Exec, pure, throw, ◌>>=◌, ◌>>◌}
use eauto_ai.Time.{Timestamp, at}
use eauto_ai.Outbox.{
  Outbox, StoredOutboxEvent, OutboxStatus, pending, processing, processed, dead, OutboxError,
  not_found, not_leased, dead_letter_not_found, no_handler, handler_failed,
}
use eauto_ai.Outbox.Claim.{claim_batch}
use eauto_ai.Outbox.Settle.{mark_processed, mark_failed}

pub record ProcessorOptions : Type 0 where
  pub worker_id : String
  pub lease_ms : ℕ
  pub max_attempts : ℕ
  pub base_retry_ms : ℕ
  pub max_retry_ms : ℕ

-- The outbox, and how often the clock was read.
pub record World (P : Type 0) : Type 0 where
  pub outbox : Outbox P
  pub readings : ℕ

pub record OutboxProcessorResult : Type 0 where
  pub claimed : ℕ
  pub processed : ℕ
  pub retried : ℕ
  pub dead : ℕ

abbrev pub Handler : Type 0 → Type 0
Handler P = StoredOutboxEvent P → Exec (World P) OutboxError (Unit {0})

-- `error.message`
abbrev pub message : OutboxError → String
message (not_found id) = concat "Outbox event " (concat id " not found.")
message (not_leased id w) =
    concat "Outbox event " (concat id (concat " is not leased by " (concat w ".")))
message (dead_letter_not_found id) = concat "Dead-letter event " (concat id " not found.")
message (no_handler type) = concat "No handler registered for " (concat type ".")
message (handler_failed text) = text

-- On ℕ the difference stops at 0, as `Math.max(0, …)` does. The power is exact here; in double
-- precision it is infinite from 2 ** 1024 on, which the minimum hides but for a base of zero.
unfoldable pub retry_delay : ProcessorOptions → ℕ → ℕ
retry_delay o attempts = min o.max_retry_ms (o.base_retry_ms * 2 ^ (attempts - 1))

abbrev pub tally : OutboxStatus → OutboxProcessorResult → OutboxProcessorResult
tally dead r = record r { dead = suc r.dead }
tally _ r = record r { retried = suc r.retried }

module _ {P : Type 0} where
  -- A method of the outbox, called on the world.
  abbrev pub on_outbox : {A : Type 0} → Exec (Outbox P) OutboxError A → Exec (World P) OutboxError A
  on_outbox m w = let (r, s) = m w.outbox in (r, record w { outbox = s })

  abbrev pub ask_handler :
      Option (Handler P) → StoredOutboxEvent P → Exec (World P) OutboxError (Unit {0})
  ask_handler none e = throw (no_handler e.event.event_type)
  ask_handler (some handler) e = handler e

module _ {P : Type 0} (clock : ℕ → ℕ) (handlers : String → Option (Handler P))
    (o : ProcessorOptions) where
  abbrev pub now : Exec (World P) OutboxError ℕ
  now w = (ok (clock w.readings), record w { readings = suc w.readings })

  -- The `try` block.
  unfoldable pub attempt : StoredOutboxEvent P → Exec (World P) OutboxError (Unit {0})
  attempt e = do
    ask_handler (handlers e.event.event_type) e
    at_time ← now
    on_outbox (mark_processed e.event.id o.worker_id (at at_time))

  -- The `catch` block.
  unfoldable pub give_back :
      StoredOutboxEvent P → OutboxError → Exec (World P) OutboxError OutboxStatus
  give_back e error = do
    at_time ← now
    on_outbox (
        mark_failed e.event.id o.worker_id (message error) (at (at_time + retry_delay o e.attempts))
          o.max_attempts)

  unfoldable pub settle :
      StoredOutboxEvent P
      → OutboxProcessorResult
      → Result OutboxError (Unit {0})
      → Exec (World P) OutboxError OutboxProcessorResult
  settle e r (ok _) = pure (record r { processed = suc r.processed })
  settle e r (err error) = do status ← give_back e error; pure (tally status r)

  unfoldable pub process_one :
      StoredOutboxEvent P → OutboxProcessorResult → Exec (World P) OutboxError OutboxProcessorResult
  process_one e r w = let (outcome, w') = attempt e w in settle e r outcome w'

  -- The loop over the batch.
  unfoldable pub process_all :
      List (StoredOutboxEvent P)
      → OutboxProcessorResult
      → Exec (World P) OutboxError OutboxProcessorResult
  process_all [] r = pure r
  process_all (e ∷ es) r = do r' ← process_one e r; process_all es r'

  unfoldable pub run_once : ℕ → Exec (World P) OutboxError OutboxProcessorResult
  run_once limit = do
    start ← now
    batch ← λ w.
        let (batch, s) = claim_batch o.worker_id limit start (at (start + o.lease_ms)) w.outbox in
        (ok batch, record w { outbox = s })
    process_all batch (record { claimed = length batch; processed = 0; retried = 0; dead = 0 })
