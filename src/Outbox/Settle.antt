-- ===== src/Outbox/Settle.antt =====
-- `markProcessed`, `markFailed` and `requeueDead`.
use eauto_ai.Prelude.{
  ℕ, String, Option, none, some, Bool, true, false, ◌&&◌, ◌==◌, string_eq, List, leb, includes,
  if◌then◌else◌,
}
use eauto_ai.Prelude.Result.{Result, ok, err}
use eauto_ai.Prelude.Result.Exec.{Exec, pure, modify, ◌>>=◌, ◌>>◌}
use eauto_ai.Prelude.Assoc.{lookup, set}
use eauto_ai.Time.{Timestamp}
use eauto_ai.Outbox.{
  Outbox, StoredOutboxEvent, OutboxStatus, pending, processing, processed, dead, OutboxError,
  not_found, not_leased, dead_letter_not_found,
}

abbrev pub holds : Option String → String → Bool
holds none worker = false
holds (some w) worker = w == worker

abbrev pub is_processing : OutboxStatus → Bool
is_processing processing = true
is_processing _ = false

abbrev pub is_dead : OutboxStatus → Bool
is_dead dead = true
is_dead _ = false

-- `accountIds.includes(stored.event.accountId)`; an event with no account is no one's.
abbrev pub allowed_account : List String → Option String → Bool
allowed_account accounts none = false
allowed_account accounts (some a) = includes accounts a

module _ {P : Type 0} where
  abbrev pub store_event : String → StoredOutboxEvent P → Outbox P → Outbox P
  store_event id stored s = record s { events = set id stored s.events }

  owned : String → String → Option (StoredOutboxEvent P) → Result OutboxError (StoredOutboxEvent P)
  owned id worker none = err (not_found id)
  owned id worker (some stored) =
      if is_processing stored.status && holds stored.locked_by worker
      then ok stored
      else err (not_leased id worker)

  unfoldable pub require_owned : String → String → Exec (Outbox P) OutboxError (StoredOutboxEvent P)
  unfolding owned
  require_owned id worker s = (owned id worker (lookup id s.events), s)

  unfoldable pub mark_processed :
      String → String → Timestamp → Exec (Outbox P) OutboxError (Unit {0})
  unfolding require_owned
  mark_processed id worker processed_at = do
    stored ← require_owned id worker
    modify (
        store_event id (record stored {
          status = processed;
          processed_at = some processed_at;
          locked_by = none;
          locked_until = none;
        }))

  released : String → StoredOutboxEvent P → StoredOutboxEvent P
  released error stored = record stored {
    last_error = some error;
    locked_by = none;
    locked_until = none;
  }

  -- The event after a failure: dead from the last attempt on, or due again at `retry_at`.
  unfoldable pub after_failure : String → Timestamp → ℕ → StoredOutboxEvent P → StoredOutboxEvent P
  unfolding released
  after_failure error retry_at max_attempts stored =
      let r = released error stored in
      if leb max_attempts stored.attempts
      then record r { status = dead }
      else record r { status = pending; event = record r.event { available_at = retry_at } }

  unfoldable pub mark_failed :
      String → String → String → Timestamp → ℕ → Exec (Outbox P) OutboxError OutboxStatus
  unfolding require_owned after_failure
  mark_failed id worker error retry_at max_attempts = do
    stored ← require_owned id worker
    modify (store_event id (after_failure error retry_at max_attempts stored))
    pure (after_failure error retry_at max_attempts stored).status

  dead_letter :
      String → List String → Option (StoredOutboxEvent P) → Result OutboxError (StoredOutboxEvent P)
  dead_letter id accounts none = err (dead_letter_not_found id)
  dead_letter id accounts (some stored) =
      if is_dead stored.status && allowed_account accounts stored.event.account_id
      then ok stored
      else err (dead_letter_not_found id)

  unfoldable pub requeue_dead :
      String → List String → Timestamp → Exec (Outbox P) OutboxError (Unit {0})
  unfolding dead_letter
  requeue_dead id accounts available_at = do
    stored ← λ s. (dead_letter id accounts (lookup id s.events), s)
    modify (
        store_event id (record stored {
          status = pending;
          attempts = 0;
          last_error = none;
          event = record stored.event { available_at = available_at };
        }))
