-- ===== src/Outbox.antt =====
-- The transactional outbox: packages/application/src/outbox.ts and its store
-- packages/infrastructure/src/inMemoryOutboxRepository.ts. A stored event is one object of the
-- map, changed in place by the repository alone.
pub mod Claim
pub mod Settle
pub mod Stats
pub mod Leases
pub mod Consistency
pub mod History
pub mod Exclusion
pub mod Processor
use eauto_ai.Prelude.{
  ℕ, String, Option, none, some, Bool, true, false, List, [], ◌∷◌, ◌++◌, includes, string_eq,
  if◌then◌else◌,
}
use eauto_ai.Prelude.Assoc.{Assoc, set}
use eauto_ai.Time.{Timestamp}

pub data OutboxStatus : Type 0 where
  pending processing processed dead : OutboxStatus

-- `P` is the type of the payloads.
pub record OutboxEventDraft (P : Type 0) : Type 0 where
  pub id : String
  pub idempotency_key : String
  pub aggregate_type : String
  pub aggregate_id : String
  pub account_id : Option String
  pub event_type : String
  pub payload : P
  pub available_at : Timestamp

pub record StoredOutboxEvent (P : Type 0) : Type 0 where
  pub event : OutboxEventDraft P
  pub status : OutboxStatus
  pub attempts : ℕ
  pub locked_by : Option String
  pub locked_until : Option Timestamp
  pub processed_at : Option Timestamp
  pub last_error : Option String
  pub created_at : ℕ

pub record Outbox (P : Type 0) : Type 0 where
  pub events : Assoc (StoredOutboxEvent P)
  pub idempotency_keys : List String

pub data OutboxError : Type 0 where
  not_found : String → OutboxError
  not_leased : String → String → OutboxError
  dead_letter_not_found : String → OutboxError
  no_handler : String → OutboxError
  handler_failed : String → OutboxError

abbrev pub empty : {P : Type 0} → Outbox P
empty = record { events = []; idempotency_keys = [] }

module _ {P : Type 0} where
  abbrev pub fresh : OutboxEventDraft P → ℕ → StoredOutboxEvent P
  fresh event now = record {
    event = event;
    status = pending;
    attempts = 0;
    locked_by = none;
    locked_until = none;
    processed_at = none;
    last_error = none;
    created_at = now;
  }

  -- `now` is the clock of the repository.
  unfoldable pub enqueue : OutboxEventDraft P → ℕ → Outbox P → Outbox P
  enqueue event now s = if includes s.idempotency_keys event.idempotency_key then s else record {
    events = set event.id (fresh event now) s.events;
    idempotency_keys = s.idempotency_keys ++ event.idempotency_key ∷ [];
  }
