-- ===== src/Outbox/Claim.antt =====
-- `claimBatch`: what may be claimed, in the order of creation, and the lease that it gets.
use eauto_ai.Prelude.{
  ℕ, ◌+◌, String, Option, none, some, Bool, true, false, ◌&&◌, List, [], ◌∷◌, map, ltb, filter,
  take, includes, string_eq, if◌then◌else◌,
}
use eauto_ai.Prelude.Assoc.{Assoc, adjust}
use eauto_ai.Time.{Timestamp, due}
use eauto_ai.Outbox.{Outbox, StoredOutboxEvent, OutboxStatus, pending, processing, processed, dead}

-- A lease of which the code still waits the end; none at all counts as held.
abbrev pub lapsed : Option Timestamp → ℕ → Bool
lapsed none now = false
lapsed (some t) now = due t now

abbrev pub open_status : OutboxStatus → Option Timestamp → ℕ → Bool
open_status pending until now = true
open_status processing until now = lapsed until now
open_status processed until now = false
open_status dead until now = false

module _ {P : Type 0} where
  unfoldable pub is_claimable : ℕ → StoredOutboxEvent P → Bool
  is_claimable now stored =
      due stored.event.available_at now && open_status stored.status stored.locked_until now

  -- `sort` by the time of creation is stable.
  unfoldable pub insert_by_age :
      String × StoredOutboxEvent P → Assoc (StoredOutboxEvent P) → Assoc (StoredOutboxEvent P)
  insert_by_age e [] = e ∷ []
  insert_by_age e (f ∷ fs) =
      if ltb (f.1).created_at (e.1).created_at then f ∷ insert_by_age e fs else e ∷ f ∷ fs

  unfoldable pub by_age : Assoc (StoredOutboxEvent P) → Assoc (StoredOutboxEvent P)
  by_age [] = []
  by_age (e ∷ es) = insert_by_age e (by_age es)

  unfoldable pub claimable : ℕ → ℕ → Outbox P → Assoc (StoredOutboxEvent P)
  claimable limit now s = take limit (by_age (filter (λ e. is_claimable now e.1) s.events))

  abbrev pub lease : String → Timestamp → StoredOutboxEvent P → StoredOutboxEvent P
  lease worker until stored = record stored {
    status = processing;
    attempts = stored.attempts + 1;
    locked_by = some worker;
    locked_until = some until;
  }

  abbrev pub lease_claimed :
      List String → String → Timestamp → String → StoredOutboxEvent P → StoredOutboxEvent P
  lease_claimed ids worker until id stored =
      if includes ids id then lease worker until stored else stored

  -- The batch holds the events as they are after the lease.
  unfoldable pub claim_batch :
      String → ℕ → ℕ → Timestamp → Outbox P → List (StoredOutboxEvent P) × Outbox P
  claim_batch worker limit now until s =
      let batch = claimable limit now s in
      (
        map (λ e. lease worker until e.1) batch,
        record s { events = adjust (lease_claimed (map (λ e. e.0) batch) worker until) s.events },
      )
