-- ===== src/Outbox/Exclusion.antt =====
-- Who may touch a leased event, and what a batch holds.
use eauto_ai.Prelude.{
  ℕ, ◌≤◌, ◌<◌, String, Option, none, some, true, false, ◌≡◌, ◌≢◌, refl, sym, ap, ◌∙◌, ==_refl, map,
  All, All-imp, All-both, All-map, All-includes-map, length, length-take, length-map, includes,
  string_eq, arith, eq_iff, Bool-cases, inl, inr,
}
use mathlib.Core.Path.{subst}
use eauto_ai.Prelude.Result.{ok, err}
use eauto_ai.Prelude.Assoc.{lookup, lookup-adjust}
use mathlib.Core.Bool.{and-eq-true_iff}
use eauto_ai.Time.{Timestamp, at, IsReached, due-IsReached}
use eauto_ai.Outbox.{
  Outbox, OutboxStatus, pending, processing, processed, dead, StoredOutboxEvent, not_leased,
}
use eauto_ai.Outbox.Claim.{is_claimable, open_status, claimable, claim_batch, lease}
use eauto_ai.Outbox.Settle.{holds, mark_processed, mark_failed}
use eauto_ai.Outbox.Consistency.{IsGood-of_lookup, claim_batch-IsConsistent}
use eauto_ai.Outbox.Leases.{IsConsistent, IsEntry, claimable-All, claimed-is_claimable}

holds-eq_some : (o : Option String) (worker : String) → holds o worker ≡ true → o ≡ some worker
holds-eq_some none worker h = cc
holds-eq_some (some w) worker h = ap some ((eq_iff w worker).0 h)

other_owner : {o : Option String} {w v : String} → o ≡ some w → v ≢ w → o ≢ some v
other_owner h n k = n (some-injective (sym k ∙ h))
  where
    some-injective : {a b : String} → ◌≡◌ {A = Option String} (some a) (some b) → a ≡ b
    some-injective h = cc

-- The event waits, or is being processed under a lease whose end was reached.
abbrev pub IsOpen : OutboxStatus → Option Timestamp → ℕ → Type 0
IsOpen pending until now = Unit
IsOpen processing none now = ⊥
IsOpen processing (some t) now = IsReached t now
IsOpen _ until now = ⊥

open_status-IsOpen :
    (s : OutboxStatus) (until : Option Timestamp) (now : ℕ)
    → open_status s until now ≡ true
    → IsOpen s until now
open_status-IsOpen pending until now h = tt
open_status-IsOpen processing none now h = cc
open_status-IsOpen processing (some t) now h = due-IsReached t now h
open_status-IsOpen processed until now h = cc
open_status-IsOpen dead until now h = cc

is_claimable-IsOpen :
    {P : Type 0} (now : ℕ) (e : StoredOutboxEvent P)
    → is_claimable now e ≡ true
    → IsReached e.event.available_at now × IsOpen e.status e.locked_until now
unfolding is_claimable
is_claimable-IsOpen now e h =
    let (a, b) = (and-eq-true_iff _ _).0 h in
    (due-IsReached e.event.available_at now a, open_status-IsOpen e.status e.locked_until now b)

-- What a batch promises of one of its events.
pub record IsLeased {P : Type 0} (worker : String) (now : ℕ) (until : Timestamp)
    (s after : Outbox P) (e : StoredOutboxEvent P) : Type 0 where
  pub running : e.status ≡ processing
  pub owner : e.locked_by ≡ some worker
  pub deadline : e.locked_until ≡ some until
  pub stored : lookup e.event.id after.events ≡ some e
  pub before : StoredOutboxEvent P
  pub known : lookup e.event.id s.events ≡ some before
  pub available : IsReached before.event.available_at now
  pub claimable : IsOpen before.status before.locked_until now

module _ {P : Type 0} (s : Outbox P) (c : IsConsistent s) where
  claim_batch-keeps :
      (worker : String) (limit now : ℕ) (until : Timestamp) (id : String) (e : StoredOutboxEvent P)
      → lookup id s.events ≡ some e
      → is_claimable now e ≡ false
      → lookup id (claim_batch worker limit now until s).1.events ≡ some e
  unfolding claim_batch
  claim_batch-keeps worker limit now until id e here shut =
      rw (lookup-adjust, here)
        (elim (Bool-cases (includes (map (λ e. e.0) (claimable limit now s)) id)) [
          | inl taken ↦
              let (e', known, can) = claimed-is_claimable limit now s id c.unique taken in cc
          | inr left ↦ rw left
        ])

  -- While its lease runs, no call of `claimBatch`, by whichever worker, changes an event.
  pub claim_batch-keeps_held :
      (worker : String) (limit now : ℕ) (until : Timestamp) (id : String) (e : StoredOutboxEvent P)
      (deadline : ℕ)
      → lookup id s.events ≡ some e
      → e.status ≡ processing
      → e.locked_until ≡ some (at deadline)
      → now < deadline
      → lookup id (claim_batch worker limit now until s).1.events ≡ some e
  claim_batch-keeps_held worker limit now until id e deadline here running held early =
      claim_batch-keeps worker limit now until id e here (unfold is_claimable in ground arith)

  -- A batch has at most `limit` events; each was available before, and waiting or under a lease whose
  -- end was reached, is now leased to the worker until the given time, and is what the outbox stores
  -- under its id.
  pub claim_batch-IsLeased :
      (worker : String) (limit now : ℕ) (until : Timestamp)
      → let (batch, after) = claim_batch worker limit now until s in
        (length batch ≤ limit) × All (IsLeased worker now until s after) batch
  unfolding claim_batch
  claim_batch-IsLeased worker limit now until = (
    rw length-map (unfold claimable in length-take limit _),
    All-map _ _ (claimable limit now s) (
        All-imp _ _ leased (claimable limit now s) (
          All-both _ _ _ (claimable-All limit now s c.unique)
            (All-includes-map (λ e. e.0) (claimable limit now s)))),
  )
    where
      leased :
          (e : String × StoredOutboxEvent P)
          → (IsEntry s.events e × (is_claimable now e.1 ≡ true))
            × (includes (map (λ e. e.0) (claimable limit now s)) e.0 ≡ true)
          → IsLeased worker now until s
              (claim_batch worker limit now until s).1
              (lease worker until e.1)
      leased e ((here, can), mine) =
          let key : (e.1).event.id ≡ e.0 = (IsGood-of_lookup s e.0 c here).keyed in
          record {
            running = refl;
            owner = refl;
            deadline = refl;
            stored =
                subst
                  (λ k.
                    lookup k (claim_batch worker limit now until s).1.events
                    ≡ some (lease worker until e.1))
                  (sym key) (rw (lookup-adjust, here, mine));
            before = e.1;
            known = subst (λ k. lookup k s.events ≡ some e.1) (sym key) here;
            available = (is_claimable-IsOpen now e.1 can).0;
            claimable = (is_claimable-IsOpen now e.1 can).1;
          }

module _ {P : Type 0} where
  -- From a consistent outbox, two batches never share an event while the leases of the first run: a
  -- second batch, of whichever worker, leaves every event of the first as it is.
  pub claim_batch_twice :
      (s : Outbox P) (w v : String) (limit limit' now now' deadline : ℕ) (until : Timestamp)
      → IsConsistent s
      → now' < deadline
      → let (batch, held) = claim_batch w limit now (at deadline) s in
        let after = (claim_batch v limit' now' until held).1 in
        All (λ e. lookup e.event.id after.events ≡ some e) batch
  claim_batch_twice s w v limit limit' now now' deadline until c early =
      let held = (claim_batch w limit now (at deadline) s).1 in
      let still = claim_batch-IsConsistent w limit now (at deadline) s c in
      All-imp _ _
        (λ e l.
          claim_batch-keeps_held held still v limit' now' until e.event.id e deadline l.stored
            l.running l.deadline early)
        _ (claim_batch-IsLeased s c w limit now (at deadline)).1

  settle-refused :
      (id worker error : String) (t : Timestamp) (max_attempts : ℕ) (s : Outbox P)
      (e : StoredOutboxEvent P)
      → lookup id s.events ≡ some e
      → e.locked_by ≢ some worker
      → (mark_processed id worker t s ≡ (err (not_leased id worker), s))
        × (mark_failed id worker error t max_attempts s ≡ (err (not_leased id worker), s))
  unfolding mark_processed mark_failed
  settle-refused id worker error t max_attempts s e here other =
      ground (arith, holds-eq_some e.locked_by worker)

  settle-returns :
      (id worker : String) (t : Timestamp) (s : Outbox P) (e : StoredOutboxEvent P)
      → lookup id s.events ≡ some e
      → e.status ≡ processing
      → e.locked_by ≡ some worker
      → (mark_processed id worker t s).0 ≡ ok tt
  unfolding mark_processed
  settle-returns id worker t s e here running mine =
      rw (here, running, mine) (ground (arith, ==_refl worker))

  -- From a consistent outbox, while the leases of a worker's batch run, another worker that claims a
  -- batch as well can neither complete nor fail an event of the first batch: both calls throw, and
  -- the outbox stays as it is; the worker that leased the event completes it without an error.
  pub claim_batch-settle :
      (s : Outbox P) (w v error : String) (limit limit' now now' deadline max_attempts : ℕ)
      (until t : Timestamp)
      → IsConsistent s
      → now' < deadline
      → v ≢ w
      → let (batch, held) = claim_batch w limit now (at deadline) s in
        let after = (claim_batch v limit' now' until held).1 in
        All
          (λ e.
            (mark_processed e.event.id v t after ≡ (err (not_leased e.event.id v), after))
            × (mark_failed e.event.id v error t max_attempts after
                ≡ (err (not_leased e.event.id v), after))
            × ((mark_processed e.event.id w t after).0 ≡ ok tt))
          batch
  claim_batch-settle s w v error limit limit' now now' deadline max_attempts until t c early other =
      let batch = (claim_batch w limit now (at deadline) s).0 in
      let held = (claim_batch w limit now (at deadline) s).1 in
      let after = (claim_batch v limit' now' until held).1 in
      All-imp _ _
        (λ e (l, here).
          let (a, b) =
            settle-refused e.event.id v error t max_attempts after e here
              (other_owner l.owner other) in
          (a, b, settle-returns e.event.id w t after e here l.running l.owner))
        batch
        (All-both _ _ batch (claim_batch-IsLeased s c w limit now (at deadline)).1
          (claim_batch_twice s w v limit limit' now now' deadline until c early))
