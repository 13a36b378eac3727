-- ===== src/Outbox/Consistency.antt =====
-- Every operation of the outbox keeps its stored events consistent, whatever the order of the calls
-- and whichever workers make them: each call is one atomic step on the map.
use eauto_ai.Prelude.{
  ℕ, String, Option, none, some, ◌≡◌, inl, inr, List, map, includes, string_eq, arith, eq_iff,
  Bool-cases, Option-cases, ◌==◌, ◌&&◌,
}
use mathlib.Core.Option
use eauto_ai.Prelude.Assoc.{
  lookup, set, lookup-set, lookup-adjust, set-HasUniqueKeys, adjust-HasUniqueKeys,
}
use eauto_ai.Time.{Timestamp}
use eauto_ai.Outbox.{Outbox, OutboxEventDraft, StoredOutboxEvent, enqueue, empty, fresh}
use eauto_ai.Outbox.Claim.{claimable, claim_batch, lease_claimed}
use eauto_ai.Outbox.Settle.{
  is_processing, mark_processed, mark_failed, requeue_dead, store_event, holds, is_dead,
  allowed_account,
}
use eauto_ai.Outbox.Leases.{IsGood, IsGoodAt, IsConsistent}

module _ {P : Type 0} where
  set-IsGoodAt :
      (s : Outbox P) (id : String) (e : StoredOutboxEvent P)
      → IsConsistent s
      → IsGood id e
      → (j : String) → IsGoodAt j (lookup j (set id e s.events))
  set-IsGoodAt s id e c g j = elim (Bool-cases (id == j)) [
    | inl same ↦ rw (lookup-set id j e s.events, same) (rw (← (eq_iff id j).0 same) g)
    | inr other ↦ rw (lookup-set id j e s.events, other) (c.good j)
  ]

  pub enqueue-IsConsistent :
      (event : OutboxEventDraft P) (now : ℕ) (s : Outbox P)
      → IsConsistent s
      → IsConsistent (enqueue event now s)
  unfolding enqueue
  enqueue-IsConsistent event now s c =
      elim (Bool-cases (includes s.idempotency_keys event.idempotency_key)) [
        | inl old ↦ rw old c
        | inr new ↦ rw new (record {
          unique = set-HasUniqueKeys _ _ _ c.unique;
          good = set-IsGoodAt s event.id (fresh event now) c (ground arith);
        })
      ]

  pub claim_batch-IsConsistent :
      (worker : String) (limit now : ℕ) (until : Timestamp) (s : Outbox P)
      → IsConsistent s
      → IsConsistent (claim_batch worker limit now until s).1
  unfolding claim_batch
  claim_batch-IsConsistent worker limit now until s c = record {
    unique = adjust-HasUniqueKeys _ _ c.unique;
    good = λ id. rw lookup-adjust (leased id (lookup id s.events) (c.good id));
  }
    where
      leased :
          (id : String) (o : Option (StoredOutboxEvent P))
          → IsGoodAt id o
          → IsGoodAt id (
              Option.map (lease_claimed (map (λ e. e.0) (claimable limit now s)) worker until id) o)
      leased id none h = tt
      leased id (some e) h =
          elim (Bool-cases (includes (map (λ e. e.0) (claimable limit now s)) id)) [
            | inl mine ↦ rw mine (ground arith)
            | inr other ↦ rw other h
          ]

  store_event-IsConsistent :
      (s : Outbox P) (id : String) (e : StoredOutboxEvent P)
      → IsConsistent s
      → IsGood id e
      → IsConsistent (store_event id e s)
  store_event-IsConsistent s id e c g = record {
    unique = set-HasUniqueKeys id e s.events c.unique;
    good = set-IsGoodAt s id e c g;
  }

  pub IsGood-of_lookup :
      (s : Outbox P) (id : String) {e : StoredOutboxEvent P}
      → IsConsistent s
      → lookup id s.events ≡ some e
      → IsGood id e
  IsGood-of_lookup s id c h = rw h at (c.good id)

  pub mark_processed-IsConsistent :
      (id worker : String) (t : Timestamp) (s : Outbox P)
      → IsConsistent s
      → IsConsistent (mark_processed id worker t s).1
  unfolding mark_processed
  mark_processed-IsConsistent id worker t s c = elim (Option-cases (lookup id s.events)) [
    | inl absent ↦ rw absent c
    | inr (e, here) ↦
        rw here (elim (Bool-cases (is_processing e.status && holds e.locked_by worker)) [
          | inl mine ↦
              rw mine
                (store_event-IsConsistent s id _ c (ground (arith, IsGood-of_lookup s id c here)))
          | inr other ↦ rw other c
        ])
  ]

  pub mark_failed-IsConsistent :
      (id worker error : String) (t : Timestamp) (max_attempts : ℕ) (s : Outbox P)
      → IsConsistent s
      → IsConsistent (mark_failed id worker error t max_attempts s).1
  unfolding mark_failed
  mark_failed-IsConsistent id worker error t max_attempts s c =
      elim (Option-cases (lookup id s.events)) [
        | inl absent ↦ rw absent c
        | inr (e, here) ↦
            rw here (elim (Bool-cases (is_processing e.status && holds e.locked_by worker)) [
              | inl mine ↦
                  rw mine (
                    store_event-IsConsistent s id _ c
                      (ground (arith, IsGood-of_lookup s id c here)))
              | inr other ↦ rw other c
            ])
      ]

  pub requeue_dead-IsConsistent :
      (id : String) (accounts : List String) (t : Timestamp) (s : Outbox P)
      → IsConsistent s
      → IsConsistent (requeue_dead id accounts t s).1
  unfolding requeue_dead
  requeue_dead-IsConsistent id accounts t s c = elim (Option-cases (lookup id s.events)) [
    | inl absent ↦ rw absent c
    | inr (e, here) ↦
        rw here
          (elim (Bool-cases (is_dead e.status && allowed_account accounts e.event.account_id)) [
            | inl mine ↦
                rw mine
                  (store_event-IsConsistent s id _ c (ground (arith, IsGood-of_lookup s id c here)))
            | inr other ↦ rw other c
          ])
  ]

  pub empty-IsConsistent : IsConsistent (empty {P = P})
  unfolding lookup
  empty-IsConsistent = record { unique = tt; good = λ id. tt }
