-- ===== src/Collaboration/Totals.antt =====
-- A batch of the router accounts for every request that it leased.
use eauto_ai.Prelude.{ℕ, suc, ◌+◌, length, List, [], ◌∷◌, All, string_eq, ◌≡◌, refl, arith}
use eauto_ai.Prelude.Int.{ℤ}
use eauto_ai.Prelude.Result.{Result, ok, err}
use eauto_ai.Prelude.Result.Exec.{lift, Ends, Ends-imp, lift-Ends, bind-Ends}
use eauto_ai.Collaboration.{EvidenceRequest, CollaborationError}
use eauto_ai.Collaboration.Text.{bounded}
use eauto_ai.Collaboration.Router.{
  RouterWorld, RouterPorts, BatchCounts, read_clock, process, fail, caught, process_one,
  process_all, process_batch,
}
use eauto_ai.Collaboration.Backing.{IsHonest}
use eauto_ai.Collaboration.Trust.{Honest, process-Honest, fail-Honest, clock}

module _ (ports : RouterPorts) where
  -- The counts after `k` requests of a lease of `l`, in an honest world.
  abbrev pub IsCounted : ℕ → ℕ → BatchCounts → RouterWorld → Type 0
  IsCounted k l n t = (n.fulfilled + n.failed ≡ k) × (n.leased ≡ l) × Honest ports t

  caught-IsCounted :
      (k l : ℕ) (q : EvidenceRequest) (n : BatchCounts) (r : Result CollaborationError (Unit {0}))
      (w : RouterWorld)
      → (n.fulfilled + n.failed ≡ k) × (n.leased ≡ l)
      → Ends (Honest ports) (λ _ t. Honest ports t) (r, w)
      → Ends (Honest ports) (IsCounted (suc k) l) (caught ports q n r w)
  caught-IsCounted k l q n (ok u) w h i = (omega (arith, h), h.1, i)
  caught-IsCounted k l q n (err e) w h i =
      bind-Ends (Honest ports) (λ _ t. Honest ports t) (IsCounted (suc k) l) (fail ports q e) _ w
        (fail-Honest ports q e w i) (λ _ t i. (omega (arith, h), h.1, i))

  process_all-IsCounted :
      (qs : List EvidenceRequest) (k l : ℕ) (n : BatchCounts) (w : RouterWorld)
      → IsCounted k l n w
      → Ends (Honest ports) (IsCounted (k + length qs) l) (process_all ports qs n w)
  unfolding process_all
  process_all-IsCounted [] k l n w h = (omega (arith, h.0), h.1, h.2)
  process_all-IsCounted (q ∷ qs) k l n w h =
      bind-Ends (Honest ports) (IsCounted (suc k) l) (IsCounted (k + length (q ∷ qs)) l)
        (process_one ports q n) _ w
        (caught-IsCounted k l q n (process ports q w).0 (process ports q w).1 (h.0, h.1)
          (process-Honest ports q w h.2))
        λ n' t h'.
          Ends-imp (Honest ports) (IsCounted (suc k + length qs) l)
            (IsCounted (k + length (q ∷ qs)) l) (λ m s c. (omega (arith, c.0), c.1, c.2))
            (process_all ports qs n' t) (process_all-IsCounted qs (suc k) l n' t h')

-- Where all that is stored is honest, a batch leaves it so, whether it returns or throws: a response
-- is in the scope of its request, and one that calls itself complete has documents, misses nothing,
-- has a document of each required kind, and all its documents are fresh, not advisory and not yet
-- expired; an updated request keeps its scope and holds no lease. And a batch that returns counts each
-- leased request once, as fulfilled or as failed.
pub process_batch-IsHonest :
    (ports : RouterPorts) (limit : ℤ) (w : RouterWorld)
    → All IsHonest w.events
    → Ends
        (λ t. All IsHonest t.events)
        (λ n t. (n.fulfilled + n.failed ≡ n.leased) × All IsHonest t.events)
        (process_batch ports limit w)
unfolding process_batch
process_batch-IsHonest ports limit w i =
    let I = Honest ports in
    let R' = λ (n : BatchCounts) (t : RouterWorld). (n.fulfilled + n.failed ≡ n.leased) × I t in
    bind-Ends I (λ _ t. I t) R' (read_clock ports) _ w (clock ports w i)
      λ now t i.
        bind-Ends I (λ _ t. I t) R' (lift (bounded limit)) _ t
          (lift-Ends I (λ _ t. I t) (bounded limit) t i (λ _ _. i))
          λ count t i.
            bind-Ends I (λ _ t. I t) R'
              (lift (ports.lease ports.worker_id now (now + ports.lease_ms) count)) _ t
              (lift-Ends I (λ _ t. I t)
                (ports.lease ports.worker_id now (now + ports.lease_ms) count) t i (λ _ _. i))
              λ qs t i.
                Ends-imp I (IsCounted ports (0 + length qs) (length qs)) R'
                  (λ n s c. (omega (arith, c.0, c.1), c.2))
                  (process_all ports qs (record { leased = length qs; fulfilled = 0; failed = 0 })
                    t)
                  (process_all-IsCounted ports qs 0 (length qs)
                    (record { leased = length qs; fulfilled = 0; failed = 0 }) t
                    (omega arith, refl, i))
