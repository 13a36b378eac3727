-- ===== src/Profit/Audit.antt =====
-- One round of the audit daemon settles every candidate that it leased.
use eauto_ai.Prelude.{
  ℕ, suc, ◌+◌, ◌≤◌, true, List, [], ◌∷◌, ◌++◌, length, ◌≡◌, refl, ap, sym, ◌∙◌, arith,
}
use eauto_ai.Prelude.Int.{pos, max_safe, is_safe}
use eauto_ai.Prelude.Result.{Result, ok, err}
use eauto_ai.Prelude.Result.Exec.{lift, Ends, lift-Ends, bind-Ends}
use eauto_ai.Profit.{ProfitError}
use eauto_ai.Profit.Rounding.{Rounding}
use eauto_ai.Profit.Service.{audit_listing}
use eauto_ai.Profit.Daemon.{
  MarginAuditCandidate, MarginAuditFinding, MarginAuditDaemonOptions, AuditPorts, AuditEvent,
  finding_saved, completed, failed, World, AuditCounts, MarginAuditSeverity, none, count_finding,
  create_margin_audit_finding, record_event, in_profit, read_clock, audit_candidate, count_audited,
  caught, audit_all, run_once,
}

-- The candidates that were given back to the queue, in order.
abbrev pub settled : List AuditEvent → List MarginAuditCandidate
settled [] = []
settled (finding_saved f ∷ es) = settled es
settled (completed c t ∷ es) = c ∷ settled es
settled (failed c t e ∷ es) = c ∷ settled es

settled-append : (es fs : List AuditEvent) → settled (es ++ fs) ≡ settled es ++ settled fs
settled-append [] fs = refl
settled-append (finding_saved f ∷ es) fs = settled-append es fs
settled-append (completed c t ∷ es) fs = ap (λ x. c ∷ x) (settled-append es fs)
settled-append (failed c t e ∷ es) fs = ap (λ x. c ∷ x) (settled-append es fs)

append_nil : (xs : List MarginAuditCandidate) → xs ++ [] ≡ xs
append_nil [] = refl
append_nil (x ∷ xs) = ap (λ t. x ∷ t) (append_nil xs)

append_assoc : (xs ys zs : List MarginAuditCandidate) → (xs ++ ys) ++ zs ≡ xs ++ (ys ++ zs)
append_assoc [] ys zs = refl
append_assoc (x ∷ xs) ys zs = ap (λ t. x ∷ t) (append_assoc xs ys zs)

within : (s : MarginAuditSeverity) (a b : ℕ) → a ≤ b → count_finding s a ≤ suc b
within none a b h = omega arith
within MarginAuditSeverity.warning a b h = omega arith
within MarginAuditSeverity.critical a b h = omega arith
within MarginAuditSeverity.blocked a b h = omega arith

module _ (R : Rounding) (ports : AuditPorts) (options : MarginAuditDaemonOptions) where
  abbrev Has : List MarginAuditCandidate → World → Type 0
  Has xs w = settled w.events ≡ xs

  -- An event that gives no candidate back, and one that does.
  kept :
      (xs : List MarginAuditCandidate) (r : Result ProfitError (Unit {0})) (f : MarginAuditFinding)
      (w : World)
      → Has xs w
      → Ends (Has xs) (λ _ t. Has xs t) (record_event r (finding_saved f) w)
  kept xs (ok u) f w h =
      settled-append w.events (finding_saved f ∷ []) ∙ append_nil (settled w.events) ∙ h
  kept xs (err e) f w h = h

  given_back :
      (xs : List MarginAuditCandidate) (r : Result ProfitError (Unit {0}))
      (c : MarginAuditCandidate) (t : ℕ) (w : World)
      → Has xs w
      → Ends (Has xs) (λ _ t. Has (xs ++ c ∷ []) t) (record_event r (completed c t) w)
  given_back xs (ok u) c t w h =
      settled-append w.events (completed c t ∷ []) ∙ ap (λ ys. ys ++ c ∷ []) h
  given_back xs (err e) c t w h = h

  clock :
      (xs : List MarginAuditCandidate) (w : World)
      → Has xs w
      → Ends (Has xs) (λ _ t. Has xs t) (read_clock R ports options w)
  unfolding read_clock
  clock xs w h = h

  -- An audit gives the candidate back exactly where it does not throw.
  audit_candidate-Has :
      (xs : List MarginAuditCandidate) (c : MarginAuditCandidate) (w : World)
      → Has xs w
      → Ends (Has xs) (λ _ t. Has (xs ++ c ∷ []) t) (audit_candidate R ports options c w)
  unfolding audit_candidate
  audit_candidate-Has xs c w h =
      let R' = λ (f : MarginAuditFinding) (t : World). Has (xs ++ c ∷ []) t in
      bind-Ends (Has xs) (λ _ t. Has xs t) R'
        (in_profit (audit_listing R ports.profit c.account_id c.listing_id)) _ w
        (lift-Ends (Has xs) (λ _ t. Has xs t) _ _ h (λ _ _. h))
        λ s t i.
          bind-Ends (Has xs) (λ _ t. Has xs t) R' (read_clock R ports options) _ t (clock xs t i)
            λ now t i.
              bind-Ends (Has xs) (λ _ t. Has xs t) R' (lift (create_margin_audit_finding c s now)) _
                t
                (lift-Ends (Has xs) (λ _ t. Has xs t) (create_margin_audit_finding c s now) t i
                  (λ _ _. i))
                λ f t i.
                  bind-Ends (Has xs) (λ _ t. Has xs t) R'
                    (record_event (ports.save f) (finding_saved f)) _ t
                    (kept xs (ports.save f) f t i)
                    λ _ t i.
                      bind-Ends (Has xs) (λ _ t. Has xs t) R' (read_clock R ports options) _ t
                        (clock xs t i)
                        λ now t i.
                          bind-Ends (Has xs) (λ _ t. Has (xs ++ c ∷ []) t) R'
                            (record_event
                              (ports.complete c options.worker_id
                                (now + options.success_interval_ms))
                              (completed c (now + options.success_interval_ms)))
                            _ t (given_back xs _ c _ t i) λ _ t i. i

  -- The counts after `k` candidates of a lease of `l`.
  abbrev pub IsCounted : ℕ → ℕ → AuditCounts → Type 0
  IsCounted k l n = (n.audited + n.failed ≡ k) × (n.findings ≤ n.audited) × (n.leased ≡ l)

  module _
      (accepts : (c : MarginAuditCandidate) (t : ℕ) (e : ProfitError)
        → ports.fail c options.worker_id t e ≡ ok tt) where
    -- Whatever an audit ends with, the counts go up by one candidate, which is given back.
    caught-Has :
        (xs : List MarginAuditCandidate) (c : MarginAuditCandidate) (k l : ℕ) (n : AuditCounts)
        (r : Result ProfitError MarginAuditFinding) (w : World)
        → IsCounted k l n
        → Ends (Has xs) (λ (_ : MarginAuditFinding) t. Has (xs ++ c ∷ []) t) (r, w)
        → (n' : AuditCounts) × (w' : World) × (caught R ports options c n r w ≡ (ok n', w'))
          × IsCounted (suc k) l n'
          × Has (xs ++ c ∷ []) w'
    unfolding read_clock
    caught-Has xs c k l n (ok f) w h e = (count_audited f n, w, refl, counted f n h, e)
      where
        counted :
            (f : MarginAuditFinding) (n : AuditCounts)
            → IsCounted k l n
            → IsCounted (suc k) l (count_audited f n)
        counted f n h = (omega (arith, h), within f.severity n.findings n.audited h.1, h.2)
    caught-Has xs c k l n (err e) w h i =
        let now = ports.now w.readings in
        let again = now + options.retry_interval_ms in
        let t : World = record w { readings = suc w.readings } in
        (
          record n { failed = suc n.failed },
          record t { events = t.events ++ failed c again e ∷ [] },
          rw (accepts c again e) refl,
          (omega (arith, h), h.1, h.2),
          settled-append w.events (failed c again e ∷ []) ∙ ap (λ ys. ys ++ c ∷ []) i,
        )

    audit_all-Has :
        (xs cs : List MarginAuditCandidate) (k l : ℕ) (n : AuditCounts) (w : World)
        → IsCounted k l n
        → Has xs w
        → (n' : AuditCounts) × (w' : World) × (audit_all R ports options cs n w ≡ (ok n', w'))
          × IsCounted (k + length cs) l n'
          × Has (xs ++ cs) w'
    unfolding audit_all
    audit_all-Has xs [] k l n w h i =
        (n, w, refl, (omega (arith, h), h.1, h.2), i ∙ sym (append_nil xs))
    audit_all-Has xs (c ∷ cs) k l n w h i =
        let (n1, w1, one, h1, i1) =
          caught-Has xs c k l n (audit_candidate R ports options c w).0
            (audit_candidate R ports options c w).1 h (audit_candidate-Has xs c w i) in
        let (n2, w2, all, h2, i2) = audit_all-Has (xs ++ c ∷ []) cs (suc k) l n1 w1 h1 i1 in
        (n2, w2, rw one all, (omega (arith, h2), h2.1, h2.2), i2 ∙ append_assoc xs (c ∷ []) cs)

-- If the queue accepts every failure, a round with a positive limit returns whatever the profit
-- engine and the other ports answer: every leased candidate is given back once, in order, as
-- completed or as failed; the audited and the failed ones add up to the leased ones, and there are
-- no more findings than audits.
pub run_once-settled :
    (R : Rounding) (ports : AuditPorts) (options : MarginAuditDaemonOptions) (limit : ℕ) (w : World)
    (leased : List MarginAuditCandidate)
    → ((c : MarginAuditCandidate) (t : ℕ) (e : ProfitError)
        → ports.fail c options.worker_id t e ≡ ok tt)
    → suc limit ≤ max_safe
    → ports.claim options.worker_id
        (ports.now w.readings)
        (ports.now w.readings + options.lease_ms)
        (suc limit)
      ≡ ok leased
    → (n : AuditCounts) × (w' : World) × (run_once R ports options (pos (suc limit)) w ≡ (ok n, w'))
      × (settled w'.events ≡ settled w.events ++ leased)
      × (n.leased ≡ length leased)
      × (n.audited + n.failed ≡ length leased)
      × (n.findings ≤ n.audited)
unfolding run_once read_clock
run_once-settled R ports options limit w leased accepts safe claimed =
    let start : AuditCounts = record {
      leased = length leased;
      audited = 0;
      findings = 0;
      failed = 0;
    } in
    let t : World = record w { readings = suc w.readings } in
    let (n, w', all, h, i) =
      audit_all-Has R ports options accepts (settled w.events) leased 0 (length leased) start t
        (omega arith, omega arith, refl) refl in
    let low : is_safe (pos (suc limit)) ≡ true = ground arith in
    (n, w', rw low (rw claimed all), i, h.2, omega (arith, h.0), h.1)
