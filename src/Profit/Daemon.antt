-- ===== src/Profit/Daemon.antt =====
-- `MarginAuditDaemon` of packages/application/src/marginAuditDaemon.ts. The clock, the queue of
-- candidates and the store of findings come from outside and may throw. A failure keeps the error
-- itself; the text that `sanitizeError` makes of it is not modelled.
use eauto_ai.Prelude.{
  ℕ, suc, ◌+◌, String, ◌||◌, List, [], ◌∷◌, ◌++◌, length, ◌!=◌, string_eq, if◌then◌else◌,
}
use eauto_ai.Prelude.Int.{ℤ, pos, is_safe}
use eauto_ai.Prelude.Result.{Result, ok, err}
use eauto_ai.Prelude.Result.Exec.{Exec, pure, lift, ◌>>=◌, ◌>>◌}
use eauto_ai.Profit.{
  ProfitabilitySnapshot, incomplete, complete, profitable, below_floor, loss, ProfitError, outside,
}
use eauto_ai.Profit.Rounding.{Rounding}
use eauto_ai.Profit.Service.{Ports, Effect, audit_listing}
use eauto_ai.Profit.Scope.{account_of, listing_of}

pub record MarginAuditCandidate : Type 0 where
  pub organization_id : String
  pub account_id : String
  pub listing_id : String

pub data MarginAuditSeverity : Type 0 where
  none warning critical blocked : MarginAuditSeverity

-- The status of a finding is the one of its snapshot.
pub record MarginAuditFinding : Type 0 where
  pub organization_id : String
  pub account_id : String
  pub listing_id : String
  pub severity : MarginAuditSeverity
  pub observed_at : ℕ
  pub snapshot : ProfitabilitySnapshot

pub record MarginAuditDaemonOptions : Type 0 where
  pub worker_id : String
  pub lease_ms : ℕ
  pub success_interval_ms : ℕ
  pub retry_interval_ms : ℕ

-- The clock by the number of readings before.
pub record AuditPorts : Type 0 where
  pub profit : Ports
  pub now : ℕ → ℕ
  pub claim :
      (owner : String) (now lease_until limit : ℕ) → Result ProfitError (List MarginAuditCandidate)
  pub save : MarginAuditFinding → Result ProfitError (Unit {0})
  pub complete :
      MarginAuditCandidate → (owner : String) (next_audit_at : ℕ) → Result ProfitError (Unit {0})
  pub fail :
      MarginAuditCandidate
      → (owner : String) (retry_at : ℕ) → ProfitError
      → Result ProfitError (Unit {0})

pub data AuditEvent : Type 0 where
  finding_saved : MarginAuditFinding → AuditEvent
  completed : MarginAuditCandidate → (next_audit_at : ℕ) → AuditEvent
  failed : MarginAuditCandidate → (retry_at : ℕ) → ProfitError → AuditEvent

-- What has happened outside: the effects of the profit engine, the events of the daemon and the
-- readings of the clock.
pub record World : Type 0 where
  pub effects : List Effect
  pub events : List AuditEvent
  pub readings : ℕ

pub record AuditCounts : Type 0 where
  pub leased : ℕ
  pub audited : ℕ
  pub findings : ℕ
  pub failed : ℕ

abbrev pub severity_of : ProfitabilitySnapshot → MarginAuditSeverity
severity_of (incomplete s) = blocked
severity_of (complete c) = elim c.status [
  | loss ↦ critical
  | below_floor ↦ warning
  | profitable ↦ none
]

unfoldable pub create_margin_audit_finding :
    MarginAuditCandidate → ProfitabilitySnapshot → ℕ → Result ProfitError MarginAuditFinding
create_margin_audit_finding candidate snapshot observed_at =
    if account_of snapshot != candidate.account_id || listing_of snapshot != candidate.listing_id
    then err (outside "Profitability snapshot is outside the leased margin-audit scope.")
    else ok (record {
      organization_id = candidate.organization_id;
      account_id = candidate.account_id;
      listing_id = candidate.listing_id;
      severity = severity_of snapshot;
      observed_at = observed_at;
      snapshot = snapshot;
    })

-- A call of the queue or of the store of findings, and its event where it does not throw.
abbrev pub record_event :
    Result ProfitError (Unit {0}) → AuditEvent → Exec World ProfitError (Unit {0})
record_event (ok u) event w = (ok u, record w { events = w.events ++ event ∷ [] })
record_event (err thrown) event w = (err thrown, w)

-- A call of the profit engine.
abbrev pub in_profit : {A : Type 0} → Exec (List Effect) ProfitError A → Exec World ProfitError A
in_profit m w = let (r, done) = m w.effects in (r, record w { effects = done })

abbrev pub bad_limit : ProfitError
bad_limit = outside "Margin audit limit must be a positive safe integer."

-- `limit`, where it is a positive safe integer.
abbrev pub checked_limit : ℤ → Result ProfitError ℕ
checked_limit (pos (suc n)) = if is_safe (pos (suc n)) then ok (suc n) else err bad_limit
checked_limit _ = err bad_limit

-- `if (finding.severity !== "none") findingCount += 1`
abbrev pub count_finding : MarginAuditSeverity → ℕ → ℕ
count_finding none n = n
count_finding severity n = suc n

abbrev pub count_audited : MarginAuditFinding → AuditCounts → AuditCounts
count_audited finding n = record n {
  audited = suc n.audited;
  findings = count_finding finding.severity n.findings;
}

module _ (R : Rounding) (ports : AuditPorts) (options : MarginAuditDaemonOptions) where
  -- `this.options.now()`
  unfoldable pub read_clock : Exec World ProfitError ℕ
  read_clock w = (ok (ports.now w.readings), record w { readings = suc w.readings })

  -- The body of the `try`.
  unfoldable pub audit_candidate : MarginAuditCandidate → Exec World ProfitError MarginAuditFinding
  audit_candidate candidate = do
    snapshot ← in_profit (audit_listing R ports.profit candidate.account_id candidate.listing_id)
    observed_at ← read_clock
    finding ← lift (create_margin_audit_finding candidate snapshot observed_at)
    record_event (ports.save finding) (finding_saved finding)
    now ← read_clock
    record_event (ports.complete candidate options.worker_id (now + options.success_interval_ms))
        (completed candidate (now + options.success_interval_ms))
    pure finding

  -- The `catch`, or the counts where nothing was thrown.
  abbrev pub caught :
      MarginAuditCandidate
      → AuditCounts
      → Result ProfitError MarginAuditFinding
      → Exec World ProfitError AuditCounts
  caught candidate n (ok finding) = pure (count_audited finding n)
  caught candidate n (err thrown) = do
    now ← read_clock
    record_event (ports.fail candidate options.worker_id (now + options.retry_interval_ms) thrown)
        (failed candidate (now + options.retry_interval_ms) thrown)
    pure (record n { failed = suc n.failed })

  abbrev pub audit_one : MarginAuditCandidate → AuditCounts → Exec World ProfitError AuditCounts
  audit_one candidate n w = let (r, w') = audit_candidate candidate w in caught candidate n r w'

  unfoldable pub audit_all :
      List MarginAuditCandidate → AuditCounts → Exec World ProfitError AuditCounts
  audit_all [] n = pure n
  audit_all (candidate ∷ candidates) n = do n' ← audit_one candidate n; audit_all candidates n'

  unfoldable pub run_once : ℤ → Exec World ProfitError AuditCounts
  run_once limit = do
    count ← lift (checked_limit limit)
    now ← read_clock
    leased ← lift (ports.claim options.worker_id now (now + options.lease_ms) count)
    audit_all leased (record { leased = length leased; audited = 0; findings = 0; failed = 0 })
