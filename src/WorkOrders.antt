-- ===== src/WorkOrders.antt =====
-- The rules of a work order: `assertUsableEvidencePack` of
-- packages/domain/src/operationalIntelligence.ts and packages/agent-kernel/src/wakePolicy.ts. The
-- numbers of a signal and of a utility are fractions in double precision: their type and its
-- operations come from outside.
pub mod Service
pub mod Evidence
pub mod Wake
pub mod Governed
use eauto_ai.Prelude.{
  ℕ, String, Option, none, some, Bool, true, false, not, ◌&&◌, ◌||◌, List, [], ◌∷◌, any, string_eq,
  ◌==◌, ltb, if◌then◌else◌,
}
use eauto_ai.Prelude.Int.{ℤ}
use eauto_ai.Prelude.Strings.{is_blank}
use eauto_ai.Prelude.Result.{Result, ok, err}
use eauto_ai.Prelude.Result.Pure.{◌>>=◌, ◌>>◌, throw_if}
use eauto_ai.Time.{Timestamp, at, unreadable, due}
use eauto_ai.Action.{EvidenceFreshness, fresh}
use eauto_ai.Collaboration.{
  EvidenceSubject, EvidenceAuthority, advisory, EvidenceDocument, is_empty,
}

pub record OperationalEvidencePack : Type 0 where
  pub id : String
  pub organization_id : String
  pub account_id : String
  pub purpose : String
  pub subject : EvidenceSubject
  pub generated_at : ℕ
  pub expires_at : Timestamp
  pub documents : List EvidenceDocument
  pub complete : Bool
  pub missing_inputs : List String
  pub content_hash : String

pub data WorkOrderStatus : Type 0 where
  queued processing waiting_evidence waiting_approval : WorkOrderStatus
  completed failed dead skipped : WorkOrderStatus

pub data LlmTaskClass : Type 0 where
  classification extraction summarization planning analysis critical_review : LlmTaskClass

pub data OrderError : Type 0 where
  unknown_agent not_allowed forbidden no_pack pack_scope : OrderError
  pack_incomplete pack_expired document_invalid instruction_short : OrderError
  not_non_negative not_positive : (field : String) → OrderError
  outside : (message : String) → OrderError

-- `!kind || kind.trim().length === 0`
abbrev pub is_unnamed : Option String → Bool
is_unnamed none = true
is_unnamed (some kind) = is_blank kind

abbrev pub is_advisory : EvidenceAuthority → Bool
is_advisory advisory = true
is_advisory _ = false

abbrev pub is_fresh : EvidenceFreshness → Bool
is_fresh fresh = true
is_fresh _ = false

abbrev pub is_invalid : ℕ → EvidenceDocument → Bool
is_invalid now d =
    is_unnamed d.kind
    || (is_advisory d.authority || (due d.expires_at now || not (is_fresh d.reference.freshness)))

unfoldable pub assert_usable_evidence_pack :
    OperationalEvidencePack → ℕ → Result OrderError (Unit {0})
assert_usable_evidence_pack pack now = do
  throw_if (not pack.complete || (is_empty pack.documents || not (is_empty pack.missing_inputs)))
      pack_incomplete
  throw_if (due pack.expires_at now) pack_expired
  throw_if (any (is_invalid now) pack.documents) document_invalid

-- The numbers of double precision that a utility is computed with.
pub record Doubles : Type 1 where
  pub Double : Type 0
  pub zero : Double
  pub add : Double → Double → Double
  pub subtract : Double → Double → Double
  pub multiply : Double → Double → Double
  -- `x <= 0`
  pub is_at_most_zero : Double → Bool

pub data WakeReason : Type 0 where
  manual new_signals cooldown unchanged negative_utility : WakeReason

module _ (D : Doubles) where
  pub data MaterialValue : Type 0 where
    text : String → MaterialValue
    number : D.Double → MaterialValue
    flag : Bool → MaterialValue
    null : MaterialValue

  pub record Signal : Type 0 where
    pub kind : String
    pub entity_id : String
    pub observed_at : Timestamp
    pub material_value : MaterialValue
    pub urgency : D.Double
    pub expected_impact : D.Double
    pub confidence : D.Double

  pub record WakeDecision : Type 0 where
    pub should_wake : Bool
    pub reason : WakeReason
    pub signals_hash : String
    pub expected_utility : D.Double

  abbrev pub total_utility : D.Double → List Signal → D.Double
  total_utility total [] = total
  total_utility total (s ∷ signals) =
      total_utility (D.add total (D.multiply (D.multiply s.urgency s.expected_impact) s.confidence))
        signals

  -- `Date.parse(cooldownUntil) > Date.parse(now)`
  abbrev pub is_cooling : Option Timestamp → ℕ → Bool
  is_cooling none now = false
  is_cooling (some (at t)) now = ltb now t
  is_cooling (some unreadable) now = false

  abbrev pub is_same_hash : Option String → String → Bool
  is_same_hash none hash = false
  is_same_hash (some previous) hash = previous == hash

  abbrev pub decision : Bool → WakeReason → String → D.Double → WakeDecision
  decision wake reason hash utility = record {
    should_wake = wake;
    reason = reason;
    signals_hash = hash;
    expected_utility = utility;
  }

  -- The hash is the one of the sorted signals.
  unfoldable pub decide_wake :
      (hash : String)
      → List Signal
      → (previous : Option String) (cooldown_until : Option Timestamp) (now : ℕ)
      → (estimated_cost : D.Double) (is_manual : Bool) → WakeDecision
  decide_wake hash signals previous cooldown_until now cost is_manual =
      let utility = D.subtract (total_utility D.zero signals) cost in
      if is_manual
      then decision true manual hash utility
      else if is_cooling cooldown_until now
      then decision false cooldown hash utility
      else if is_same_hash previous hash
      then decision false unchanged hash utility
      else if D.is_at_most_zero utility
      then decision false negative_utility hash utility
      else decision true new_signals hash utility
