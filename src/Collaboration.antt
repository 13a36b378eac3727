-- ===== src/Collaboration.antt =====
-- Evidence requests and shared memory of the agents: packages/domain/src/agentCollaboration.ts, with
-- the documents of packages/domain/src/operationalIntelligence.ts. A payload is kept as its JSON text.
pub mod Text
pub mod Compose
pub mod Memory
pub mod Entry
pub mod Recall
pub mod Admission
pub mod Router
pub mod Backing
pub mod Trust
pub mod Totals
use eauto_ai.Prelude.{
  ℕ, String, Option, none, some, Bool, true, false, not, ◌&&◌, ◌||◌, List, [], ◌∷◌, map, filter,
  find, any, includes, unique, string_eq, ◌==◌, ◌!=◌, if◌then◌else◌,
}
use eauto_ai.Prelude.Result.{Result, ok, err}
use eauto_ai.Time.{Timestamp, at, unreadable, due}
use eauto_ai.Action.{EvidenceConfidence, EvidenceReference}

pub data EvidenceSubject : Type 0 where
  catalog customer commercial economic reputation content system : EvidenceSubject

pub data EvidenceAuthority : Type 0 where
  authoritative derived advisory : EvidenceAuthority

pub record EvidenceDocument : Type 0 where
  pub reference : EvidenceReference
  pub subject : EvidenceSubject
  pub kind : Option String
  pub authority : EvidenceAuthority
  pub expires_at : Timestamp
  pub payload : String

pub data EvidenceRequestStatus : Type 0 where
  queued processing fulfilled incomplete failed dead : EvidenceRequestStatus

pub record EvidenceRequest : Type 0 where
  pub id : String
  pub idempotency_key : String
  pub organization_id : String
  pub account_id : String
  pub conversation_id : String
  pub correlation_id : String
  pub requester_agent_id : String
  pub responder_id : String
  pub subject : EvidenceSubject
  pub purpose : String
  pub required_kinds : List String
  pub maximum_age_ms : ℕ
  pub status : EvidenceRequestStatus
  pub attempts : ℕ
  pub maximum_attempts : ℕ
  pub available_at : ℕ
  pub lease_owner : Option String
  pub lease_until : Option ℕ
  pub failure_reason : Option String
  pub created_at : ℕ
  pub updated_at : ℕ
  pub completed_at : Option ℕ
  pub content_hash : String

pub record EvidenceResponse : Type 0 where
  pub id : String
  pub request_id : String
  pub organization_id : String
  pub account_id : String
  pub responder_id : String
  pub subject : EvidenceSubject
  pub documents : List EvidenceDocument
  pub missing_inputs : List String
  pub complete : Bool
  pub generated_at : ℕ
  pub expires_at : ℕ
  pub content_hash : String

pub data SemanticMemoryStatus : Type 0 where
  active needs_review conflicted superseded : SemanticMemoryStatus

pub record SemanticMemoryEntry : Type 0 where
  pub id : String
  pub organization_id : String
  pub account_id : Option String
  pub topic_key : String
  pub title : String
  pub observation : String
  pub rationale : String
  pub scope_description : String
  pub keywords : List String
  pub source_refs : List String
  pub confidence : EvidenceConfidence
  pub verified_outcome : Bool
  pub status : SemanticMemoryStatus
  pub revision : ℕ
  pub supersedes_id : Option String
  pub conflicts_with_ids : List String
  pub created_at : ℕ
  pub expires_at : Option Timestamp
  pub content_hash : String

-- A decision by its reason; `admitted` is the one that admits.
pub data AdmissionReason : Type 0 where
  admitted organization_mismatch account_mismatch expired : AdmissionReason
  missing_provenance unverified_outcome : AdmissionReason
  review_needed in_conflict replaced : AdmissionReason

pub data ReconciliationStatus : Type 0 where
  new compatible supersedes conflicts : ReconciliationStatus

pub record SemanticMemoryReconciliation : Type 0 where
  pub status : ReconciliationStatus
  pub related_ids : List String

pub data CollaborationError : Type 0 where
  supersedes_target_missing scope_mismatch : CollaborationError
  required_field not_positive : (field : String) → CollaborationError
  no_responder unsupported_subject invalid_date : CollaborationError
  outside : (message : String) → CollaborationError

abbrev pub is_empty {ℓ} : {A : Type ℓ} → List A → Bool
is_empty [] = true
is_empty (x ∷ xs) = false

-- `accountId !== null && accountId !== account`
abbrev pub is_other_account : Option String → String → Bool
is_other_account none account = false
is_other_account (some own) account = own != account

-- `expiresAt && Date.parse(expiresAt) <= now`
abbrev pub is_over : Option Timestamp → ℕ → Bool
is_over none now = false
is_over (some t) now = due t now

abbrev pub by_status : SemanticMemoryStatus → AdmissionReason
by_status active = admitted
by_status needs_review = review_needed
by_status conflicted = in_conflict
by_status superseded = replaced

unfoldable pub decide_semantic_memory_admission :
    SemanticMemoryEntry
    → (organization account : String) (now : ℕ) (require_verified_outcome : Bool) → AdmissionReason
decide_semantic_memory_admission entry organization account now verified_only =
    if entry.organization_id != organization
    then organization_mismatch
    else if is_other_account entry.account_id account
    then account_mismatch
    else if is_over entry.expires_at now
    then expired
    else if is_empty entry.source_refs
    then missing_provenance
    else if verified_only && not entry.verified_outcome
    then unverified_outcome
    else by_status entry.status

abbrev pub is_admitted : AdmissionReason → Bool
is_admitted admitted = true
is_admitted _ = false

abbrev pub target_of :
    Option SemanticMemoryEntry → Result CollaborationError SemanticMemoryReconciliation
target_of none = err supersedes_target_missing
target_of (some target) = ok (record { status = supersedes; related_ids = target.id ∷ [] })

abbrev pub or_all : List SemanticMemoryEntry → List SemanticMemoryEntry → List SemanticMemoryEntry
or_all [] all = all
or_all (x ∷ xs) all = x ∷ xs

-- The reconciliation without a target to supersede.
abbrev pub relate :
    List SemanticMemoryEntry → List String → List String → SemanticMemoryReconciliation
relate same_topic refs (id ∷ ids) = record { status = conflicts; related_ids = id ∷ ids }
relate [] refs [] = record { status = new; related_ids = [] }
relate (e ∷ es) refs [] = record {
  status = compatible;
  related_ids =
      map (λ x. x.id)
        (or_all (filter (λ x. any (λ ref. includes refs ref) x.source_refs) (e ∷ es)) (e ∷ es));
}

unfoldable pub reconcile_semantic_memory :
    (topic_key : String) (refs : List String)
    → List SemanticMemoryEntry
    → (supersedes_id : Option String) (conflicts_with : List String)
    → Result CollaborationError SemanticMemoryReconciliation
reconcile_semantic_memory topic refs existing (some id) conflicts_with =
    if id == ""
    then ok (
        relate (filter (λ x. x.topic_key == topic) existing) refs (
          filter (λ i. any (λ x. x.id == i) (filter (λ x. x.topic_key == topic) existing))
            (unique conflicts_with)))
    else target_of (find (λ x. x.id == id) (filter (λ x. x.topic_key == topic) existing))
reconcile_semantic_memory topic refs existing none conflicts_with = ok (
    relate (filter (λ x. x.topic_key == topic) existing) refs (
      filter (λ i. any (λ x. x.id == i) (filter (λ x. x.topic_key == topic) existing))
        (unique conflicts_with)))

unfoldable pub assert_collaboration_scope :
    (value_organization value_account organization account : String)
    → Result CollaborationError (Unit {0})
assert_collaboration_scope own_organization own_account organization account =
    if own_organization != organization || own_account != account then err scope_mismatch else ok tt
