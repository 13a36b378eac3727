-- ===== src/Collaboration/Compose.antt =====
-- The entries of `SemanticMemoryService` of packages/application/src/agentCollaborationService.ts. The
-- repository, the clock, the ids, the hash and the lower case of a text come from outside; what the
-- repository has been given is the list of events.
use Prim.Native.String as Native
use Prim.Native.Char.{code}
use eauto_ai.Prelude.{
  ℕ, suc, max, String, Option, none, some, Bool, true, false, ◌&&◌, ◌||◌, List, [], ◌∷◌, find,
  string_eq, ◌==◌, leb, eqb, if◌then◌else◌,
}
use eauto_ai.Prelude.Strings.{sort}
use eauto_ai.Prelude.Result.{Result, ok, err}
use eauto_ai.Prelude.Result.Pure.{◌>>=◌, ◌>>◌, throw_if}
use eauto_ai.Time.{Timestamp}
use eauto_ai.Action.{EvidenceConfidence}
use eauto_ai.Collaboration.{
  SemanticMemoryStatus, active, needs_review, conflicted, SemanticMemoryEntry, ReconciliationStatus,
  conflicts, SemanticMemoryReconciliation, CollaborationError, outside, is_empty,
}
use eauto_ai.Collaboration.Text.{required, unique_references}

pub record MemoryInput : Type 0 where
  pub organization_id : String
  pub account_id : Option String
  pub topic_key : String
  pub title : String
  pub observation : String
  pub rationale : String
  pub scope_description : String
  pub keywords : List String
  pub source_refs : List String
  pub confidence : EvidenceConfidence
  pub verified_outcome : Bool
  pub expires_at : Option Timestamp
  pub supersedes_id : Option String
  pub conflicts_with_ids : List String

pub record SearchResult : Type 0 where
  pub entry : SemanticMemoryEntry
  pub rank : ℕ
  pub matched_terms : List String

pub data MemoryEvent : Type 0 where
  entry_updated entry_saved : SemanticMemoryEntry → MemoryEvent

pub record MemoryPorts : Type 0 where
  pub now : ℕ
  pub next_id : String
  pub to_lower_case : String → String
  -- `hashJson` of an entry without its id and hash.
  pub hash : SemanticMemoryEntry → String
  pub list :
      (organization account topic : String) (limit : ℕ)
      → Result CollaborationError (List SemanticMemoryEntry)
  pub search :
      (organization account query : String) (limit : ℕ)
      → Result CollaborationError (List SearchResult)
  pub update : SemanticMemoryEntry → Result CollaborationError (Unit {0})
  pub save : SemanticMemoryEntry → Result CollaborationError (Unit {0})

-- `[a-z0-9._:-]`
abbrev pub is_topic_code : ℕ → Bool
is_topic_code n =
    (leb 97 n && leb n 122)
    || ((leb 48 n && leb n 57) || (eqb n 46 || (eqb n 95 || (eqb n 58 || eqb n 45))))

-- `replace(/[^a-z0-9._:-]+/g, "-")`; the first argument says whether the last character was replaced.
abbrev pub dashed : Bool → String → String
dashed after Native.[] = ""
dashed after (Native.◌∷◌ c s) =
    let rest = dashed true s in
    let rest' = dashed false s in
    if is_topic_code (code c)
    then Native.◌∷◌ c rest'
    else if after
    then rest
    else Native.◌∷◌ "-" rest

abbrev pub or_star : Option String → String
or_star none = "*"
or_star (some account) = account

-- `Math.max(0, ...existing.map((entry) => entry.revision))`
abbrev pub max_revision : List SemanticMemoryEntry → ℕ
max_revision [] = 0
max_revision (e ∷ es) = max e.revision (max_revision es)

abbrev pub is_conflict : ReconciliationStatus → Bool
is_conflict conflicts = true
is_conflict _ = false

abbrev pub status_of : SemanticMemoryReconciliation → MemoryInput → SemanticMemoryStatus
status_of r q =
    if is_conflict r.status
    then conflicted
    else if is_empty q.source_refs
    then needs_review
    else active

-- `entry.supersedesId`, where it is a text that is not empty
abbrev pub superseded_id : Option String → Option String
superseded_id none = none
superseded_id (some id) = if id == "" then none else some id

abbrev pub found_target :
    Option SemanticMemoryEntry → Result CollaborationError (Option SemanticMemoryEntry)
found_target none = err (outside "Superseded semantic memory entry was not found.")
found_target (some target) = ok (some target)

abbrev pub target_in :
    Option String
    → List SemanticMemoryEntry
    → Result CollaborationError (Option SemanticMemoryEntry)
target_in none existing = ok none
target_in (some id) existing = found_target (find (λ e. e.id == id) existing)

module _ (ports : MemoryPorts) where
  abbrev pub normalize_topic : String → Result CollaborationError String
  normalize_topic value = do
    topic ← required value "topicKey" 256
    ok (dashed false (ports.to_lower_case topic))

  unfoldable pub normalize_keywords : List String → Result CollaborationError (List String)
  normalize_keywords [] = ok []
  normalize_keywords (v ∷ vs) = do
    first ← required v "keyword" 100
    rest ← normalize_keywords vs
    ok (ports.to_lower_case first ∷ rest)

  -- The entry, its hash made from the entry without id and hash.
  abbrev pub identified : SemanticMemoryEntry → SemanticMemoryEntry
  identified plain = record plain { id = ports.next_id; content_hash = ports.hash plain }

  -- `normalized` and the entry made of it, with every check on the way.
  unfoldable pub compose :
      MemoryInput
      → (topic : String) (existing : List SemanticMemoryEntry) → SemanticMemoryReconciliation
      → Result CollaborationError SemanticMemoryEntry
  compose q topic existing r = do
    organization ← required q.organization_id "organizationId" 128
    title ← required q.title "title" 300
    observation ← required q.observation "observation" 10000
    rationale ← required q.rationale "rationale" 10000
    scope ← required q.scope_description "scopeDescription" 2000
    keywords ← normalize_keywords q.keywords
    all_keywords ← unique_references keywords
    refs ← unique_references q.source_refs
    throw_if (is_empty (sort refs)) (outside "Semantic memory requires provenance references.")
    ok (
        identified (record {
          id = "";
          organization_id = organization;
          account_id = q.account_id;
          topic_key = topic;
          title = title;
          observation = observation;
          rationale = rationale;
          scope_description = scope;
          keywords = sort all_keywords;
          source_refs = sort refs;
          confidence = q.confidence;
          verified_outcome = q.verified_outcome;
          status = status_of r q;
          revision = suc (max_revision existing);
          supersedes_id = q.supersedes_id;
          conflicts_with_ids = if is_conflict r.status then r.related_ids else [];
          created_at = ports.now;
          expires_at = q.expires_at;
          content_hash = "";
        }))
