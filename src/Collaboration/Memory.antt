-- ===== src/Collaboration/Memory.antt =====
-- `SemanticMemoryService` of packages/application/src/agentCollaborationService.ts.
use eauto_ai.Prelude.{String, Option, none, some, Bool, List, [], ◌∷◌, ◌++◌, filter}
use eauto_ai.Prelude.Int.{ℤ}
use eauto_ai.Prelude.Result.{Result, ok, err}
use eauto_ai.Prelude.Result.Exec.{Exec, pure, lift, ◌>>=◌, ◌>>◌}
use eauto_ai.Collaboration.{
  superseded, SemanticMemoryEntry, CollaborationError, is_admitted,
  decide_semantic_memory_admission, reconcile_semantic_memory,
}
use eauto_ai.Collaboration.Text.{required, bounded}
use eauto_ai.Collaboration.Compose.{
  MemoryInput, SearchResult, MemoryEvent, entry_updated, entry_saved, MemoryPorts, or_star,
  superseded_id, target_in, normalize_topic, compose,
}

-- A call of the repository, and its event where it does not throw.
abbrev pub record_event :
    Result CollaborationError (Unit {0})
    → MemoryEvent
    → Exec (List MemoryEvent) CollaborationError (Unit {0})
record_event (ok u) event done = (ok u, done ++ event ∷ [])
record_event (err thrown) event done = (err thrown, done)

module _ (ports : MemoryPorts) where
  -- `if (entry.supersedesId)`: the target is stored as superseded.
  abbrev pub retire :
      Option SemanticMemoryEntry → Exec (List MemoryEvent) CollaborationError (Unit {0})
  retire none = pure tt
  retire (some target) =
      record_event (ports.update (record target { status = superseded }))
        (entry_updated (record target { status = superseded }))

  unfoldable pub remember :
      MemoryInput → Exec (List MemoryEvent) CollaborationError SemanticMemoryEntry
  remember q = do
    topic ← lift (normalize_topic ports q.topic_key)
    existing ← lift (ports.list q.organization_id (or_star q.account_id) topic 100)
    r ← lift (
        reconcile_semantic_memory topic q.source_refs existing q.supersedes_id q.conflicts_with_ids)
    entry ← lift (compose ports q topic existing r)
    target ← lift (target_in (superseded_id q.supersedes_id) existing)
    retire target
    record_event (ports.save entry) (entry_saved entry)
    pure entry

  unfoldable pub retrieve :
      (organization account query : String) (limit : ℤ) (verified_only : Bool)
      → Exec (List MemoryEvent) CollaborationError (List SearchResult)
  retrieve organization account query limit verified_only = do
    text ← lift (required query "query" 1000)
    count ← lift (bounded limit)
    results ← lift (ports.search organization account text count)
    pure (
        filter
          (λ r.
            is_admitted (
              decide_semantic_memory_admission r.entry organization account ports.now
                verified_only))
          results)

  unfoldable pub history :
      (organization account topic_key : String) (limit : ℤ)
      → Exec (List MemoryEvent) CollaborationError (List SemanticMemoryEntry)
  history organization account topic_key limit = do
    topic ← lift (normalize_topic ports topic_key)
    count ← lift (bounded limit)
    lift (ports.list organization account topic count)
