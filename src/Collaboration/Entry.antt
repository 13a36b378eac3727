-- ===== src/Collaboration/Entry.antt =====
-- The entry that `remember` makes.
use eauto_ai.Prelude.{ℕ, suc, ◌<◌, String, List, [], ◌∷◌, All, string_eq, ◌≡◌, ◌≢◌, refl, arith}
use eauto_ai.Prelude.Strings.{sort}
use eauto_ai.Prelude.Result.{ok, Returns, err-ne-ok}
use eauto_ai.Prelude.Result.Pure.{throw_if, bind-Returns}
use eauto_ai.Collaboration.{
  SemanticMemoryEntry, SemanticMemoryReconciliation, CollaborationError, is_empty,
}
use eauto_ai.Collaboration.Text.{required, unique_references}
use eauto_ai.Collaboration.Compose.{
  MemoryInput, MemoryPorts, max_revision, normalize_keywords, compose,
}

-- A new entry: it has sources, is a revision later than every entry of its topic, and keeps the
-- topic, the account and the id that it supersedes.
abbrev pub IsNew : MemoryInput → String → List SemanticMemoryEntry → SemanticMemoryEntry → Type 0
IsNew q topic existing e =
    (e.topic_key ≡ topic)
    × (e.source_refs ≢ [])
    × All (λ x. x.revision < e.revision) existing
    × (e.account_id ≡ q.account_id)
    × (e.supersedes_id ≡ q.supersedes_id)

revision-max :
    (n : ℕ) (es : List SemanticMemoryEntry) → max_revision es < n → All (λ x. x.revision < n) es
revision-max n [] h = tt
revision-max n (e ∷ es) h = (omega arith, revision-max n es (omega arith))

sourced :
    (xs : List String) (e : CollaborationError) (u : Unit {0})
    → throw_if (is_empty xs) e ≡ ok u
    → xs ≢ []
sourced [] e u h = absurd (err-ne-ok e u h)
sourced (x ∷ xs) e u h = λ k. cc

pub compose-IsNew :
    (ports : MemoryPorts) (q : MemoryInput) (topic : String) (existing : List SemanticMemoryEntry)
    (r : SemanticMemoryReconciliation)
    → Returns (IsNew q topic existing) (compose ports q topic existing r)
unfolding compose
compose-IsNew ports q topic existing r =
    let Q = IsNew q topic existing in
    bind-Returns Q (required q.organization_id _ _) _ λ organization e0.
      bind-Returns Q (required q.title _ _) _ λ title e1.
        bind-Returns Q (required q.observation _ _) _ λ observation e2.
          bind-Returns Q (required q.rationale _ _) _ λ rationale e3.
            bind-Returns Q (required q.scope_description _ _) _ λ scope e4.
              bind-Returns Q (normalize_keywords ports q.keywords) _ λ keywords e5.
                bind-Returns Q (unique_references keywords) _ λ all_keywords e6.
                  bind-Returns Q (unique_references q.source_refs) _ λ refs e7.
                    bind-Returns Q (throw_if (is_empty (sort refs)) _) _ λ u e8. (
                      refl,
                      sourced (sort refs) _ u e8,
                      revision-max (suc (max_revision existing)) existing (omega arith),
                      refl,
                      refl,
                    )
