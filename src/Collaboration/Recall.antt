-- ===== src/Collaboration/Recall.antt =====
-- What is remembered.
use eauto_ai.Prelude.{
  String, Option, none, some, List, [], ◌∷◌, ◌++◌, find, string_eq, ◌==◌, eq_of_==, ◌≡◌, refl, ap,
  sym, ◌∙◌, inl, inr, Bool-cases,
}
use mathlib.Core.Path.{subst}
use eauto_ai.Prelude.Result.{Result, ok, err, Returns}
use eauto_ai.Prelude.Result.Exec.{pure, lift, ◌>>◌, Ends, Ends-imp, lift-Ends, bind-Ends}
use eauto_ai.Collaboration.{
  superseded, SemanticMemoryEntry, CollaborationError, reconcile_semantic_memory,
}
use eauto_ai.Collaboration.Compose.{
  MemoryInput, MemoryEvent, entry_updated, entry_saved, MemoryPorts, or_star, superseded_id,
  found_target, target_in, normalize_topic, compose,
}
use eauto_ai.Collaboration.Memory.{record_event, retire, remember}
use eauto_ai.Collaboration.Entry.{IsNew, compose-IsNew}

-- The events of a memory that was remembered: its own, after the one that retires the entry it
-- supersedes, if it supersedes one, which is then one of the entries of the topic.
abbrev pub IsStored :
    Option String → List SemanticMemoryEntry → SemanticMemoryEntry → List MemoryEvent → Type 0
IsStored none existing e events = events ≡ entry_saved e ∷ []
IsStored (some id) existing e events =
    (target : SemanticMemoryEntry) × (find (λ x. x.id == id) existing ≡ some target)
    × (target.id ≡ id)
    × (events ≡ entry_updated (record target { status = superseded }) ∷ entry_saved e ∷ [])

find-id :
    (id : String) (es : List SemanticMemoryEntry) {t : SemanticMemoryEntry}
    → find (λ x. x.id == id) es ≡ some t
    → t.id ≡ id
find-id id [] h = cc
find-id id (e ∷ es) {t} h = elim (Bool-cases (e.id == id)) [
  | inl same ↦ ap (λ x. x.id) (sym (some-injective (rw same at h))) ∙ eq_of_== same
  | inr other ↦ find-id id es (rw other at h)
]
  where
    some-injective :
        {a b : SemanticMemoryEntry} → ◌≡◌ {A = Option SemanticMemoryEntry} (some a) (some b) → a ≡ b
    some-injective h = cc

-- The target that was found for an id.
abbrev IsTarget : Option String → List SemanticMemoryEntry → Option SemanticMemoryEntry → Type 0
IsTarget none existing o = o ≡ none
IsTarget (some id) existing none = ⊥
IsTarget (some id) existing (some t) = find (λ x. x.id == id) existing ≡ some t

target_in-IsTarget :
    (s : Option String) (existing : List SemanticMemoryEntry)
    → Returns (IsTarget s existing) (target_in s existing)
target_in-IsTarget none existing = refl
target_in-IsTarget (some id) existing = go (find (λ x. x.id == id) existing) refl
  where
    go :
        (o : Option SemanticMemoryEntry)
        → find (λ x. x.id == id) existing ≡ o
        → Returns (IsTarget (some id) existing) (found_target o)
    go none h = tt
    go (some t) h = h

module _ (ports : MemoryPorts) (existing : List SemanticMemoryEntry) (e : SemanticMemoryEntry) where
  stored_first :
      (before : List MemoryEvent) (r : Result CollaborationError (Unit {0})) (event : MemoryEvent)
      → Ends (λ _. Unit) (λ _ t. t ≡ before ++ event ∷ []) (record_event r event before)
  stored_first before (ok u) event = refl
  stored_first before (err x) event = tt

  save_last :
      (before : List MemoryEvent)
      → Ends
          (λ _. Unit)
          (λ x t. (x ≡ e) × (t ≡ before ++ entry_saved e ∷ []))
          ((record_event (ports.save e) (entry_saved e) >> pure e) before)
  save_last before =
      bind-Ends (λ _. Unit) (λ _ t. t ≡ before ++ entry_saved e ∷ [])
        (λ x t. (x ≡ e) × (t ≡ before ++ entry_saved e ∷ []))
        (record_event (ports.save e) (entry_saved e)) _ before
        (stored_first before (ports.save e) (entry_saved e)) (λ _ t h. (refl, h))

  -- The last two writes.
  stored :
      (s : Option String) (o : Option SemanticMemoryEntry)
      → IsTarget s existing o
      → Ends
          (λ _. Unit)
          (λ x t. (x ≡ e) × IsStored s existing e t)
          ((retire ports o >> (record_event (ports.save e) (entry_saved e) >> pure e)) [])
  stored none o h =
      subst
        (λ o.
          Ends (λ _. Unit) (λ x t. (x ≡ e) × IsStored none existing e t)
            ((retire ports o >> (record_event (ports.save e) (entry_saved e) >> pure e)) []))
        (sym h) (save_last [])
  stored (some id) none h = absurd h
  stored (some id) (some t) h =
      let retired : SemanticMemoryEntry = record t { status = superseded } in
      bind-Ends (λ _. Unit) (λ _ es. es ≡ entry_updated retired ∷ [])
        (λ x es. (x ≡ e) × IsStored (some id) existing e es)
        (record_event (ports.update retired) (entry_updated retired)) _ []
        (stored_first [] (ports.update retired) (entry_updated retired))
        λ _ es before.
          Ends-imp (λ _. Unit) (λ x fs. (x ≡ e) × (fs ≡ es ++ entry_saved e ∷ []))
            (λ x fs. (x ≡ e) × IsStored (some id) existing e fs)
            (λ x fs (same, written). (
              same,
              (t, h, find-id id existing h, written ∙ ap (λ x. x ++ entry_saved e ∷ []) before),
            ))
            ((record_event (ports.save e) (entry_saved e) >> pure e) es) (save_last es)

-- What a memory that was remembered is, and what was written for it: it is of the topic that the
-- key of the input is normalised to, and new among the entries that were listed for that topic.
abbrev pub IsRemembered :
    MemoryPorts → MemoryInput → SemanticMemoryEntry → List MemoryEvent → Type 0
IsRemembered ports q e events =
    (normalize_topic ports q.topic_key ≡ ok e.topic_key)
    × (existing : List SemanticMemoryEntry) × (ports.list q.organization_id (or_star q.account_id)
          e.topic_key 100
        ≡ ok existing)
    × IsNew q e.topic_key existing e
    × IsStored (superseded_id q.supersedes_id) existing e events

remembered :
    (ports : MemoryPorts) (q : MemoryInput) (topic : String) (existing : List SemanticMemoryEntry)
    (e : SemanticMemoryEntry) (events : List MemoryEvent)
    → normalize_topic ports q.topic_key ≡ ok topic
    → ports.list q.organization_id (or_star q.account_id) topic 100 ≡ ok existing
    → IsNew q topic existing e
    → IsStored (superseded_id q.supersedes_id) existing e events
    → IsRemembered ports q e events
remembered ports q topic existing e events normal from fresh done =
    subst
      (λ t.
        (normalize_topic ports q.topic_key ≡ ok t)
        × (existing : List SemanticMemoryEntry) × (ports.list q.organization_id
              (or_star q.account_id) t 100
            ≡ ok existing)
        × IsNew q t existing e
        × IsStored (superseded_id q.supersedes_id) existing e events)
      (sym fresh.0) (normal, existing, from, fresh, done)

remember-Ends :
    (ports : MemoryPorts) (q : MemoryInput)
    → Ends (λ _. Unit) (IsRemembered ports q) (remember ports q [])
unfolding remember
remember-Ends ports q =
    let I = λ (_ : List MemoryEvent). Unit {0} in
    let R' = IsRemembered ports q in
    let normal = normalize_topic ports q.topic_key in
    bind-Ends I (λ topic t. (normal ≡ ok topic) × (t ≡ [])) R' (lift normal) _ []
      (lift-Ends I (λ topic t. (normal ≡ ok topic) × (t ≡ [])) normal [] tt (λ _ n. (n, refl)))
      λ topic t (named, z).
        let listed = ports.list q.organization_id (or_star q.account_id) topic 100 in
        bind-Ends I (λ es t. (listed ≡ ok es) × (t ≡ [])) R' (lift listed) _ t
          (lift-Ends I (λ es t. (listed ≡ ok es) × (t ≡ [])) listed t tt (λ _ h. (h, z)))
          λ existing t (from, z).
            let s = superseded_id q.supersedes_id in
            let r' =
              reconcile_semantic_memory topic q.source_refs existing q.supersedes_id
                q.conflicts_with_ids in
            bind-Ends I (λ _ t. t ≡ []) R' (lift r') _ t
              (lift-Ends I (λ _ t. t ≡ []) r' t tt (λ _ _. z))
              λ r t z.
                bind-Ends I (λ e t. IsNew q topic existing e × (t ≡ [])) R'
                  (lift (compose ports q topic existing r)) _ t
                  (lift-Ends I (λ e t. IsNew q topic existing e × (t ≡ []))
                    (compose ports q topic existing r) t tt
                    (λ e h. (
                      subst (Returns (IsNew q topic existing)) h
                          (compose-IsNew ports q topic existing r),
                      z,
                    )))
                  λ e t (fresh, z).
                    bind-Ends I (λ o t. IsTarget s existing o × (t ≡ [])) R'
                      (lift (target_in s existing)) _ t
                      (lift-Ends I (λ o t. IsTarget s existing o × (t ≡ [])) (target_in s existing)
                        t tt
                        (λ o h. (
                          subst (Returns (IsTarget s existing)) h (target_in-IsTarget s existing),
                          z,
                        )))
                      λ o t (target, z).
                        subst
                          (λ t. Ends I R' (
                            (retire ports o
                                >> (record_event (ports.save e) (entry_saved e) >> pure e))
                              t))
                          (sym z)
                          (Ends-imp I (λ x t. (x ≡ e) × IsStored s existing e t) R'
                            (λ x t (same, done).
                              subst (λ y. IsRemembered ports q y t) (sym same)
                                (remembered ports q topic existing e t named from fresh done))
                            ((retire ports o
                                >> (record_event (ports.save e) (entry_saved e) >> pure e))
                              [])
                            (stored ports existing e s o target))

-- A memory that was remembered names its sources, is of the topic that the input's key is normalised
-- to, and is a later revision than every entry listed for that topic; it is stored once, last, and if it supersedes an entry, that one is a listed entry with
-- the given id, which is stored as superseded before.
pub remember-IsRemembered :
    (ports : MemoryPorts) (q : MemoryInput) (e : SemanticMemoryEntry) (events : List MemoryEvent)
    → remember ports q [] ≡ (ok e, events)
    → IsRemembered ports q e events
remember-IsRemembered ports q e events h =
    subst (Ends (λ _. Unit) (IsRemembered ports q)) h (remember-Ends ports q)
