-- ===== src/Collaboration/Admission.antt =====
-- Which memory is admitted.
use eauto_ai.Prelude.{
  ℕ, String, Option, none, some, Bool, true, false, not, ◌&&◌, List, [], ◌∷◌, string_eq, ◌≡◌, ◌≢◌,
  ◌↔◌, ◌⊎◌, inl, inr, refl, ap, ==_refl, eq_of_not_!=, if◌then◌else◌,
}
use eauto_ai.Time.{Timestamp, IsAhead, due-IsAhead, IsAhead-due}
use eauto_ai.Collaboration.{
  SemanticMemoryStatus, active, needs_review, conflicted, superseded, SemanticMemoryEntry,
  AdmissionReason, admitted, organization_mismatch, account_mismatch, expired, missing_provenance,
  unverified_outcome, is_empty, is_other_account, is_over, by_status,
  decide_semantic_memory_admission,
}

-- The memory has no end, or its end, where it is a date, is ahead.
abbrev pub IsStanding : Option Timestamp → ℕ → Type 0
IsStanding none now = Unit
IsStanding (some t) now = IsAhead t now

is_over_iff : (o : Option Timestamp) (now : ℕ) → (is_over o now ≡ false) ↔ IsStanding o now
is_over_iff none now = (λ h. tt, λ h. refl)
is_over_iff (some t) now = (due-IsAhead t now, IsAhead-due t now)

-- The memory is the organization's own, shared or of the account, not over, with sources, verified
-- where that is asked, and active.
abbrev pub IsAdmissible : SemanticMemoryEntry → String → String → ℕ → Bool → Type 0
IsAdmissible e organization account now verified_only =
    (e.organization_id ≡ organization)
    × ((e.account_id ≡ none) ⊎ (e.account_id ≡ some account))
    × IsStanding e.expires_at now
    × (e.source_refs ≢ [])
    × ((verified_only ≡ false) ⊎ (e.verified_outcome ≡ true))
    × (e.status ≡ active)

through :
    (a b c d f : Bool) (r : AdmissionReason)
    → (if a
        then organization_mismatch
        else if b
        then account_mismatch
        else if c
        then expired
        else if d
        then missing_provenance
        else if f
        then unverified_outcome
        else r)
      ≡ admitted
    → (a ≡ false) × (b ≡ false) × (c ≡ false) × (d ≡ false) × (f ≡ false) × (r ≡ admitted)
through true b c d f r h = cc
through false true c d f r h = cc
through false false true d f r h = cc
through false false false true f r h = cc
through false false false false true r h = cc
through false false false false false r h = (refl, refl, refl, refl, refl, h)

own_account :
    (o : Option String) (account : String)
    → is_other_account o account ≡ false
    → (o ≡ none) ⊎ (o ≡ some account)
own_account none account h = inl refl
own_account (some a) account h = inr (ap some (eq_of_not_!= h))

not_other :
    (o : Option String) (account : String)
    → (o ≡ none) ⊎ (o ≡ some account)
    → is_other_account o account ≡ false
not_other o account (inl e) = rw e refl
not_other o account (inr e) = rw e (rw (==_refl account) refl)

sourced : (xs : List String) → is_empty xs ≡ false → xs ≢ []
sourced [] h = cc
sourced (x ∷ xs) h = λ e. cc

not_empty : (xs : List String) → xs ≢ [] → is_empty xs ≡ false
not_empty [] h = absurd (h refl)
not_empty (x ∷ xs) h = refl

is_active : (s : SemanticMemoryStatus) → by_status s ≡ admitted → s ≡ active
is_active active h = refl
is_active needs_review h = cc
is_active conflicted h = cc
is_active superseded h = cc

verified_or : (a b : Bool) → (a && not b) ≡ false → (a ≡ false) ⊎ (b ≡ true)
verified_or false b h = inl refl
verified_or true true h = inr refl
verified_or true false h = cc

or_verified : (a b : Bool) → (a ≡ false) ⊎ (b ≡ true) → (a && not b) ≡ false
or_verified a b (inl e) = rw e refl
or_verified true b (inr e) = rw e refl
or_verified false b (inr e) = refl

-- A memory is admitted exactly where it belongs to the organization, to all of its accounts or to this
-- one, has no end or one that is ahead or no date, names its sources, has a verified outcome if one is asked for, and is active.
pub decide_semantic_memory_admission_iff :
    (e : SemanticMemoryEntry) (organization account : String) (now : ℕ) (verified_only : Bool)
    → (decide_semantic_memory_admission e organization account now verified_only ≡ admitted)
      ↔ IsAdmissible e organization account now verified_only
unfolding decide_semantic_memory_admission
decide_semantic_memory_admission_iff e organization account now verified_only = (
  λ h.
      let (a, b, c, d, f, g) = through _ _ _ _ _ _ h in
      (
        eq_of_not_!= a,
        own_account e.account_id account b,
        (is_over_iff e.expires_at now).0 c,
        sourced e.source_refs d,
        verified_or verified_only e.verified_outcome f,
        is_active e.status g,
      ),
  λ (a, b, c, d, f, g).
      rw
        (
          a,
          ==_refl organization,
          not_other e.account_id account b,
          (is_over_iff e.expires_at now).1 c,
          not_empty e.source_refs d,
          or_verified verified_only e.verified_outcome f,
          g,
        )
        refl,
)
