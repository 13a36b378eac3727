-- ===== src/Collaboration/Backing.antt =====
-- What backs a response that calls itself complete.
use eauto_ai.Prelude.{
  ℕ, ◌<◌, String, none, Bool, true, false, not, ◌&&◌, List, [], ◌∷◌, ◌++◌, All, append-nil, unique,
  unique-nil, string_eq, ◌≡◌, ◌≢◌, refl, ap, ◌∙◌, arith, Bool-cases, inl, inr,
}
use eauto_ai.Prelude.Result.{ok, ok-injective}
use eauto_ai.Prelude.Result.Pure as Plain
use eauto_ai.Time.{Timestamp, at, unreadable}
use eauto_ai.Action.{EvidenceFreshness, fresh, stale, unknown}
use eauto_ai.Collaboration.{
  EvidenceAuthority, authoritative, derived, advisory, EvidenceDocument, EvidenceRequest,
  EvidenceResponse, is_empty,
}
use eauto_ai.Collaboration.Text.{required, required_all, unique_references}
use eauto_ai.Collaboration.Router.{
  Answer, EvidenceResponder, RouterEvent, response_saved, request_updated, RouterPorts, is_advisory,
  has_kind, missing_kinds, is_fresh, is_later, all_trusted, is_complete, response_of,
}

-- The document is not advisory, fresh, and expires at a readable time after `now`.
abbrev pub IsTrusted : ℕ → EvidenceDocument → Type 0
IsTrusted now d =
    (d.authority ≢ advisory)
    × (d.reference.freshness ≡ fresh)
    × (t : ℕ) × (d.expires_at ≡ at t)
    × (now < t)

-- What a response that calls itself complete has.
abbrev pub IsBacked : Bool → EvidenceRequest → EvidenceResponse → Type 0
IsBacked false q r = Unit
IsBacked true q r =
    (r.documents ≢ [])
    × (r.missing_inputs ≡ [])
    × All (IsTrusted r.generated_at) r.documents
    × All (λ kind. has_kind r.documents kind ≡ true) q.required_kinds

-- A response in the scope of its request, and backed where it is complete; a request that keeps its
-- identity and scope and holds no lease.
abbrev pub IsHonest : RouterEvent → Type 0
IsHonest (response_saved q r) =
    (r.request_id ≡ q.id)
    × (r.organization_id ≡ q.organization_id)
    × (r.account_id ≡ q.account_id)
    × IsBacked r.complete q r
IsHonest (request_updated q q') =
    (q'.id ≡ q.id)
    × (q'.organization_id ≡ q.organization_id)
    × (q'.account_id ≡ q.account_id)
    × (q'.lease_owner ≡ none)
    × (q'.lease_until ≡ none)

dated :
    (now : ℕ) (freshness : EvidenceFreshness) (expires : Timestamp) {authority : EvidenceAuthority}
    → authority ≢ advisory
    → (is_fresh freshness && is_later expires now) ≡ true
    → (authority ≢ advisory) × (freshness ≡ fresh) × (t : ℕ) × (expires ≡ at t) × (now < t)
dated now fresh (at t) n h = (n, refl, t, refl, ground arith)
dated now fresh unreadable n h = cc
dated now stale e n h = cc
dated now unknown e n h = cc

trusted :
    (now : ℕ) (authority : EvidenceAuthority) (freshness : EvidenceFreshness) (expires : Timestamp)
    → (not (is_advisory authority) && (is_fresh freshness && is_later expires now)) ≡ true
    → (authority ≢ advisory) × (freshness ≡ fresh) × (t : ℕ) × (expires ≡ at t) × (now < t)
trusted now advisory f e h = cc
trusted now authoritative f e h = dated now f e (λ k. cc) h
trusted now derived f e h = dated now f e (λ k. cc) h

all_trusted-IsTrusted :
    (now : ℕ) (ds : List EvidenceDocument) → all_trusted now ds ≡ true → All (IsTrusted now) ds
all_trusted-IsTrusted now [] h = tt
all_trusted-IsTrusted now (d ∷ ds) h = (
  trusted now d.authority d.reference.freshness d.expires_at (ground arith),
  all_trusted-IsTrusted now ds (ground arith),
)

none_missing :
    (ds : List EvidenceDocument) (kinds : List String)
    → missing_kinds ds kinds ≡ []
    → All (λ kind. has_kind ds kind ≡ true) kinds
none_missing ds [] h = tt
none_missing ds (k ∷ ks) h = elim (Bool-cases (has_kind ds k)) [
  | inl e ↦ (e, none_missing ds ks (rw e at h))
  | inr e ↦ absurd (no_cons (rw e at h))
]
  where
    no_cons : (k ∷ missing_kinds ds ks) ≢ []
    no_cons h = cc

-- Normalised references that are none were none.
required_all-nil : (vs : List String) → required_all vs ≡ ok [] → vs ≡ []
unfolding required_all
required_all-nil [] h = refl
required_all-nil (v ∷ vs) h =
    let (first, _, h1) = Plain.>>=-eq-ok (required v "reference" 512) _ h in
    let (rest, _, h2) = Plain.>>=-eq-ok (required_all vs) _ h1 in
    absurd (cons_ne (ok-injective (first ∷ rest) [] h2))
  where
    cons_ne : {x : String} {xs : List String} → (x ∷ xs) ≢ []
    cons_ne h = cc

unique_references-nil :
    (vs missing : List String) → unique_references vs ≡ ok missing → missing ≡ [] → vs ≡ []
unique_references-nil vs missing h e =
    let (all, read, h1) = Plain.>>=-eq-ok (required_all vs) _ h in
    let nothing = unique-nil all (ok-injective (unique all) missing h1 ∙ e) in
    required_all-nil vs (read ∙ ap ok nothing)

pub backed :
    (q : EvidenceRequest) (responder : EvidenceResponder) (answer : Answer) (missing : List String)
    (ports : RouterPorts) (now expires serial : ℕ)
    → unique_references (answer.missing_inputs ++ missing_kinds answer.documents q.required_kinds)
      ≡ ok missing
    → (b : Bool) → is_complete answer.documents missing now ≡ b
    → IsBacked b q (response_of ports q responder answer missing now expires serial)
unfolding is_complete
backed q responder answer missing ports now expires serial h false e = tt
backed q responder answer missing ports now expires serial h true e =
    let (some_documents, rest) = both (not (is_empty answer.documents)) _ e in
    let (nothing, trust) = both (is_empty missing) _ rest in
    let empty = is_empty-nil missing nothing in
    let (_, kinds) = append-nil answer.missing_inputs _ (unique_references-nil _ missing h empty) in
    (
      nonempty answer.documents some_documents,
      empty,
      all_trusted-IsTrusted now answer.documents trust,
      none_missing answer.documents q.required_kinds kinds,
    )
  where
    both : (a b : Bool) → (a && b) ≡ true → (a ≡ true) × (b ≡ true)
    both a b h = ground arith

    is_empty-nil : (xs : List String) → is_empty xs ≡ true → xs ≡ []
    is_empty-nil [] h = refl
    is_empty-nil (x ∷ xs) h = cc

    nonempty : (ds : List EvidenceDocument) → not (is_empty ds) ≡ true → ds ≢ []
    nonempty [] h = cc
    nonempty (d ∷ ds) h = λ e. cc
