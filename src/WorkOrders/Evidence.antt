-- ===== src/WorkOrders/Evidence.antt =====
-- What `assertUsableEvidencePack` and the kinds of evidence of an order say of the documents.
use mathlib.Core.Bool.{false≢true}
use eauto_ai.Prelude.{
  ℕ, String, Option, none, some, Bool, true, false, not, ◌&&◌, ◌||◌, List, [], ◌∷◌, any, All,
  All-imp, string_eq, ◌==◌, eq_of_==, ==-false, ==_refl, ◌≡◌, ◌≢◌, ◌↔◌, refl, ap, sym, ◌∙◌, arith,
}
use eauto_ai.Prelude.Strings.{is_blank}
use eauto_ai.Prelude.Tested.{Any, any-Any, Any-any, any-All, filter-nil, filter-cons, Any-imp}
use eauto_ai.Prelude.Result.{ok}
use eauto_ai.Prelude.Result.Pure.{throw_if, >>=-eq-ok}
use eauto_ai.Time.{due, IsAhead, due-IsAhead}
use eauto_ai.Action.{EvidenceFreshness, fresh}
use eauto_ai.Collaboration.{advisory, EvidenceDocument, is_empty}
use eauto_ai.WorkOrders.{
  OperationalEvidencePack, OrderError, pack_incomplete, pack_expired, is_unnamed, is_advisory,
  is_fresh, is_invalid, assert_usable_evidence_pack,
}
use eauto_ai.WorkOrders.Service.{is_kind, missing_kinds}

pub passed : (bad : Bool) (e : OrderError) (u : Unit {0}) → throw_if bad e ≡ ok u → bad ≡ false
passed true e u h = cc
passed false e u h = refl

-- A document that an order may rest on.
pub record IsSound (now : ℕ) (d : EvidenceDocument) : Type 0 where
  pub kind : String
  pub named : d.kind ≡ some kind
  pub not_blank : is_blank kind ≡ false
  pub trusted : d.authority ≢ advisory
  pub in_time : IsAhead d.expires_at now
  pub is_recent : d.reference.freshness ≡ fresh

-- The pack is whole and in time, and each of its documents is sound.
pub record IsUsable (pack : OperationalEvidencePack) (now : ℕ) : Type 0 where
  pub whole : pack.complete ≡ true
  pub has_documents : pack.documents ≢ []
  pub nothing_missing : pack.missing_inputs ≡ []
  pub in_time : IsAhead pack.expires_at now
  pub sound : All (IsSound now) pack.documents

named_kind :
    (o : Option String) → is_unnamed o ≡ false → (k : String) × (o ≡ some k) × (is_blank k ≡ false)
named_kind none h = cc
named_kind (some k) h = (k, refl, h)

is_fresh-fresh : (f : EvidenceFreshness) → not (is_fresh f) ≡ false → f ≡ fresh
is_fresh-fresh f h = ground arith

four :
    (a b c d : Bool)
    → (a || (b || (c || d))) ≡ false
    → (a ≡ false) × (b ≡ false) × (c ≡ false) × (d ≡ false)
four a b c d h = (ground arith, ground arith, ground arith, ground arith)

is_invalid-IsSound : (now : ℕ) (d : EvidenceDocument) → is_invalid now d ≡ false → IsSound now d
is_invalid-IsSound now d h =
    let (a, b, c, e) =
      four (is_unnamed d.kind) (is_advisory d.authority) (due d.expires_at now) _ h in
    let (k, named, not_blank) = named_kind d.kind a in
    record {
      kind = k;
      named = named;
      not_blank = not_blank;
      trusted = λ same. false≢true (sym b ∙ ap is_advisory same);
      in_time = due-IsAhead d.expires_at now c;
      is_recent = is_fresh-fresh d.reference.freshness e;
    }

three : (a b c : Bool) → (not a || (b || not c)) ≡ false → (a ≡ true) × (b ≡ false) × (c ≡ true)
three a b c h = (ground arith, ground arith, ground arith)

is_empty-≢ {ℓ} : {A : Type ℓ} (xs : List A) → is_empty xs ≡ false → xs ≢ []
is_empty-≢ [] h = cc
is_empty-≢ (x ∷ xs) h = λ e. cc

is_empty-≡ {ℓ} : {A : Type ℓ} (xs : List A) → is_empty xs ≡ true → xs ≡ []
is_empty-≡ [] h = refl
is_empty-≡ (x ∷ xs) h = cc

pub assert_usable_evidence_pack-IsUsable :
    (pack : OperationalEvidencePack) (now : ℕ) (u : Unit {0})
    → assert_usable_evidence_pack pack now ≡ ok u
    → IsUsable pack now
unfolding assert_usable_evidence_pack
assert_usable_evidence_pack-IsUsable pack now u h =
    let (u1, whole, h1) = >>=-eq-ok (throw_if _ pack_incomplete) _ h in
    let (u2, ahead, h2) = >>=-eq-ok (throw_if _ pack_expired) _ h1 in
    let (a, b, c) =
      three pack.complete (is_empty pack.documents) (is_empty pack.missing_inputs)
        (passed _ _ u1 whole) in
    record {
      whole = a;
      has_documents = is_empty-≢ pack.documents b;
      nothing_missing = is_empty-≡ pack.missing_inputs c;
      in_time = due-IsAhead pack.expires_at now (passed _ _ u2 ahead);
      sound =
          any-All (IsSound now) (is_invalid now) (λ d k. is_invalid-IsSound now d k) pack.documents
            (passed _ _ u h2);
    }

-- One of the documents is of the kind.
abbrev pub HasKind : List EvidenceDocument → String → Type 0
HasKind ds kind = Any (λ d. (d.kind ≡ some kind) × (kind ≢ "")) ds

is_kind_iff :
    (kind : String) (o : Option String)
    → ((elim o [ none ↦ false | some own ↦ not (own == "") && own == kind ]) ≡ true)
      ↔ ((o ≡ some kind) × (kind ≢ ""))
is_kind_iff kind none = (λ h. cc, λ (h, _). cc)
is_kind_iff kind (some own) = (
  λ h.
      let (full, same) = both (own == "") (own == kind) h in
      (ap some (eq_of_== same), λ e. blank_own (eq_of_== same ∙ e) full),
  λ (h, n). let same : own ≡ kind = cc in rw (same, ==-false n, ==_refl kind) refl,
)
  where
    blank_own : own ≡ "" → (own == "") ≡ false → ⊥
    blank_own e k = false≢true (sym k ∙ rw e refl)

    both : (a b : Bool) → (not a && b) ≡ true → (a ≡ false) × (b ≡ true)
    both a b h = (ground arith, ground arith)

any-HasKind :
    (ds : List EvidenceDocument) (kind : String) → any (is_kind kind) ds ≡ true → HasKind ds kind
any-HasKind ds kind h =
    any-Any (λ d. (d.kind ≡ some kind) × (kind ≢ "")) (is_kind kind)
      (λ d k. (is_kind_iff kind d.kind).0 k) ds h

HasKind-any :
    (ds : List EvidenceDocument) (kind : String) → HasKind ds kind → any (is_kind kind) ds ≡ true
HasKind-any ds kind h =
    Any-any (λ d. (d.kind ≡ some kind) × (kind ≢ "")) (is_kind kind)
      (λ d k. (is_kind_iff kind d.kind).1 k) ds h

pub missing_kinds-nil :
    (ds : List EvidenceDocument) (kinds : List String)
    → missing_kinds ds kinds ≡ []
    → All (HasKind ds) kinds
missing_kinds-nil ds kinds h =
    All-imp (λ k. any (is_kind k) ds ≡ true) (HasKind ds) (λ k e. any-HasKind ds k e) kinds
      (filter-nil (λ k. any (is_kind k) ds) kinds h)

pub missing_kinds-cons :
    (ds : List EvidenceDocument) (kinds : List String) (k : String) (ks : List String)
    → missing_kinds ds kinds ≡ k ∷ ks
    → Any (λ kind. ¬ HasKind ds kind) kinds
missing_kinds-cons ds kinds k ks h =
    Any-imp (λ kind. any (is_kind kind) ds ≡ false) (λ kind. ¬ HasKind ds kind)
      (λ kind e has. false≢true (sym e ∙ HasKind-any ds kind has)) kinds
      (filter-cons (λ kind. any (is_kind kind) ds) kinds k ks h)
