-- ===== src/Uploads/Match.antt =====
-- What an observed object, a lookup and a write say of an upload.
use eauto_ai.Prelude.{
  String, Option, none, some, Bool, true, false, not, ◌||◌, ◌≡◌, ◌≢◌, ◌⊎◌, refl, sym, ◌∙◌, ap, inl,
  inr, arith, Bool-cases, string_eq, ◌==◌, ◌!=◌, eq_of_==, ==_refl, eq_of_not_!=, if◌then◌else◌,
}
use mathlib.Core.Path.{subst}
use eauto_ai.Prelude.Int.{ℤ, pos, negsuc}
use eauto_ai.Prelude.Assoc.{lookup, set, lookup-set, lookup-set_self}
use eauto_ai.Prelude.Result.{Result, ok, err}
use eauto_ai.Prelude.Result.Exec.{throw, modify, Ends}
use eauto_ai.Uploads.{SourceImageUpload, UploadError, is_requested_status, transition_conflict}
use eauto_ai.Uploads.Store.{Uploads, same_integer, changes_owner, save_over, save, owned}
use eauto_ai.Uploads.Service.{ObservedObject, is_size, is_text, verify_observed_object}

-- The object is there, with the size, the type and the checksum that were asked for.
pub record IsMatch (u : SourceImageUpload) (o : ObservedObject) : Type 0 where
  pub exists : o.exists ≡ true
  pub size : o.size_bytes ≡ some u.size_bytes
  pub content_type : o.content_type ≡ some u.content_type
  pub checksum : o.checksum_sha256_base64 ≡ some u.checksum_sha256_base64

same_integer-eq : (a b : ℤ) → same_integer a b ≡ true → a ≡ b
same_integer-eq (pos a) (pos b) h = ap pos (ground arith)
same_integer-eq (negsuc a) (negsuc b) h = ap negsuc (ground arith)
same_integer-eq (pos a) (negsuc b) h = cc
same_integer-eq (negsuc a) (pos b) h = cc

is_size-eq : (o : Option ℤ) (n : ℤ) → is_size o n ≡ true → o ≡ some n
is_size-eq none n h = cc
is_size-eq (some m) n h = ap some (same_integer-eq m n h)

is_text-eq : (o : Option String) (t : String) → is_text o t ≡ true → o ≡ some t
is_text-eq none t h = cc
is_text-eq (some s) t h = ap some (eq_of_== h)

pub verify_observed_object-IsMatch :
    (u : SourceImageUpload) (o : ObservedObject) → verify_observed_object u o ≡ none → IsMatch u o
unfolding verify_observed_object
verify_observed_object-IsMatch u o h =
    let (there, size, type, sum) =
      all_true o.exists (is_size o.size_bytes u.size_bytes) (is_text o.content_type u.content_type)
        (is_text o.checksum_sha256_base64 u.checksum_sha256_base64) _ _ _ _ h in
    record {
      exists = there;
      size = is_size-eq o.size_bytes u.size_bytes size;
      content_type = is_text-eq o.content_type u.content_type type;
      checksum = is_text-eq o.checksum_sha256_base64 u.checksum_sha256_base64 sum;
    }
  where
    all_true :
        (a b c d : Bool) (s t v w : String)
        → (if not a
            then some s
            else if not b
            then some t
            else if not c
            then some v
            else if not d
            then some w
            else none)
          ≡ none
        → (a ≡ true) × (b ≡ true) × (c ≡ true) × (d ≡ true)
    all_true true true true true s t v w h = (refl, refl, refl, refl)
    all_true false b c d s t v w h = cc
    all_true true false c d s t v w h = cc
    all_true true true false d s t v w h = cc
    all_true true true true false s t v w h = cc

-- Every upload is stored under its id.
abbrev pub IsKeyed : Uploads → Type 0
IsKeyed m = (id : String) (u : SourceImageUpload) → lookup id m ≡ some u → u.id ≡ id

pub set-IsKeyed : (v : SourceImageUpload) (m : Uploads) → IsKeyed m → IsKeyed (set v.id v m)
set-IsKeyed v m h id u at = elim (Bool-cases (v.id == id)) [
  | inl e ↦
      sym (ap (λ x. x.id) (some-injective (rw e at (sym (lookup-set v.id id v m) ∙ at))))
      ∙ eq_of_== e
  | inr e ↦ h id u (rw e at (sym (lookup-set v.id id v m) ∙ at))
]
  where
    some-injective :
        {a b : SourceImageUpload} → ◌≡◌ {A = Option SourceImageUpload} (some a) (some b) → a ≡ b
    some-injective h = cc

-- A verified upload that is saved is stored.
pub save-stored :
    (v : SourceImageUpload) (m : Uploads)
    → is_requested_status v.status ≡ false
    → Ends (λ _. Unit) (λ _ t. lookup v.id t ≡ some v) (save v m)
unfolding save
save-stored v m closed = go (lookup v.id m)
  where
    reopened :
        (old : SourceImageUpload)
        → (is_requested_status old.status ≡ true) ⊎ (is_requested_status old.status ≡ false)
        → Ends
            (λ _. Unit)
            (λ (_ : Unit {0}) t. lookup v.id t ≡ some v)
            ((if not (is_requested_status old.status)
                then throw transition_conflict
                else modify {E = UploadError} (set v.id v))
              m)
    reopened old (inl e) = rw e (lookup-set_self v.id v m)
    reopened old (inr e) = rw e tt

    go :
        (o : Option SourceImageUpload)
        → Ends (λ _. Unit) (λ _ t. lookup v.id t ≡ some v) (save_over o v m)
    go none = rw closed tt
    go (some old) = elim (Bool-cases (changes_owner old v)) [
      | inl e ↦ rw e tt
      | inr e ↦ rw (e, closed) (reopened old (Bool-cases (is_requested_status old.status)))
    ]

pub anyhow :
    (r : Result UploadError (Unit {0}) × Uploads) → Ends (λ _. Unit) (λ (_ : Unit {0}) _. Unit) r
anyhow (ok u, m) = tt
anyhow (err e, m) = tt

pub owned-some :
    (o : Option SourceImageUpload) (organization account : String) {u : SourceImageUpload}
    → owned o organization account ≡ some u
    → (o ≡ some u) × (u.organization_id ≡ organization) × (u.account_id ≡ account)
owned-some none organization account h = cc
owned-some (some v) organization account {u} h =
    elim (Bool-cases (v.organization_id != organization || v.account_id != account)) [
      | inl e ↦ absurd (none_ne_some (rw e at h))
      | inr e ↦
          let same : some v ≡ some u = rw e at h in
          let v_is = some-injective same in
          (
            same,
            ap (λ x. x.organization_id) (sym v_is) ∙ eq_of_not_!= (ground arith),
            ap (λ x. x.account_id) (sym v_is) ∙ eq_of_not_!= (ground arith),
          )
    ]
  where
    none_ne_some : {a : SourceImageUpload} → ◌≢◌ {A = Option SourceImageUpload} none (some a)
    none_ne_some h = cc

    some-injective :
        {a b : SourceImageUpload} → ◌≡◌ {A = Option SourceImageUpload} (some a) (some b) → a ≡ b
    some-injective h = cc

pub some-owned :
    (u : SourceImageUpload) {organization account : String}
    → u.organization_id ≡ organization
    → u.account_id ≡ account
    → owned (some u) organization account ≡ some u
some-owned u {organization} {account} org acc =
    subst (λ o. owned (some u) o account ≡ some u) org
      (subst (λ a. owned (some u) u.organization_id a ≡ some u) acc
        (rw (==_refl u.organization_id, ==_refl u.account_id) refl))
