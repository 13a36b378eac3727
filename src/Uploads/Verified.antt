-- ===== src/Uploads/Verified.antt =====
-- What a verification that succeeds has seen, and what it leaves in the store.
use eauto_ai.Prelude.{
  String, Option, none, some, Bool, true, false, ◌≡◌, ◌⊎◌, refl, sym, ◌∙◌, ap, inl, inr, string_eq,
  if◌then◌else◌,
}
use mathlib.Core.Path.{subst}
use eauto_ai.Time.{due}
use eauto_ai.Prelude.Assoc.{lookup}
use eauto_ai.Prelude.Result.{ok}
use eauto_ai.Prelude.Result.Exec.{
  pure, throw, lift, ◌>>=◌, ◌>>◌, Ends, Ends-imp, bind-Ends, lift-Ends,
}
use eauto_ai.Uploads.{SourceImageUpload, rejected, window_expired, is_verified_source_image_upload}
use eauto_ai.Uploads.Store.{Uploads, save, owned, get}
use eauto_ai.Uploads.Service.{
  ObservedObject, StoragePorts, UploadPolicy, verify_observed_object, found, expired_upload,
  verified_upload, conclude, verify_pending, verify_upload,
}
use eauto_ai.Uploads.Match.{
  IsMatch, verify_observed_object-IsMatch, IsKeyed, save-stored, anyhow, owned-some,
}

module _ (ports : StoragePorts) (policy : UploadPolicy) (id organization account : String) where
  -- How an upload comes to be returned as verified: it was already, or it is open, in time, and the
  -- object that is observed matches it.
  abbrev pub IsFreshly : SourceImageUpload → SourceImageUpload → Type 0
  IsFreshly old u =
      (o : ObservedObject) × (ports.inspect_object old.object_key ≡ ok o)
      × IsMatch old o
      × (due old.expires_at ports.now ≡ false)
      × (u ≡ verified_upload ports policy old o)

  conclude-IsFreshly :
      (old : SourceImageUpload) (o : ObservedObject) (r : Option String) (m : Uploads)
      → ports.inspect_object old.object_key ≡ ok o
      → due old.expires_at ports.now ≡ false
      → verify_observed_object old o ≡ r
      → Ends
          (λ _. Unit)
          (λ u t. IsFreshly old u × (lookup u.id t ≡ some u))
          (conclude ports policy old o r m)
  conclude-IsFreshly old o (some reason) m seen soon h =
      bind-Ends (λ _. Unit) (λ _ _. Unit) (λ u t. IsFreshly old u × (lookup u.id t ≡ some u))
        (save (record old { status = rejected; rejection_reason = some reason })) _ m (anyhow _)
        (λ _ _ _. tt)
  conclude-IsFreshly old o none m seen soon h =
      bind-Ends (λ _. Unit) (λ _ t. lookup old.id t ≡ some (verified_upload ports policy old o))
        (λ u t. IsFreshly old u × (lookup u.id t ≡ some u))
        (save (verified_upload ports policy old o)) _ m
        (save-stored (verified_upload ports policy old o) m refl)
        (λ _ t stored. ((o, seen, verify_observed_object-IsMatch old o h, soon, refl), stored))

  verify_pending-IsFreshly :
      (old : SourceImageUpload) (m : Uploads)
      → Ends
          (λ _. Unit)
          (λ u t. IsFreshly old u × (lookup u.id t ≡ some u))
          (verify_pending ports policy old m)
  unfolding verify_pending
  verify_pending-IsFreshly old m = by_time (due old.expires_at ports.now) refl
    where
      by_time :
          (b : Bool)
          → due old.expires_at ports.now ≡ b
          → Ends
              (λ _. Unit)
              (λ u t. IsFreshly old u × (lookup u.id t ≡ some u))
              ((if b
                  then (save (expired_upload ports policy old) >> throw window_expired)
                  else (lift (ports.inspect_object old.object_key) >>= λ o.
                      conclude ports policy old o (verify_observed_object old o)))
                m)
      by_time true late =
          bind-Ends (λ _. Unit) (λ _ _. Unit) (λ u t. IsFreshly old u × (lookup u.id t ≡ some u))
            (save (expired_upload ports policy old)) _ m (anyhow _) (λ _ _ _. tt)
      by_time false soon =
          bind-Ends (λ _. Unit) (λ o _. ports.inspect_object old.object_key ≡ ok o)
            (λ u t. IsFreshly old u × (lookup u.id t ≡ some u))
            (lift (ports.inspect_object old.object_key)) _ m
            (lift-Ends (λ _. Unit) (λ o _. ports.inspect_object old.object_key ≡ ok o)
              (ports.inspect_object old.object_key) m tt (λ o e. e))
            (λ o t seen. conclude-IsFreshly old o (verify_observed_object old o) t seen soon refl)

  -- What holds of an upload that is returned as verified, and of the store then.
  abbrev pub IsReturned : Uploads → SourceImageUpload → Uploads → Type 0
  IsReturned m u t =
      (is_verified_source_image_upload u ≡ true)
      × (u.organization_id ≡ organization)
      × (u.account_id ≡ account)
      × (lookup id t ≡ some u)
      × ((lookup id m ≡ some u)
          ⊎ ((old : SourceImageUpload) × (lookup id m ≡ some old) × IsFreshly old u))

  module _ (m : Uploads) (keyed : IsKeyed m) where
    abbrev IsFound : SourceImageUpload → Type 0
    IsFound v =
        (lookup id m ≡ some v) × (v.organization_id ≡ organization) × (v.account_id ≡ account)

    fresh-IsReturned :
        (v u : SourceImageUpload) (t : Uploads)
        → IsFound v
        → IsFreshly v u × (lookup u.id t ≡ some u)
        → IsReturned m u t
    unfolding is_verified_source_image_upload
    fresh-IsReturned v u t (at, org, acc) ((o, seen, match, soon, form), stored) = (
      subst (λ x. is_verified_source_image_upload x ≡ true) (sym form) refl,
      ap (λ x. x.organization_id) form ∙ org,
      ap (λ x. x.account_id) form ∙ acc,
      subst (λ i. lookup i t ≡ some u) (ap (λ x. x.id) form ∙ keyed id v at) stored,
      inr (v, at, (o, seen, match, soon, form)),
    )

    pending :
        (v : SourceImageUpload) (b : Bool)
        → is_verified_source_image_upload v ≡ b
        → IsFound v
        → Ends (λ _. Unit) (IsReturned m) ((if b then pure v else verify_pending ports policy v) m)
    pending v true e (at, org, acc) = (e, org, acc, at, inl at)
    pending v false e k =
        Ends-imp (λ _. Unit) (λ u t. IsFreshly v u × (lookup u.id t ≡ some u)) (IsReturned m)
          (λ u t h. fresh-IsReturned v u t k h) _ (verify_pending-IsFreshly v m)

    verify_upload-IsReturned :
        Ends (λ _. Unit) (IsReturned m) (verify_upload ports policy id organization account m)
    unfolding verify_upload get
    verify_upload-IsReturned = go (owned (lookup id m) organization account) refl
      where
        go :
            (o : Option SourceImageUpload)
            → owned (lookup id m) organization account ≡ o
            → Ends
                (λ _. Unit)
                (IsReturned m)
                ((lift {S = Uploads} (found ports policy o) >>= λ u.
                    if is_verified_source_image_upload u
                    then pure u
                    else verify_pending ports policy u)
                  m)
        go none e = tt
        go (some v) e =
            pending v (is_verified_source_image_upload v) refl
              (owned-some (lookup id m) organization account e)

-- In a store where every upload is under its id, a verification that returns an upload returns one
-- of the requested organization and account, verified and stored so; either it was stored verified
-- before, or the stored upload was in time and the object that is observed under its key has its
-- size, content type and checksum.
pub verify_upload-IsVerified :
    (ports : StoragePorts) (policy : UploadPolicy) (id organization account : String)
    (m t : Uploads) (u : SourceImageUpload)
    → IsKeyed m
    → verify_upload ports policy id organization account m ≡ (ok u, t)
    → IsReturned ports policy id organization account m u t
verify_upload-IsVerified ports policy id organization account m t u keyed h =
    subst (Ends (λ _. Unit) (IsReturned ports policy id organization account m)) h
      (verify_upload-IsReturned ports policy id organization account m keyed)
