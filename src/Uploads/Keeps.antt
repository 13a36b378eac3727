-- ===== src/Uploads/Keeps.antt =====
-- A property of the store that `save` keeps is kept by every sequence of the service's operations.
use eauto_ai.Prelude.{
  String, Option, none, some, Bool, true, false, inl, inr, Bool-cases, string_eq, if◌then◌else◌,
}
use eauto_ai.Time.{due}
use eauto_ai.Prelude.Result.Exec.{pure, throw, lift, >>=-keeps}
use eauto_ai.Uploads.{
  SourceImageUpload, UploadSourceImageRequest, rejected, window_expired,
  is_verified_source_image_upload, validate_source_image_upload_request,
}
use eauto_ai.Uploads.Store.{Uploads, save}
use eauto_ai.Uploads.Service.{
  ObservedObject, StoragePorts, UploadPolicy, verify_observed_object, requested_upload,
  object_key_of, request_upload, require_owned_upload, expired_upload, verified_upload, conclude,
  verify_pending, verify_upload,
}

-- The operations of the service.
pub data UploadStep (ports : StoragePorts) (policy : UploadPolicy)
    : Uploads → Uploads → Type 0 where
  requests :
      (q : UploadSourceImageRequest) (m : Uploads)
      → UploadStep ports policy m (request_upload ports policy q m).1
  verifies :
      (id organization account : String) (m : Uploads)
      → UploadStep ports policy m (verify_upload ports policy id organization account m).1

-- Any number of them, each with its own clock and storage.
pub data UploadSteps : Uploads → Uploads → Type 0 where
  none_left : (m : Uploads) → UploadSteps m m
  next :
      (ports : StoragePorts) (policy : UploadPolicy) {a b c : Uploads}
      → UploadStep ports policy a b
      → UploadSteps b c
      → UploadSteps a c

-- A property that `save` keeps.
module _ (K : Uploads → Type 0)
    (save_keeps : (u : SourceImageUpload) (m : Uploads) → K m → K (save u m).1) where
  module _ (ports : StoragePorts) (policy : UploadPolicy) where
    request_upload-keeps :
        (q : UploadSourceImageRequest) (m : Uploads) → K m → K (request_upload ports policy q m).1
    unfolding request_upload
    request_upload-keeps q m h =
        >>=-keeps K (lift (validate_source_image_upload_request q policy.maximum_bytes)) _
          (λ s k. k)
          (λ _.
            >>=-keeps K (save (requested_upload ports policy q)) _
              (save_keeps (requested_upload ports policy q))
              (λ _.
                >>=-keeps K
                  (lift (
                    ports.create_presigned_upload (object_key_of ports policy q) q.content_type
                      q.checksum_sha256_base64 policy.upload_expires_in_seconds))
                  _ (λ s k. k) (λ _ s k. k)))
          m h

    conclude-keeps :
        (v : SourceImageUpload) (observed : ObservedObject) (o : Option String) (m : Uploads)
        → K m
        → K (conclude ports policy v observed o m).1
    conclude-keeps v observed (some reason) m h =
        >>=-keeps K (save (record v { status = rejected; rejection_reason = some reason })) _
          (save_keeps (record v { status = rejected; rejection_reason = some reason })) (λ _ s k. k)
          m h
    conclude-keeps v observed none m h =
        >>=-keeps K (save (verified_upload ports policy v observed)) _
          (save_keeps (verified_upload ports policy v observed)) (λ _ s k. k) m h

    verify_pending-keeps :
        (v : SourceImageUpload) (m : Uploads) → K m → K (verify_pending ports policy v m).1
    unfolding verify_pending
    verify_pending-keeps v m h = elim (Bool-cases (due v.expires_at ports.now)) [
      | inl e ↦ rw e (
          >>=-keeps K (save (expired_upload ports policy v))
            (λ _. throw {A = SourceImageUpload} window_expired)
            (save_keeps (expired_upload ports policy v)) (λ _ s k. k) m h)
      | inr e ↦ rw e (
          >>=-keeps K (lift (ports.inspect_object v.object_key)) _ (λ s k. k)
            (λ observed s k. conclude-keeps v observed (verify_observed_object v observed) s k) m h)
    ]

    pub verify_upload-keeps :
        (i organization account : String) (m : Uploads)
        → K m
        → K (verify_upload ports policy i organization account m).1
    unfolding verify_upload
    verify_upload-keeps i organization account m h =
        >>=-keeps K (require_owned_upload ports policy i organization account) _ (λ s k. k)
          (λ v s k. pending v (is_verified_source_image_upload v) s k) m h
      where
        pending :
            (v : SourceImageUpload) (b : Bool) (s : Uploads)
            → K s
            → K ((if b then pure v else verify_pending ports policy v) s).1
        pending v true s k = k
        pending v false s k = verify_pending-keeps v s k

  step-keeps :
      {ports : StoragePorts} {policy : UploadPolicy} {a b : Uploads}
      → UploadStep ports policy a b
      → K a
      → K b
  step-keeps {ports} {policy} (requests q m) h = request_upload-keeps ports policy q m h
  step-keeps {ports} {policy} (verifies i o a m) h = verify_upload-keeps ports policy i o a m h

  pub steps-keeps : {a b : Uploads} → UploadSteps a b → K a → K b
  steps-keeps (none_left m) h = h
  steps-keeps (next ports policy s rest) h = steps-keeps rest (step-keeps s h)
