-- ===== src/Uploads/Service.antt =====
-- `SourceImageUploadService` of packages/application/src/sourceImageUploadService.ts. The object
-- storage, the clock and the encoding of URIs come from outside.
use Prim.Native.String as Native
use Prim.Native.String.{◌++◌ as concat}
use eauto_ai.Prelude.{
  ℕ, ◌+◌, ◌*◌, String, Option, none, some, Bool, false, not, ◌==◌, string_eq, if◌then◌else◌,
}
use eauto_ai.Prelude.Int.{ℤ}
use eauto_ai.Prelude.Result.{Result, ok, err}
use eauto_ai.Prelude.Result.Exec.{Exec, pure, throw, lift, ◌>>=◌, ◌>>◌}
use eauto_ai.Time.{at, due}
use eauto_ai.Uploads.{
  requested, verified, expired, rejected, SourceImageUpload, UploadSourceImageRequest, UploadError,
  not_found, window_expired, not_verified, mismatch, validate_source_image_upload_request,
  is_verified_source_image_upload, source_image_extension,
}
use eauto_ai.Uploads.Store.{Uploads, save, get, same_integer}

-- What `inspectObject` observes.
pub record ObservedObject : Type 0 where
  pub exists : Bool
  pub size_bytes : Option ℤ
  pub content_type : Option String
  pub checksum_sha256_base64 : Option String
  pub object_uri : String

pub record StoragePorts : Type 0 where
  pub now : ℕ
  pub encode_uri_component : String → String
  -- The address that is signed, with the headers that it requires.
  pub create_presigned_upload :
      (object_key content_type checksum : String) (expires_in_seconds : ℕ)
      → Result UploadError String
  pub inspect_object : String → Result UploadError ObservedObject

pub record UploadPolicy : Type 0 where
  pub maximum_bytes : ℤ
  pub upload_expires_in_seconds : ℕ

-- `value.replaceAll("%", "_")`
abbrev pub underscored : String → String
underscored Native.[] = ""
underscored (Native.◌∷◌ c s) =
    if Native.◌∷◌ c "" == "%" then Native.◌∷◌ "_" (underscored s) else Native.◌∷◌ c (underscored s)

-- `observed.sizeBytes === expected.sizeBytes`, and the same of texts
abbrev pub is_size : Option ℤ → ℤ → Bool
is_size none n = false
is_size (some m) n = same_integer m n

abbrev pub is_text : Option String → String → Bool
is_text none t = false
is_text (some s) t = s == t

unfoldable pub verify_observed_object : SourceImageUpload → ObservedObject → Option String
verify_observed_object expected observed =
    if not observed.exists
    then some "Uploaded object was not found."
    else if not (is_size observed.size_bytes expected.size_bytes)
    then some "Uploaded object size does not match the request."
    else if not (is_text observed.content_type expected.content_type)
    then some "Uploaded object content type does not match."
    else if not (is_text observed.checksum_sha256_base64 expected.checksum_sha256_base64)
    then some "Uploaded object checksum does not match."
    else none

module _ (ports : StoragePorts) (policy : UploadPolicy) where
  abbrev pub encode_segment : String → String
  encode_segment value = underscored (ports.encode_uri_component value)

  abbrev pub object_key_of : UploadSourceImageRequest → String
  object_key_of q = concat "organizations/" (
      concat (encode_segment q.organization_id) (
        concat "/accounts/" (
          concat (encode_segment q.account_id) (
            concat "/source-images/" (
              concat (encode_segment q.id) (concat "." (source_image_extension q.content_type)))))))

  abbrev pub requested_upload : UploadSourceImageRequest → SourceImageUpload
  requested_upload q = record {
    id = q.id;
    organization_id = q.organization_id;
    account_id = q.account_id;
    object_key = object_key_of q;
    original_file_name = q.original_file_name;
    content_type = q.content_type;
    size_bytes = q.size_bytes;
    checksum_sha256_base64 = q.checksum_sha256_base64;
    status = requested;
    object_uri = none;
    created_at = ports.now;
    expires_at = at (ports.now + policy.upload_expires_in_seconds * 1000);
    verified_at = none;
    rejection_reason = none;
  }

  -- The upload, with what was signed for it.
  unfoldable pub request_upload :
      UploadSourceImageRequest → Exec Uploads UploadError (SourceImageUpload × String)
  request_upload q = do
    lift (validate_source_image_upload_request q policy.maximum_bytes)
    save (requested_upload q)
    signed ← lift (
        ports.create_presigned_upload (object_key_of q) q.content_type q.checksum_sha256_base64
          policy.upload_expires_in_seconds)
    pure (requested_upload q, signed)

  abbrev pub found : Option SourceImageUpload → Result UploadError SourceImageUpload
  found none = err not_found
  found (some u) = ok u

  abbrev pub require_owned_upload :
      String → String → String → Exec Uploads UploadError SourceImageUpload
  require_owned_upload id organization account m = (found (get m id organization account), m)

  abbrev pub expired_upload : SourceImageUpload → SourceImageUpload
  expired_upload u = record u {
    status = expired;
    rejection_reason = some "Upload verification window expired.";
  }

  abbrev pub verified_upload : SourceImageUpload → ObservedObject → SourceImageUpload
  verified_upload u observed = record u {
    status = verified;
    object_uri = some observed.object_uri;
    verified_at = some ports.now;
    rejection_reason = none;
  }

  -- The end of `verifyUpload`, by the mismatch that was found.
  abbrev pub conclude :
      SourceImageUpload
      → ObservedObject
      → Option String
      → Exec Uploads UploadError SourceImageUpload
  conclude u observed (some reason) = do
    save (record u { status = rejected; rejection_reason = some reason })
    throw (mismatch reason)
  conclude u observed none = do save (verified_upload u observed); pure (verified_upload u observed)

  -- The verification of an upload that is not verified yet.
  unfoldable pub verify_pending : SourceImageUpload → Exec Uploads UploadError SourceImageUpload
  verify_pending u =
      if due u.expires_at ports.now
      then (save (expired_upload u) >> throw window_expired)
      else (lift (ports.inspect_object u.object_key) >>= λ observed.
          conclude u observed (verify_observed_object u observed))

  unfoldable pub verify_upload :
      String → String → String → Exec Uploads UploadError SourceImageUpload
  verify_upload id organization account = do
    u ← require_owned_upload id organization account
    if is_verified_source_image_upload u then pure u else verify_pending u

  unfoldable pub require_verified :
      String → String → String → Exec Uploads UploadError SourceImageUpload
  require_verified id organization account = do
    u ← require_owned_upload id organization account
    if is_verified_source_image_upload u then pure u else throw not_verified
