-- ===== src/Uploads.antt =====
-- Uploads of source images: packages/domain/src/uploads.ts. A content type is a text, since the
-- request may hold any; the code rejects the ones that are not in its list.
pub mod Store
pub mod Service
pub mod Keeps
pub mod Terminal
pub mod Match
pub mod Verified
pub mod Forever
use Prim.Native.String as Native
use Prim.Native.Char.{code}
use eauto_ai.Prelude.{
  ℕ, zero, suc, String, Option, none, some, Bool, true, false, not, ◌&&◌, ◌||◌, List, [], ◌∷◌,
  length, includes, string_eq, ◌==◌, ltb, leb, eqb, if◌then◌else◌,
}
use eauto_ai.Prelude.Int.{ℤ, pos, is_safe, leb_ℤ, ltb_ℤ}
use eauto_ai.Prelude.Strings.{units}
use eauto_ai.Prelude.Result.{Result}
use eauto_ai.Prelude.Result.Pure.{◌>>=◌, ◌>>◌, throw_if}
use eauto_ai.Time.{Timestamp}

abbrev pub source_image_content_types : List String
source_image_content_types = "image/jpeg" ∷ "image/png" ∷ "image/webp" ∷ []

pub data SourceImageUploadStatus : Type 0 where
  requested verified expired rejected : SourceImageUploadStatus

pub record SourceImageUpload : Type 0 where
  pub id : String
  pub organization_id : String
  pub account_id : String
  pub object_key : String
  pub original_file_name : String
  pub content_type : String
  pub size_bytes : ℤ
  pub checksum_sha256_base64 : String
  pub status : SourceImageUploadStatus
  pub object_uri : Option String
  pub created_at : ℕ
  pub expires_at : Timestamp
  pub verified_at : Option ℕ
  pub rejection_reason : Option String

pub record UploadSourceImageRequest : Type 0 where
  pub id : String
  pub organization_id : String
  pub account_id : String
  pub original_file_name : String
  pub content_type : String
  pub size_bytes : ℤ
  pub checksum_sha256_base64 : String

-- `UploadValidationError` by its cause, and the errors of the store.
pub data UploadError : Type 0 where
  unsupported_type bad_size too_large bad_checksum bad_name not_found : UploadError
  window_expired not_verified : UploadError
  mismatch : (reason : String) → UploadError
  not_created owner_changed content_changed transition_conflict : UploadError
  outside : (message : String) → UploadError

-- `[A-Za-z0-9+/]`
abbrev pub is_base64 : ℕ → Bool
is_base64 n =
    (leb 65 n && leb n 90)
    || ((leb 97 n && leb n 122) || ((leb 48 n && leb n 57) || (eqb n 43 || eqb n 47)))

-- `/^[A-Za-z0-9+/]{n}=$/`
abbrev pub is_digest_of : ℕ → String → Bool
is_digest_of n Native.[] = false
is_digest_of zero (Native.◌∷◌ c Native.[]) = eqb (code c) 61
is_digest_of zero (Native.◌∷◌ c (Native.◌∷◌ d s)) = false
is_digest_of (suc n) (Native.◌∷◌ c s) = is_base64 (code c) && is_digest_of n s

unfoldable pub validate_source_image_upload_request :
    UploadSourceImageRequest → ℤ → Result UploadError (Unit {0})
validate_source_image_upload_request q maximum_bytes = do
  throw_if (not (includes source_image_content_types q.content_type)) unsupported_type
  throw_if (not (is_safe q.size_bytes) || leb_ℤ q.size_bytes (pos 0)) bad_size
  throw_if (ltb_ℤ maximum_bytes q.size_bytes) too_large
  throw_if (not (is_digest_of 43 q.checksum_sha256_base64)) bad_checksum
  throw_if
      (ltb (length (units q.original_file_name)) 1 || ltb 255 (length (units q.original_file_name)))
      bad_name

abbrev pub is_some {ℓ} : {A : Type ℓ} → Option A → Bool
is_some none = false
is_some (some a) = true

abbrev pub is_verified_status : SourceImageUploadStatus → Bool
is_verified_status verified = true
is_verified_status _ = false

abbrev pub is_requested_status : SourceImageUploadStatus → Bool
is_requested_status requested = true
is_requested_status _ = false

unfoldable pub is_verified_source_image_upload : SourceImageUpload → Bool
is_verified_source_image_upload u =
    is_verified_status u.status
    && (is_some u.object_uri && (is_some u.verified_at && not (is_some u.rejection_reason)))

-- A type that is not in the list gives `undefined`, which the validation rules out.
abbrev pub source_image_extension : String → String
source_image_extension content_type =
    if content_type == "image/jpeg"
    then "jpg"
    else if content_type == "image/png"
    then "png"
    else if content_type == "image/webp"
    then "webp"
    else "undefined"
