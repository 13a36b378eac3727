-- ===== src/Tests/Uploads.antt =====
-- The uploads of source images at concrete inputs.
use eauto_ai.Prelude.{String, some, true, [], ◌∷◌, ◌≡◌, refl}
use mathlib.Core.Path.{subst}
use eauto_ai.Prelude.Int.{pos}
use eauto_ai.Prelude.Assoc.{lookup, set}
use eauto_ai.Prelude.Result.{ok}
use eauto_ai.Uploads.{
  SourceImageUpload, UploadSourceImageRequest, validate_source_image_upload_request,
  is_verified_source_image_upload,
}
use eauto_ai.Uploads.Store.{Uploads, save, get}
use eauto_ai.Uploads.Service.{
  ObservedObject, StoragePorts, UploadPolicy, verify_observed_object, requested_upload,
  request_upload, verified_upload, verify_pending, verify_upload, require_verified,
}
use eauto_ai.Uploads.Keeps.{UploadSteps, none_left, next, requests, verifies}
use eauto_ai.Uploads.Terminal.{IsTerminal, steps-IsTerminal}
use eauto_ai.Uploads.Match.{IsKeyed}
use eauto_ai.Uploads.Verified.{IsReturned, verify_upload-IsVerified}
use eauto_ai.Uploads.Forever.{steps-IsKeyed, require_verified-forever}

abbrev checksum : String
checksum = "AAAAAAAAAAAAAAAAAAAAAAAAAAAAAAAAAAAAAAAAAAA="

abbrev image : UploadSourceImageRequest
image = record {
  id = "up1";
  organization_id = "org";
  account_id = "acct";
  original_file_name = "front.png";
  content_type = "image/png";
  size_bytes = pos 1000;
  checksum_sha256_base64 = checksum;
}

abbrev limits : UploadPolicy
limits = record { maximum_bytes = pos 5000; upload_expires_in_seconds = 60 }

abbrev seen : ObservedObject
seen = record {
  exists = true;
  size_bytes = some (pos 1000);
  content_type = some "image/png";
  checksum_sha256_base64 = some checksum;
  object_uri = "s3://up1";
}

abbrev ports : StoragePorts
ports = record {
  now = 100;
  encode_uri_component = λ s. s;
  create_presigned_upload = λ k t c n. ok "https://signed";
  inspect_object = λ k. ok seen;
}

abbrev asked : SourceImageUpload
asked = requested_upload ports limits image

abbrev before : Uploads
before = ("up1", asked) ∷ []

abbrev done : SourceImageUpload
done = verified_upload ports limits asked seen

abbrev after : Uploads
after = ("up1", done) ∷ []

stored : (request_upload ports limits image []).1 ≡ before
unfolding request_upload validate_source_image_upload_request save lookup set
stored = refl

first_request : UploadSteps [] before
first_request =
    subst (λ m. UploadSteps [] m) stored
      (next ports limits (requests image []) (none_left (request_upload ports limits image []).1))

confirmed : verify_upload ports limits "up1" "org" "acct" before ≡ (ok done, after)
unfolding verify_upload verify_pending verify_observed_object save get lookup set
    is_verified_source_image_upload
confirmed = refl

abbrev later : Uploads
later = (verify_upload ports limits "up1" "org" "acct" after).1

again : UploadSteps after later
again = next ports limits (verifies "up1" "org" "acct" after) (none_left later)

found_done : lookup "up1" after ≡ some done
unfolding lookup
found_done = refl

steps-IsTerminal_example : IsTerminal "up1" done later
steps-IsTerminal_example = steps-IsTerminal "up1" done again (found_done, refl)

steps-IsKeyed_example : IsKeyed before
steps-IsKeyed_example = steps-IsKeyed first_request

verify_upload-IsVerified_example : IsReturned ports limits "up1" "org" "acct" before done after
verify_upload-IsVerified_example =
    verify_upload-IsVerified ports limits "up1" "org" "acct" before after done
      (steps-IsKeyed first_request) confirmed

require_verified-forever_example :
    require_verified ports limits "up1" "org" "acct" later ≡ (ok done, later)
require_verified-forever_example =
    require_verified-forever ports limits "up1" "org" "acct" before after later done first_request
      confirmed again
