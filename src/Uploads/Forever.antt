-- ===== src/Uploads/Forever.antt =====
-- A verified upload stays available to its owner.
use eauto_ai.Prelude.{String, Option, none, some, true, false, not, [], ◌≡◌, refl, arith, string_eq}
use eauto_ai.Prelude.Assoc.{lookup, set}
use eauto_ai.Prelude.Result.{ok}
use eauto_ai.Prelude.Result.Exec.{throw, throw_if, modify, >>=-keeps, if-keeps, throw_if-keeps}
use eauto_ai.Uploads.{
  SourceImageUpload, is_requested_status, is_verified_source_image_upload, owner_changed,
  not_created, content_changed, transition_conflict,
}
use eauto_ai.Uploads.Store.{Uploads, same_content, changes_owner, save_over, save, get}
use eauto_ai.Uploads.Service.{StoragePorts, UploadPolicy, verify_upload, require_verified}
use eauto_ai.Uploads.Keeps.{UploadSteps, steps-keeps}
use eauto_ai.Uploads.Terminal.{steps-IsTerminal}
use eauto_ai.Uploads.Match.{IsKeyed, set-IsKeyed, some-owned}
use eauto_ai.Uploads.Verified.{verify_upload-IsVerified}

save-IsKeyed : (v : SourceImageUpload) (m : Uploads) → IsKeyed m → IsKeyed (save v m).1
unfolding save
save-IsKeyed v m h = go (lookup v.id m)
  where
    go : (o : Option SourceImageUpload) → IsKeyed (save_over o v m).1
    go none =
        >>=-keeps IsKeyed (throw_if (not (is_requested_status v.status)) not_created)
          (λ _. modify (set v.id v))
          (throw_if-keeps IsKeyed (not (is_requested_status v.status)) not_created)
          (λ _ s k. set-IsKeyed v s k) m h
    go (some old) =
        >>=-keeps IsKeyed (throw_if (changes_owner old v) owner_changed) _
          (throw_if-keeps IsKeyed (changes_owner old v) owner_changed)
          (λ _ s k.
            if-keeps IsKeyed (is_requested_status v.status)
              (throw_if (not (same_content old v)) content_changed) _ s
              (λ _. throw_if-keeps IsKeyed (not (same_content old v)) content_changed s k)
              (λ _.
                if-keeps IsKeyed (not (is_requested_status old.status)) (throw transition_conflict)
                  (modify (set v.id v)) s (λ _. k) (λ _. set-IsKeyed v s k)))
          m h

-- In every store that a sequence of the service's operations makes from the empty one, each upload
-- is under its id.
pub steps-IsKeyed : {m : Uploads} → UploadSteps [] m → IsKeyed m
unfolding lookup
steps-IsKeyed steps = steps-keeps IsKeyed save-IsKeyed steps (λ id u h. cc)

not_requested :
    (u : SourceImageUpload)
    → is_verified_source_image_upload u ≡ true
    → is_requested_status u.status ≡ false
unfolding is_verified_source_image_upload
not_requested u h = ground arith

kept :
    (ports : StoragePorts) (policy : UploadPolicy) (id organization account : String) (t : Uploads)
    (u : SourceImageUpload)
    → lookup id t ≡ some u
    → u.organization_id ≡ organization
    → u.account_id ≡ account
    → is_verified_source_image_upload u ≡ true
    → require_verified ports policy id organization account t ≡ (ok u, t)
unfolding require_verified get
kept ports policy id organization account t u at org acc done =
    rw (at, some-owned u org acc, done) refl

-- Once a verification has returned an upload, in a store that the operations made from the empty
-- one, `requireVerified` returns the same upload to the same owner after any further requests and
-- verifications by anyone.
pub require_verified-forever :
    (ports : StoragePorts) (policy : UploadPolicy) (id organization account : String)
    (m t t' : Uploads) (u : SourceImageUpload)
    → UploadSteps [] m
    → verify_upload ports policy id organization account m ≡ (ok u, t)
    → UploadSteps t t'
    → require_verified ports policy id organization account t' ≡ (ok u, t')
require_verified-forever ports policy id organization account m t t' u made h steps =
    let (done, org, acc, at, how) =
      verify_upload-IsVerified ports policy id organization account m t u (steps-IsKeyed made) h in
    let (at', _) = steps-IsTerminal id u steps (at, not_requested u done) in
    kept ports policy id organization account t' u at' org acc done
