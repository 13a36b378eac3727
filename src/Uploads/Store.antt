-- ===== src/Uploads/Store.antt =====
-- `InMemorySourceImageUploadRepository` of
-- packages/infrastructure/src/inMemorySourceImageUploadRepository.ts.
use eauto_ai.Prelude.{
  String, Option, none, some, Bool, true, false, not, ◌&&◌, ◌||◌, Eq, string_eq, nat_eq, ◌==◌, ◌!=◌,
  eqb, if◌then◌else◌,
}
use eauto_ai.Prelude.Int.{ℤ, pos, negsuc}
use eauto_ai.Prelude.Assoc.{Assoc, lookup, set}
use eauto_ai.Prelude.Result.Exec.{Exec, throw, throw_if, modify, ◌>>◌}
use eauto_ai.Time.{Timestamp, at, unreadable}
use eauto_ai.Uploads.{
  SourceImageUpload, UploadError, not_created, owner_changed, content_changed, transition_conflict,
  is_verified_source_image_upload, is_requested_status,
}

abbrev pub Uploads : Type 0
Uploads = Assoc SourceImageUpload

abbrev pub same_optional : {A : Type 0} ⦃e : Eq A⦄ → Option A → Option A → Bool
same_optional none none = true
same_optional (some a) (some b) = a == b
same_optional _ _ = false

abbrev pub same_integer : ℤ → ℤ → Bool
same_integer (pos a) (pos b) = eqb a b
same_integer (negsuc a) (negsuc b) = eqb a b
same_integer _ _ = false

abbrev pub same_date : Timestamp → Timestamp → Bool
same_date (at a) (at b) = eqb a b
same_date unreadable unreadable = true
same_date _ _ = false

-- `JSON.stringify(a) === JSON.stringify(b)`, for two uploads that are both requested.
abbrev pub same_content : SourceImageUpload → SourceImageUpload → Bool
same_content a b =
    is_requested_status a.status
    && (a.id == b.id
        && (a.original_file_name == b.original_file_name
            && (a.content_type == b.content_type
                && (same_integer a.size_bytes b.size_bytes
                    && (a.checksum_sha256_base64 == b.checksum_sha256_base64
                        && (same_optional a.object_uri b.object_uri
                            && (a.created_at == b.created_at
                                && (same_date a.expires_at b.expires_at
                                    && (same_optional a.verified_at b.verified_at
                                        && same_optional a.rejection_reason
                                            b.rejection_reason)))))))))

abbrev pub changes_owner : SourceImageUpload → SourceImageUpload → Bool
changes_owner existing u =
    existing.organization_id != u.organization_id
    || (existing.account_id != u.account_id || existing.object_key != u.object_key)

-- What `save` does with the upload that is stored under the id, if any.
abbrev pub save_over :
    Option SourceImageUpload → SourceImageUpload → Exec Uploads UploadError (Unit {0})
save_over none u = do throw_if (not (is_requested_status u.status)) not_created; modify (set u.id u)
save_over (some existing) u = do
  throw_if (changes_owner existing u) owner_changed
  if is_requested_status u.status
      then throw_if (not (same_content existing u)) content_changed
      else if not (is_requested_status existing.status)
      then throw transition_conflict
      else modify (set u.id u)

unfoldable pub save : SourceImageUpload → Exec Uploads UploadError (Unit {0})
save u m = save_over (lookup u.id m) u m

abbrev pub owned : Option SourceImageUpload → String → String → Option SourceImageUpload
owned none organization account = none
owned (some u) organization account =
    if u.organization_id != organization || u.account_id != account then none else some u

unfoldable pub get : Uploads → String → String → String → Option SourceImageUpload
get m id organization account = owned (lookup id m) organization account

abbrev pub verified_only : Option SourceImageUpload → Option SourceImageUpload
verified_only none = none
verified_only (some u) = if is_verified_source_image_upload u then some u else none

unfoldable pub get_verified : Uploads → String → String → String → Option SourceImageUpload
get_verified m id organization account = verified_only (get m id organization account)
