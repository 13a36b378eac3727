-- ===== src/Uploads/Terminal.antt =====
-- An upload that was verified, rejected or expired never changes again.
use eauto_ai.Prelude.{
  String, Option, none, some, Bool, true, false, not, ◌≡◌, ◌≢◌, refl, sym, ◌∙◌, ap, inl, inr, arith,
  Bool-cases, string_eq, ◌==◌, eq_of_==,
}
use eauto_ai.Prelude.Assoc.{lookup, set, lookup-set}
use eauto_ai.Prelude.Result.Exec.{throw, throw_if, modify, >>=-keeps, if-keeps, throw_if-keeps}
use eauto_ai.Uploads.{
  SourceImageUpload, not_created, owner_changed, content_changed, transition_conflict,
  is_requested_status,
}
use eauto_ai.Uploads.Store.{Uploads, same_content, changes_owner, save_over, save}
use eauto_ai.Uploads.Keeps.{UploadSteps, steps-keeps}

-- A stored upload whose status is not `requested`.
abbrev pub IsTerminal : String → SourceImageUpload → Uploads → Type 0
IsTerminal id u m = (lookup id m ≡ some u) × (is_requested_status u.status ≡ false)

module _ (id : String) (u : SourceImageUpload) where
  abbrev K : Uploads → Type 0
  K = IsTerminal id u

  -- A write under another id.
  elsewhere : (v : SourceImageUpload) (m : Uploads) → (v.id == id) ≡ false → K m → K (set v.id v m)
  elsewhere v m other (h, k) = (lookup-set v.id id v m ∙ rw other h, k)

  other_id :
      (j : String) (o : Option SourceImageUpload) (m : Uploads)
      → lookup j m ≡ o
      → o ≢ some u
      → K m
      → (j == id) ≡ false
  other_id j o m at n (h, k) = elim (Bool-cases (j == id)) [
    | inl e ↦ absurd (n (sym at ∙ ap (λ i. lookup i m) (eq_of_== e) ∙ h))
    | inr e ↦ e
  ]

  -- A write over the upload that is stored: it is refused, unless it is under another id.
  save_over-keeps :
      (o : Option SourceImageUpload) (v : SourceImageUpload) (m : Uploads)
      → lookup v.id m ≡ o
      → K m
      → K (save_over o v m).1
  save_over-keeps none v m at h =
      >>=-keeps K (throw_if (not (is_requested_status v.status)) not_created)
        (λ _. modify (set v.id v))
        (throw_if-keeps K (not (is_requested_status v.status)) not_created)
        (λ _ s k. elsewhere v s (other_id v.id none m at (λ e. cc) h) k) m h
  save_over-keeps (some old) v m at h =
      >>=-keeps K (throw_if (changes_owner old v) owner_changed) _
        (throw_if-keeps K (changes_owner old v) owner_changed)
        (λ _ s k.
          if-keeps K (is_requested_status v.status)
            (throw_if (not (same_content old v)) content_changed) _ s
            (λ _. throw_if-keeps K (not (same_content old v)) content_changed s k)
            (λ _.
              if-keeps K (not (is_requested_status old.status)) (throw transition_conflict)
                (modify (set v.id v)) s (λ _. k)
                (λ pending.
                  elsewhere v s (other_id v.id (some old) m at (differs old (ground arith) h.1) h)
                    k)))
        m h
    where
      differs :
          (old : SourceImageUpload)
          → is_requested_status old.status ≡ true
          → is_requested_status u.status ≡ false
          → ◌≢◌ {A = Option SourceImageUpload} (some old) (some u)
      differs old pending closed e = true_ne_false (sym pending ∙ ap requested_of e ∙ closed)
        where
          requested_of : Option SourceImageUpload → Bool
          requested_of none = false
          requested_of (some x) = is_requested_status x.status

          true_ne_false : true ≢ false
          true_ne_false h = cc

  pub save-keeps : (v : SourceImageUpload) (m : Uploads) → K m → K (save v m).1
  unfolding save
  save-keeps v m h = save_over-keeps (lookup v.id m) v m refl h

-- An upload that is stored as verified, rejected or expired is stored unchanged after any sequence of
-- requests and verifications, whatever they are asked, answer or throw, and whatever clock, storage
-- and policy each of them has.
pub steps-IsTerminal :
    {a b : Uploads} (id : String) (u : SourceImageUpload)
    → UploadSteps a b
    → IsTerminal id u a
    → IsTerminal id u b
steps-IsTerminal id u steps h = steps-keeps (IsTerminal id u) (save-keeps id u) steps h
