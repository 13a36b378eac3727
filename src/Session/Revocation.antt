-- ===== src/Session/Revocation.antt =====
-- What the repository of sessions promises about revoked and rotated sessions.
use eauto_ai.Prelude.{
  ℕ, String, none, some, true, false, List, [], ◌∷◌, All, ◌==◌, ◌!=◌, string_eq, ◌≡◌, ◌≢◌, ◌⊎◌, inl,
  inr, refl, sym, ap, ◌∙◌, Bool-cases, Option-cases, ==-false, eq_of_==, eq_of_not_!=,
}
use mathlib.Core.Path.{subst}
use eauto_ai.Prelude.Assoc.{lookup, set, lookup-set, lookup-set_self}
use eauto_ai.Session.{OperatorSession, Sessions, is_revoked, save, rotate, revoke}

-- A call of the repository that writes.
pub data Call : Type 0 where
  saves : OperatorSession → Call
  rotates : String → OperatorSession → Call
  revokes : String → ℕ → Call

unfoldable pub run : Call → Sessions → Sessions
run (saves s) m = save s m
run (rotates hash s) m = (rotate hash s m).1
run (revokes id time) m = revoke id time m

unfoldable pub run_all : List Call → Sessions → Sessions
run_all [] m = m
run_all (c ∷ cs) m = run_all cs (run c m)

-- A call that saves does so under another id.
abbrev pub IsFresh : String → Call → Type 0
IsFresh id (saves s) = s.id ≢ id
IsFresh id (rotates hash s) = Unit
IsFresh id (revokes other time) = Unit

-- Every session is stored under its id.
pub record IsKeyed (m : Sessions) : Type 0 where
  pub keyed : (id : String) (s : OperatorSession) → lookup id m ≡ some s → s.id ≡ id

-- The session `id` is there, and revoked.
abbrev pub IsRevoked : String → Sessions → Type 0
IsRevoked id m = (s : OperatorSession) × (lookup id m ≡ some s) × (is_revoked s ≡ true)

some-injective : (a b : OperatorSession) → some a ≡ some b → a ≡ b
some-injective a b h = cc

put-IsKeyed :
    (k : String) (s : OperatorSession) (m : Sessions) → IsKeyed m → s.id ≡ k → IsKeyed (set k s m)
put-IsKeyed k s m h own = record {
  keyed = λ id t found. elim (Bool-cases (k == id)) [
    | inl same ↦
        ap (λ x. x.id) (sym (some-injective s t (rw (lookup-set k id s m, same) at found)))
        ∙ own
        ∙ eq_of_== same
    | inr other ↦ h.keyed id t (rw (lookup-set k id s m, other) at found)
  ];
}

-- How `rotate` ends.
rotate-cases :
    (hash : String) (s : OperatorSession) (m : Sessions)
    → ((rotate hash s m) ≡ (false, m))
      ⊎ ((c : OperatorSession) × (lookup s.id m ≡ some c)
          × (is_revoked c ≡ false)
          × (c.refresh_token_hash ≡ hash)
          × (rotate hash s m ≡ (true, set c.id s m)))
unfolding rotate
rotate-cases hash s m = elim (Option-cases (lookup s.id m)) [
  | inl missing ↦ inl (rw missing refl)
  | inr (c, there) ↦ elim (Bool-cases (is_revoked c)) [
    | inl dead ↦ inl (rw (there, rotate, dead) refl)
    | inr alive ↦ elim (Bool-cases (c.refresh_token_hash != hash)) [
      | inl other ↦ inl (rw (there, rotate, alive, other) refl)
      | inr same ↦ inr (c, there, alive, eq_of_not_!= same, rw (there, rotate, alive, same) refl)
    ]
  ]
]

-- How `revoke` ends.
revoke-cases :
    (id : String) (time : ℕ) (m : Sessions)
    → ((lookup id m ≡ none) × (revoke id time m ≡ m))
      ⊎ ((s : OperatorSession) × (lookup id m ≡ some s)
          × (revoke id time m ≡ set s.id (record s { revoked_at = some time }) m))
unfolding revoke
revoke-cases id time m = elim (Option-cases (lookup id m)) [
  | inl missing ↦ inl (missing, rw missing refl)
  | inr (s, there) ↦ inr (s, there, rw there refl)
]

run-IsKeyed : (c : Call) (m : Sessions) → IsKeyed m → IsKeyed (run c m)
unfolding run save
run-IsKeyed (saves s) m h = put-IsKeyed s.id s m h refl
run-IsKeyed (rotates hash s) m h = elim (rotate-cases hash s m) [
  | inl kept ↦ subst (λ x. IsKeyed x.1) (sym kept) h
  | inr (c, there, _, _, done) ↦
      subst (λ x. IsKeyed x.1) (sym done) (put-IsKeyed c.id s m h (sym (h.keyed s.id c there)))
]
run-IsKeyed (revokes id time) m h = elim (revoke-cases id time m) [
  | inl (_, kept) ↦ subst IsKeyed (sym kept) h
  | inr (s, _, done) ↦
      subst IsKeyed (sym done) (put-IsKeyed s.id (record s { revoked_at = some time }) m h refl)
]

put_other :
    (k id : String) (s : OperatorSession) (m : Sessions)
    → k ≢ id
    → IsRevoked id m
    → IsRevoked id (set k s m)
put_other k id s m h (t, there, dead) = (t, rw (lookup-set k id s m, ==-false h) there, dead)

run-IsRevoked :
    (c : Call) (id : String) (m : Sessions)
    → IsKeyed m
    → IsFresh id c
    → IsRevoked id m
    → IsRevoked id (run c m)
unfolding run save
run-IsRevoked (saves s) id m k f h = put_other s.id id s m f h
run-IsRevoked (rotates hash s) id m k f (t, there, dead) = elim (rotate-cases hash s m) [
  | inl kept ↦ subst (λ x. IsRevoked id x.1) (sym kept) (t, there, dead)
  | inr (c, found, alive, _, done) ↦
      subst (λ x. IsRevoked id x.1) (sym done)
        (put_other c.id id s m
          (λ same.
            let e : some t ≡ some c =
              sym there ∙ ap (λ x. lookup x m) (sym same ∙ k.keyed s.id c found) ∙ found in
            cc)
          (t, there, dead))
]
run-IsRevoked (revokes other time) id m k f (t, there, dead) = elim (revoke-cases other time m) [
  | inl (_, kept) ↦ subst (IsRevoked id) (sym kept) (t, there, dead)
  | inr (s, found, done) ↦ elim (Bool-cases (s.id == id)) [
    | inl same ↦ subst (IsRevoked id) (sym done) (
      record s { revoked_at = some time },
      rw (lookup-set s.id id (record s { revoked_at = some time }) m, same) refl,
      refl,
    )
    | inr distinct ↦
        subst (IsRevoked id) (sym done)
          (t, rw (lookup-set s.id id (record s { revoked_at = some time }) m, distinct) there, dead)
  ]
]

-- A revoked session stays revoked whatever calls of the repository follow, in whatever order: a
-- rotation that read the session before it was revoked does not bring it back. Sessions are stored
-- under their ids, and a call that saves a session does so under another id.
pub run_all-IsRevoked :
    (cs : List Call) (id : String) (m : Sessions)
    → IsKeyed m
    → All (IsFresh id) cs
    → IsRevoked id m
    → IsRevoked id (run_all cs m)
unfolding run_all
run_all-IsRevoked [] id m k f h = h
run_all-IsRevoked (c ∷ cs) id m k f h =
    run_all-IsRevoked cs id (run c m) (run-IsKeyed c m k) f.1 (run-IsRevoked c id m k f.0 h)

refused :
    (hash : String) (s : OperatorSession) (m : Sessions)
    → ((c : OperatorSession) → lookup s.id m ≡ some c → c.refresh_token_hash ≢ hash)
    → rotate hash s m ≡ (false, m)
refused hash s m h = elim (rotate-cases hash s m) [
  | inl kept ↦ kept
  | inr (c, found, _, same, _) ↦ absurd (h c found same)
]

-- A refresh token is used once: of two rotations that both read the session while its hash was
-- `hash`, the one that writes second is refused and changes nothing, if the first one brought a
-- new hash.
pub rotate_once :
    (hash : String) (r s : OperatorSession) (m : Sessions)
    → IsKeyed m
    → r.id ≡ s.id
    → r.refresh_token_hash ≢ hash
    → (rotate hash r m).0 ≡ true
    → rotate hash s (rotate hash r m).1 ≡ (false, (rotate hash r m).1)
rotate_once hash r s m k own new won = elim (rotate-cases hash r m) [
  | inl kept ↦ absurd (cc)
  | inr (c, found, _, _, done) ↦ refused hash s (rotate hash r m).1 (λ t there same.
      let key : c.id ≡ s.id = k.keyed r.id c found ∙ own in
      let e : some r ≡ some t =
        sym (lookup-set_self c.id r m)
        ∙ ap (λ x. lookup x (set c.id r m)) key
        ∙ ap (λ x. lookup s.id x.1) (sym done)
        ∙ there in
      new (ap (λ x. x.refresh_token_hash) (some-injective r t e) ∙ same))
]

pub empty-IsKeyed : IsKeyed []
unfolding lookup
empty-IsKeyed = record { keyed = λ id s h. cc }

pub save-IsKeyed : (s : OperatorSession) (m : Sessions) → IsKeyed m → IsKeyed (save s m)
unfolding save
save-IsKeyed s m h = put-IsKeyed s.id s m h refl
