-- ===== src/Session/Issue.antt =====
-- What an access token opens: sessions as `SessionService` issues and checks them.
use mathlib.Core.Path.{subst}
use eauto_ai.Prelude.Tested.{Any}
use eauto_ai.Prelude.{
  ℕ, Option, sym, ap, eq_of_==, suc, ◌+◌, ◌<◌, String, none, some, Bool, true, false, [], ◌∷◌, ◌==◌,
  string_eq, ==_refl, ◌≡◌, refl, arith, inl, inr, Bool-cases, Option-cases, leb,
}
use eauto_ai.Prelude.Assoc.{set}
use eauto_ai.Prelude.Result.{ok, ok-injective, err-ne-ok}
use eauto_ai.Time.{at, due, IsAhead, due-IsAhead}
use eauto_ai.Access.{ActorIdentity}
use eauto_ai.Session.{
  OperatorSession, IssuedSession, Sessions, is_revoked, assert_active_access_session, find_session,
  find_by_access_token_hash, save,
}
use eauto_ai.Session.Service.{Secrets, Desk, issue, authenticate_access}

find_session-set :
    (p : OperatorSession → Bool) (k : String) (s : OperatorSession) (m : Sessions)
    → p s ≡ true
    → find_session p m ≡ none
    → find_session p (set k s m) ≡ some s
unfolding find_session set
find_session-set p k s [] h n = rw h refl
find_session-set p k s ((j, v) ∷ m) h n = elim (Bool-cases (p v)) [
  | inl e ↦ absurd (some-ne-none v (rw e at n))
  | inr e ↦ elim (Bool-cases (j == k)) [
    | inl same ↦ rw (same, h) refl
    | inr other ↦ rw (other, e) (find_session-set p k s m h (rw e at n))
  ]
]
  where
    some-ne-none : (v : OperatorSession) → some v ≡ none → ⊥
    some-ne-none v h = cc

find_session-Any :
    (P : OperatorSession → Type 0) (p : OperatorSession → Bool) (m : Sessions) {s : OperatorSession}
    → find_session p m ≡ some s
    → (p s ≡ true → P s)
    → Any (λ entry. P entry.1) m
unfolding find_session
find_session-Any P p [] h f = cc
find_session-Any P p ((k, v) ∷ m) {s} h f = elim (Bool-cases (p v)) [
  | inl e ↦
      let same : v ≡ s = some-injective v s (rw e at h) in
      inl (subst P (sym same) (f (subst (λ x. p x ≡ true) same e)))
  | inr e ↦ inr (find_session-Any P p m (rw e at h) f)
]
  where
    some-injective :
        (a b : OperatorSession) → ◌≡◌ {A = Option OperatorSession} (some a) (some b) → a ≡ b
    some-injective a b h = cc

unrevoked : (s : OperatorSession) → is_revoked s ≡ false → s.revoked_at ≡ none
unrevoked s h = go s.revoked_at h
  where
    go : (o : Option ℕ) → elim o [ none ↦ false | some time ↦ true ] ≡ false → o ≡ none
    go none h = refl
    go (some t) h = cc

module _ (env : Secrets) where
  -- What a session needs to be opened by a token for an actor.
  pub record IsOpen (token : String) (now : ℕ) (actor : ActorIdentity) (s : OperatorSession)
      : Type 0 where
    pub hash : s.access_token_hash ≡ env.hash_token token
    pub for_actor : s.actor ≡ actor
    pub not_revoked : s.revoked_at ≡ none
    pub in_time : IsAhead s.access_expires_at now

  -- A token opens a session only if a stored session has the hash of that token, belongs to the
  -- actor that is answered, was not revoked, and its access time, where it is a date, is not over.
  pub authenticate_access-IsActive :
      (token : String) (d : Desk) (actor : ActorIdentity)
      → (authenticate_access env token d).0 ≡ ok actor
      → Any (λ entry. IsOpen token (env.clock d.asked) actor entry.1) d.sessions
  unfolding authenticate_access assert_active_access_session
  authenticate_access-IsActive token d actor h =
      let hash = env.hash_token token in
      elim (Option-cases (find_by_access_token_hash hash d.sessions)) [
        | inl missing ↦ absurd (err-ne-ok _ actor (rw missing at h))
        | inr (s, there) ↦ elim (Bool-cases (is_revoked s)) [
          | inl gone ↦ absurd (err-ne-ok _ actor (rw (there, gone) at h))
          | inr alive ↦ elim (Bool-cases (due s.access_expires_at (env.clock d.asked))) [
            | inl late ↦ absurd (err-ne-ok _ actor (rw (there, alive, late) at h))
            | inr early ↦
                find_session-Any (IsOpen token (env.clock d.asked) actor)
                  (λ x. x.access_token_hash == hash) d.sessions there
                  (λ same. record {
                    hash = eq_of_== same;
                    for_actor = ok-injective s.actor actor (rw (there, alive, early) at h);
                    not_revoked = unrevoked s alive;
                    in_time = due-IsAhead s.access_expires_at (env.clock d.asked) early;
                  })
          ]
        ]
      ]

  -- The access token that `issue` hands out opens the session for its actor until the time that is
  -- handed out with it: in every later state of the same sessions, if no stored session had the
  -- token's hash before.
  pub issue-authenticate_access :
      (actor : ActorIdentity) (d e : Desk) (issued : IssuedSession)
      → (issue env actor d).0 ≡ ok issued
      → find_by_access_token_hash (env.hash_token issued.access_token) d.sessions ≡ none
      → e.sessions ≡ (issue env actor d).1.sessions
      → IsAhead issued.access_expires_at (env.clock e.asked)
      → (authenticate_access env issued.access_token e).0 ≡ ok actor
  unfolding issue authenticate_access save assert_active_access_session
  issue-authenticate_access actor d e issued made fresh same early =
      let token = env.generate_token (suc d.asked) in
      let session : OperatorSession = record {
        id = env.fresh_id (suc (suc (suc d.asked)));
        actor = actor;
        access_token_hash = env.hash_token token;
        refresh_token_hash = env.hash_token (env.generate_token (suc (suc d.asked)));
        access_expires_at = at (env.clock d.asked + env.access_ms);
        refresh_expires_at = at (env.clock d.asked + env.refresh_ms);
        created_at = env.clock d.asked;
        rotated_at = none;
        revoked_at = none;
      } in
      let form = ok-injective _ issued made in
      let named : issued.access_token ≡ token = ap (λ i. i.access_token) (sym form) in
      let until : issued.access_expires_at ≡ at (env.clock d.asked + env.access_ms) =
        ap (λ i. i.access_expires_at) (sym form) in
      let found : find_by_access_token_hash (env.hash_token token) e.sessions ≡ some session =
        rw same (
          find_session-set (λ s. s.access_token_hash == env.hash_token token) session.id session
            d.sessions (==_refl (env.hash_token token)) (rw named at fresh)) in
      let ahead : env.clock e.asked < env.clock d.asked + env.access_ms = rw until at early in
      let in_time : leb (env.clock d.asked + env.access_ms) (env.clock e.asked) ≡ false =
        ground arith in
      rw (named, found, in_time) refl
