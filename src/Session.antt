-- ===== src/Session.antt =====
-- Operator sessions: packages/domain/src/sessions.ts and
-- packages/infrastructure/src/inMemorySessionRepository.ts. A date that the service writes is a number of
-- milliseconds, read back as it was written.
pub mod Revocation
pub mod Service
pub mod Issue
use eauto_ai.Prelude.{
  ℕ, suc, ◌+◌, String, Option, none, some, Bool, true, false, not, ◌||◌, List, [], ◌∷◌, find, map,
  ◌==◌, ◌!=◌, string_eq, if◌then◌else◌,
}
use eauto_ai.Prelude.Assoc.{Assoc, lookup, set}
use eauto_ai.Prelude.Result.{Result, ok, err}
use eauto_ai.Prelude.Result.Pure.{throw_if, ◌>>◌}
use eauto_ai.Time.{Timestamp, at, due}
use eauto_ai.Access.{ActorIdentity}

pub record OperatorSession : Type 0 where
  pub id : String
  pub actor : ActorIdentity
  pub access_token_hash : String
  pub refresh_token_hash : String
  pub access_expires_at : Timestamp
  pub refresh_expires_at : Timestamp
  pub created_at : ℕ
  pub rotated_at : Option ℕ
  pub revoked_at : Option ℕ

pub record IssuedSession : Type 0 where
  pub access_token : String
  pub refresh_token : String
  pub access_expires_at : Timestamp
  pub refresh_expires_at : Timestamp
  pub actor : ActorIdentity

pub data SessionError : Type 0 where
  unauthenticated : String → SessionError
  session_expired : String → SessionError
  session_revoked : SessionError

abbrev pub is_revoked : OperatorSession → Bool
is_revoked session = elim session.revoked_at [ none ↦ false | some time ↦ true ]

unfoldable pub assert_active_access_session : OperatorSession → ℕ → Result SessionError (Unit {0})
assert_active_access_session session now =
    throw_if (is_revoked session) session_revoked
    >> throw_if (due session.access_expires_at now)
        (session_expired "The operator session has expired.")

unfoldable pub assert_active_refresh_session : OperatorSession → ℕ → Result SessionError (Unit {0})
assert_active_refresh_session session now =
    throw_if (is_revoked session) session_revoked
    >> throw_if (due session.refresh_expires_at now)
        (session_expired "The refresh session has expired.")

abbrev pub Sessions : Type 0
Sessions = Assoc OperatorSession

-- `[...sessions.values()].find(p) ?? null`
unfoldable pub find_session : (OperatorSession → Bool) → Sessions → Option OperatorSession
find_session p [] = none
find_session p ((k, s) ∷ m) = if p s then some s else find_session p m

abbrev pub find_by_access_token_hash : String → Sessions → Option OperatorSession
find_by_access_token_hash hash m = find_session (λ s. s.access_token_hash == hash) m

abbrev pub find_by_refresh_token_hash : String → Sessions → Option OperatorSession
find_by_refresh_token_hash hash m = find_session (λ s. s.refresh_token_hash == hash) m

unfoldable pub save : OperatorSession → Sessions → Sessions
save session m = set session.id session m

rotate_found : String → OperatorSession → Option OperatorSession → Sessions → Bool × Sessions
rotate_found hash replacement none m = (false, m)
rotate_found hash replacement (some current) m =
    if is_revoked current || current.refresh_token_hash != hash
    then (false, m)
    else (true, set current.id replacement m)

-- Whether the replacement was made, and the map.
unfoldable pub rotate : String → OperatorSession → Sessions → Bool × Sessions
unfolding rotate_found
rotate hash replacement m = rotate_found hash replacement (lookup replacement.id m) m

revoke_stored : Option OperatorSession → ℕ → Sessions → Sessions
revoke_stored none time m = m
revoke_stored (some session) time m = set session.id (record session { revoked_at = some time }) m

unfoldable pub revoke : String → ℕ → Sessions → Sessions
unfolding revoke_stored
revoke session_id time m = revoke_stored (lookup session_id m) time m
