-- ===== src/Session/Service.antt =====
-- `SessionService` of packages/application/src/sessionService.ts. The token generator, the hash of a
-- token, the clock and the ids come from outside; each answer may depend on how often they were
-- asked before.
use eauto_ai.Prelude.{ℕ, suc, ◌+◌, String, Option, none, some, not}
use eauto_ai.Prelude.Result.{Result, ok, err}
use eauto_ai.Prelude.Result.Exec.{Exec, pure, lift, throw_if, ◌>>=◌, ◌>>◌}
use eauto_ai.Time.{at}
use eauto_ai.Access.{ActorIdentity}
use eauto_ai.Session.{
  OperatorSession, IssuedSession, SessionError, unauthenticated, Sessions,
  assert_active_access_session, assert_active_refresh_session, find_by_access_token_hash,
  find_by_refresh_token_hash, save, rotate as rotate_session, revoke,
}

pub record Secrets : Type 0 where
  pub generate_token : ℕ → String
  pub hash_token : String → String
  pub clock : ℕ → ℕ
  pub fresh_id : ℕ → String
  pub access_ms : ℕ
  pub refresh_ms : ℕ

pub record Desk : Type 0 where
  pub sessions : Sessions
  pub asked : ℕ

abbrev pub to_issued : OperatorSession → String → String → IssuedSession
to_issued session access_token refresh_token = record {
  access_token = access_token;
  refresh_token = refresh_token;
  access_expires_at = session.access_expires_at;
  refresh_expires_at = session.refresh_expires_at;
  actor = session.actor;
}

-- `if (!found) throw new AuthenticationError(message)`
abbrev pub require : Option OperatorSession → String → Result SessionError OperatorSession
require none message = err (unauthenticated message)
require (some session) message = ok session

abbrev pub revoke_found : Option OperatorSession → ℕ → Desk → Desk
revoke_found none time d = d
revoke_found (some session) time d = record d {
  sessions = revoke session.id time d.sessions;
  asked = suc d.asked;
}

module _ (env : Secrets) where
  abbrev pub ask : {A : Type 0} → (ℕ → A) → Exec Desk SessionError A
  ask f d = (ok (f d.asked), record d { asked = suc d.asked })

  unfoldable pub issue : ActorIdentity → Exec Desk SessionError IssuedSession
  issue actor = do
    now ← ask env.clock
    access_token ← ask env.generate_token
    refresh_token ← ask env.generate_token
    id ← ask env.fresh_id
    let session : OperatorSession = record {
      id = id;
      actor = actor;
      access_token_hash = env.hash_token access_token;
      refresh_token_hash = env.hash_token refresh_token;
      access_expires_at = at (now + env.access_ms);
      refresh_expires_at = at (now + env.refresh_ms);
      created_at = now;
      rotated_at = none;
      revoked_at = none;
    }
    λ d. (ok tt, record d { sessions = save session d.sessions })
    pure (to_issued session access_token refresh_token)

  unfoldable pub authenticate_access : String → Exec Desk SessionError ActorIdentity
  authenticate_access access_token = do
    session ← λ d. (
      require (find_by_access_token_hash (env.hash_token access_token) d.sessions)
          "Invalid access session.",
      d,
    )
    now ← ask env.clock
    lift (assert_active_access_session session now)
    pure session.actor

  unfoldable pub rotate : String → Exec Desk SessionError IssuedSession
  rotate refresh_token = do
    let hash : String = env.hash_token refresh_token
    current ←
        λ d. (require (find_by_refresh_token_hash hash d.sessions) "Invalid refresh session.", d)
    now ← ask env.clock
    lift (assert_active_refresh_session current now)
    access_token ← ask env.generate_token
    next_token ← ask env.generate_token
    let rotated : OperatorSession = record current {
      access_token_hash = env.hash_token access_token;
      refresh_token_hash = env.hash_token next_token;
      access_expires_at = at (now + env.access_ms);
      refresh_expires_at = at (now + env.refresh_ms);
      rotated_at = some now;
    }
    replaced ← λ d.
        let (done, m) = rotate_session hash rotated d.sessions in
        (ok done, record d { sessions = m })
    throw_if (not replaced) (unauthenticated "Refresh session was already rotated.")
    pure (to_issued rotated access_token next_token)

  unfoldable pub revoke_access : String → Exec Desk SessionError (Unit {0})
  revoke_access access_token d = (
    ok tt,
    revoke_found (find_by_access_token_hash (env.hash_token access_token) d.sessions)
        (env.clock d.asked) d,
  )
