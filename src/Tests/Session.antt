-- ===== src/Tests/Session.antt =====
-- Sessions at concrete inputs: one session, rotated and revoked.
use eauto_ai.Prelude.{
  ℕ, zero, suc, String, arith, none, some, true, false, [], ◌∷◌, ◌≡◌, ◌≢◌, refl, ap, ◌==◌,
  string_eq,
}
use mathlib.Core.Bool.{false≢true}
use eauto_ai.Prelude.Assoc.{lookup, set}
use eauto_ai.Time.{at}
use eauto_ai.Access.{ActorIdentity, owner}
use eauto_ai.Session.{OperatorSession, Sessions, rotate, save}
use eauto_ai.Session.{find_session, assert_active_access_session, find_by_access_token_hash}
use eauto_ai.Time.{at}
use eauto_ai.Prelude.Tested.{Any}
use eauto_ai.Session.{IssuedSession}
use eauto_ai.Prelude.Result.{ok}
use eauto_ai.Session.Service.{Secrets, Desk, issue, authenticate_access}
use eauto_ai.Session.Issue.{IsOpen, authenticate_access-IsActive, issue-authenticate_access}
use eauto_ai.Session.Revocation.{
  rotates, revokes, run_all, IsRevoked, empty-IsKeyed, save-IsKeyed, run_all-IsRevoked, rotate_once,
}

abbrev actor : ActorIdentity
actor = record { id = "u1"; organization_id = "org"; roles = owner ∷ []; account_ids = "*" ∷ [] }

abbrev session : OperatorSession
session = record {
  id = "s1";
  actor = actor;
  access_token_hash = "a";
  refresh_token_hash = "r";
  access_expires_at = at 100;
  refresh_expires_at = at 1000;
  created_at = 1;
  rotated_at = none;
  revoked_at = none;
}

abbrev rotated : OperatorSession
rotated = record session { refresh_token_hash = "r2" }

abbrev other : OperatorSession
other = record session { refresh_token_hash = "r3" }

abbrev revoked : OperatorSession
revoked = record session { revoked_at = some 5 }

abbrev alive : Sessions
alive = save session []

abbrev dead : Sessions
dead = save revoked []

dead_lookup : IsRevoked "s1" dead
unfolding save lookup set
dead_lookup = (revoked, refl, refl)

run_all-IsRevoked_example :
    IsRevoked "s1" (run_all (rotates "r" rotated ∷ revokes "s1" 9 ∷ []) dead)
run_all-IsRevoked_example =
    run_all-IsRevoked (rotates "r" rotated ∷ revokes "s1" 9 ∷ []) "s1" dead
      (save-IsKeyed revoked [] empty-IsKeyed) (tt, (tt, tt)) dead_lookup

new_hash : rotated.refresh_token_hash ≢ "r"
new_hash h = false≢true (ap (λ s. s == "r") h)

won : (rotate "r" rotated alive).0 ≡ true
unfolding rotate save lookup set
won = refl

rotate_once_example :
    rotate "r" other (rotate "r" rotated alive).1 ≡ (false, (rotate "r" rotated alive).1)
rotate_once_example =
    rotate_once "r" rotated other alive (save-IsKeyed session [] empty-IsKeyed) refl new_hash won

abbrev tokens : ℕ → String
tokens (suc zero) = "token"
tokens n = "refresh"

abbrev secrets : Secrets
secrets = record {
  generate_token = tokens;
  hash_token = λ t. t;
  clock = λ n. n;
  fresh_id = λ n. "s9";
  access_ms = 100;
  refresh_ms = 1000;
}

abbrev desk : Desk
desk = record { sessions = alive; asked = 0 }

abbrev later_desk : Desk
later_desk = record { sessions = (issue secrets actor desk).1.sessions; asked = 50 }

no_token : find_by_access_token_hash "token" desk.sessions ≡ none
unfolding find_session save set
no_token = refl

abbrev given : IssuedSession
given = record {
  access_token = "token";
  refresh_token = "refresh";
  access_expires_at = at 100;
  refresh_expires_at = at 1000;
  actor = actor;
}

handed : (issue secrets actor desk).0 ≡ ok given
unfolding issue
handed = refl

issue-authenticate_access_example : (authenticate_access secrets "token" later_desk).0 ≡ ok actor
issue-authenticate_access_example =
    issue-authenticate_access secrets actor desk later_desk given handed no_token refl (omega arith)

opened : (authenticate_access secrets "a" desk).0 ≡ ok actor
unfolding authenticate_access find_session save set assert_active_access_session
opened = refl

authenticate_access-IsActive_example : Any (λ entry. IsOpen secrets "a" 0 actor entry.1) alive
authenticate_access-IsActive_example = authenticate_access-IsActive secrets "a" desk actor opened
