-- ===== src/Lifecycle/Authority/Served.antt =====
-- Requests to the service, one after the other.
use eauto_ai.Prelude.{String, List, [], ◌∷◌, string_eq}
use eauto_ai.Prelude.Result.Exec.{state_of_Ends}
use eauto_ai.Action.{BusinessAction, ActionError, status_eq}
use eauto_ai.Lifecycle.{World}
use eauto_ai.Lifecycle.Environment.{Environment}
use eauto_ai.Lifecycle.Service.{propose, mark_reviewed, approve as approve_action, execute}
use eauto_ai.Lifecycle.Authority.{books, IsAuthorised}
use eauto_ai.Lifecycle.Authority.Requests.{Safe, propose-Safe, mark_reviewed-Safe, approve-Safe}
use eauto_ai.Lifecycle.Authority.Execution.{execute-Safe}

-- A request to the service.
pub data Request : Type 0 where
  asks_propose : BusinessAction → String → Request
  asks_review asks_approve asks_execute : String → String → Request

module _ (env : Environment) (message : ActionError → String) where
  unfoldable pub serve : Request → World → World
  serve (asks_propose a by) w = (propose env message a by w).1
  serve (asks_review id by) w = (mark_reviewed env message id by w).1
  serve (asks_approve id by) w = (approve_action env message id by w).1
  serve (asks_execute id by) w = (execute env message id by w).1

  unfoldable pub serve_all : List Request → World → World
  serve_all [] w = w
  serve_all (r ∷ rs) w = serve_all rs (serve r w)

  serve-IsAuthorised :
      (r : Request) (w : World) → IsAuthorised env (books w) → IsAuthorised env (books (serve r w))
  unfolding serve
  serve-IsAuthorised (asks_propose a by) w h =
      state_of_Ends (Safe env message) _ (propose-Safe env message a by w h)
  serve-IsAuthorised (asks_review id by) w h =
      state_of_Ends (Safe env message) _ (mark_reviewed-Safe env message id by w h)
  serve-IsAuthorised (asks_approve id by) w h =
      state_of_Ends (Safe env message) _ (approve-Safe env message id by w h)
  serve-IsAuthorised (asks_execute id by) w h = execute-Safe env message id by w h

  -- Whatever requests are served, whether they return or throw, they keep this: an action that is
  -- stored beyond `reviewed` has an approval on file whose hash is the hash of its content as
  -- stored and whose expiry date is the action's, and an action before has none.
  pub serve_all-IsAuthorised :
      (rs : List Request) (w : World)
      → IsAuthorised env (books w)
      → IsAuthorised env (books (serve_all rs w))
  unfolding serve_all
  serve_all-IsAuthorised [] w h = h
  serve_all-IsAuthorised (r ∷ rs) w h =
      serve_all-IsAuthorised rs (serve r w) (serve-IsAuthorised r w h)
