-- ===== src/Lifecycle/Outcome.antt =====
-- What a caller of `execute` may conclude from an answer.
use eauto_ai.Prelude.{ℕ, String, Option, some, Bool, true, false, not, ◌≡◌, refl, ap, ◌∙◌, inl, inr}
use mathlib.Core.Path.{subst}
use eauto_ai.Prelude.Assoc.{lookup, lookup-set_self}
use eauto_ai.Prelude.Result.{Result, ok, err, ok-injective, err-ne-ok, Result-cases}
use eauto_ai.Prelude.Result.Exec.{lift, throw_if, Ends, lift-Ends, bind-Ends}
use eauto_ai.Action.{
  BusinessAction, verified, uncertain, ActionError, verification_failed, transition_action,
}
use eauto_ai.Action.Graph.{transition_action_iff}
use eauto_ai.Outbox.{OutboxEventDraft}
use eauto_ai.Lifecycle.{LifecyclePayload, ReceiptDraft, ReceiptType, Payload, World}
use eauto_ai.Lifecycle.Environment.{Environment, ask}
use eauto_ai.Lifecycle.Repository.{check_save, put_action, save}
use eauto_ai.Lifecycle.Service.{
  lifecycle_event, receipt_draft, save_with, begin_execution, call_provider, confirm, doubt,
  catch_doubt, after_call, run_provider, execute,
}
use eauto_ai.Lifecycle.Guards.{actions-write_tail}

abbrev Any : World → Type 0
Any w = Unit

whatever :
    {A : Type 0} (R : World → Type 0) (e : Result ActionError A × World)
    → R e.1
    → Ends Any (λ _ u. R u) e
whatever R (ok a, u) h = h
whatever R (err a, u) h = tt

nothing_known : {A : Type 0} (e : Result ActionError A × World) → Ends Any (λ _ u. Unit) e
nothing_known (ok a, u) = tt
nothing_known (err a, u) = tt

module _ (env : Environment) (message : ActionError → String) where
  abbrev Stored : BusinessAction → World → Type 0
  Stored a w = lookup a.id w.actions ≡ some a

  -- The provider said of an executed form of the action that it has taken effect.
  pub record IsVerified (a : BusinessAction) : Type 0 where
    pub done : BusinessAction
    pub question : ℕ
    pub state : String
    pub seen : env.verify done question ≡ ok (true, state)
    pub same : record done { status = verified } ≡ a

  save-Stored :
      (a : BusinessAction) (event : Option (OutboxEventDraft LifecyclePayload))
      (receipt : Option ReceiptDraft) (w : World)
      → Ends Any (λ _ u. Stored a u) (save env a event receipt w)
  unfolding save
  save-Stored a event receipt w = elim (Result-cases (check_save a (lookup a.id w.actions))) [
    | inl (_, passed) ↦ rw passed (
        whatever (Stored a) _ (
          ap (lookup a.id) (actions-write_tail env event receipt (put_action a w))
          ∙ lookup-set_self a.id a w.actions))
    | inr (_, refused) ↦ rw refused tt
  ]

  save_with-Stored :
      (a : BusinessAction) (type : String) (p : Payload) (kind : ReceiptType) (q : Payload)
      (w : World)
      → Ends Any (λ _ u. Stored a u) (save_with env message a type p kind q w)
  unfolding save_with lifecycle_event receipt_draft
  save_with-Stored a type p kind q w = save-Stored a _ _ _

  abbrev Confirmed : BusinessAction → World → Type 0
  Confirmed a u = IsVerified a × Stored a u

  doubt-throws :
      (a : BusinessAction) (e : ActionError) (by : String) (w : World)
      → Ends Any Confirmed (doubt env message a e by w)
  unfolding doubt
  doubt-throws a e by w =
      bind-Ends Any (λ _ u. Unit) Confirmed (lift (transition_action a uncertain)) _ w
        (nothing_known _)
        (λ c w _.
          bind-Ends Any (λ _ u. Unit) Confirmed (save_with env message c _ _ _ _) _ w
            (nothing_known _) (λ _ w _. tt))

  confirm-Confirmed :
      (b : BusinessAction) (result by : String) (w : World)
      → Ends Any Confirmed (confirm env message b result by w)
  unfolding confirm
  confirm-Confirmed b result by w =
      bind-Ends Any (λ _ u. Unit) Confirmed (save_with env message b _ _ _ _) _ w (nothing_known _)
        (λ _ w _.
          bind-Ends Any (λ x u. env.verify b w.asked ≡ ok x) Confirmed (ask env (env.verify b)) _ w
            (asked b w)
            (λ (seen, state) u said.
              bind-Ends Any (λ _ u. seen ≡ true) Confirmed (throw_if (not seen) verification_failed)
                _ u (checked seen u)
                (λ _ u yes.
                  bind-Ends Any (λ c u. record b { status = verified } ≡ c) Confirmed
                    (lift (transition_action b verified)) _ u
                    (lift-Ends Any _ (transition_action b verified) u tt
                      (λ c e. ((transition_action_iff b c verified).0 e).1))
                    (λ c u same.
                      bind-Ends Any (λ _ u. Stored c u) Confirmed (save_with env message c _ _ _ _)
                        _ u (save_with-Stored c _ _ _ _ u)
                        (λ _ u stored. (
                          record {
                            done = b;
                            question = w.asked;
                            state = state;
                            seen = subst (λ s. env.verify b w.asked ≡ ok (s, state)) yes said;
                            same = same;
                          },
                          stored,
                        ))))))
    where
      asked :
          (b : BusinessAction) (w : World)
          → Ends Any (λ x u. env.verify b w.asked ≡ ok x) (ask env (env.verify b) w)
      asked b w =
          lift-Ends Any (λ x u. env.verify b w.asked ≡ ok x) (env.verify b w.asked) _ tt (λ x e. e)

      checked :
          (seen : Bool) (u : World)
          → Ends Any (λ _ u. seen ≡ true) (throw_if (not seen) verification_failed u)
      checked true u = refl
      checked false u = tt

  after_call-Confirmed :
      (a : BusinessAction) (by : String) (e : Result ActionError (BusinessAction × String))
      (w : World)
      → Ends Any Confirmed (after_call env message a by e w)
  after_call-Confirmed a by (err e) w = doubt-throws a e by w
  after_call-Confirmed a by (ok (done, result)) w =
      caught done by (confirm env message done result by w) (confirm-Confirmed done result by w)
    where
      caught :
          (done : BusinessAction) (by : String) (e : Result ActionError BusinessAction × World)
          → Ends Any Confirmed e
          → Ends Any Confirmed (catch_doubt env message done by e.0 e.1)
      caught done by (ok b, u) h = h
      caught done by (err e, u) h = doubt-throws done e by u

  execute-Confirmed :
      (id by : String) (w : World) → Ends Any Confirmed (execute env message id by w)
  unfolding execute run_provider
  execute-Confirmed id by w =
      bind-Ends Any (λ _ u. Unit) Confirmed (begin_execution env message id by) _ w
        (nothing_known _)
        (λ a u _.
          after_call-Confirmed a by (call_provider env message a u).0
            (call_provider env message a u).1)

  of_Ends :
      (e : Result ActionError BusinessAction × World) (a : BusinessAction)
      → Ends Any Confirmed e
      → e.0 ≡ ok a
      → Confirmed a e.1
  of_Ends (ok b, u) a h same = subst (λ x. Confirmed x u) (ok-injective b a same) h
  of_Ends (err x, u) a h same = absurd (err-ne-ok x a same)

  -- An `execute` that returns has had the provider confirm that the action took effect, and left
  -- the action on file as verified: every other end is an error.
  pub execute-IsVerified :
      (id by : String) (w : World) (a : BusinessAction)
      → (execute env message id by w).0 ≡ ok a
      → IsVerified a × (lookup a.id (execute env message id by w).1.actions ≡ some a)
  execute-IsVerified id by w a h =
      of_Ends (execute env message id by w) a (execute-Confirmed id by w) h
