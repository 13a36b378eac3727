-- ===== src/Action/Graph.antt =====
-- The diagram of the action states, and what its paths have in common.
use eauto_ai.Prelude.{Bool-cases, inl, inr, ap, ◌↔◌, ℕ, ◌≤◌, ◌<◌, true, ◌≡◌, refl, includes, arith}
use eauto_ai.Prelude.Result.{ok, ok-injective, err-ne-ok}
use eauto_ai.Action.{
  BusinessAction, ActionStatus, draft, proposed, reviewed, approved, executing, executed, verified,
  failed, uncertain, rejected, expired, transitions, transition_action, status_eq,
}

-- The edges, read from the lifecycle that the product documents: proposal, review, approval,
-- execution, verification, with the ways out of each stage.
infix 40 ◌⟶◌ ◌⟶*◌
pub data ◌⟶◌ : ActionStatus → ActionStatus → Type 0 where
  propose : draft ⟶ proposed
  review : proposed ⟶ reviewed
  approve : reviewed ⟶ approved
  start : approved ⟶ executing
  finish : executing ⟶ executed
  verify : executed ⟶ verified
  fail_running : executing ⟶ failed
  fail_done : executed ⟶ failed
  doubt_running : executing ⟶ uncertain
  doubt_done : executed ⟶ uncertain
  reject_proposed : proposed ⟶ rejected
  reject_reviewed : reviewed ⟶ rejected
  expire_proposed : proposed ⟶ expired
  expire_reviewed : reviewed ⟶ expired
  expire_approved : approved ⟶ expired

pub data ◌⟶*◌ : ActionStatus → ActionStatus → Type 0 where
  here : {s : ActionStatus} → s ⟶* s
  next : {s t u : ActionStatus} → s ⟶ t → t ⟶* u → s ⟶* u

pub ruleset edges = (
  propose, review, approve, start, finish, verify, fail_running, fail_done, doubt_running,
  doubt_done, reject_proposed, reject_reviewed, expire_proposed, expire_reviewed, expire_approved,
)

allowed_sound : (s t : ActionStatus) → includes (transitions s) t ≡ true → s ⟶ t
allowed_sound s t h = grind (arith, edges)

allowed_complete : {s t : ActionStatus} → s ⟶ t → includes (transitions s) t ≡ true
allowed_complete propose = refl
allowed_complete review = refl
allowed_complete approve = refl
allowed_complete start = refl
allowed_complete finish = refl
allowed_complete verify = refl
allowed_complete fail_running = refl
allowed_complete fail_done = refl
allowed_complete doubt_running = refl
allowed_complete doubt_done = refl
allowed_complete reject_proposed = refl
allowed_complete reject_reviewed = refl
allowed_complete expire_proposed = refl
allowed_complete expire_reviewed = refl
allowed_complete expire_approved = refl

-- `transitionAction` succeeds exactly along the edges of the diagram, and then changes the status
-- and nothing else.
pub transition_action_iff :
    (a b : BusinessAction) (to : ActionStatus)
    → (transition_action a to ≡ ok b) ↔ ((a.status ⟶ to) × (record a { status = to } ≡ b))
unfolding transition_action
transition_action_iff a b to = (
  λ h. elim (Bool-cases (includes (transitions a.status) to)) [
    | inl e ↦ (allowed_sound a.status to e, ok-injective _ b (rw e at h))
    | inr e ↦ absurd (err-ne-ok _ b (rw e at h))
  ],
  λ (edge, same). rw (allowed_complete edge) (ap ok same),
)

-- How far an action has come; every edge goes on.
abbrev stage : ActionStatus → ℕ
stage draft = 0
stage proposed = 1
stage reviewed = 2
stage approved = 3
stage executing = 4
stage executed = 5
stage _ = 6

stage_grows : {s t : ActionStatus} → s ⟶ t → stage s < stage t
stage_grows propose = omega arith
stage_grows review = omega arith
stage_grows _ = omega arith

pub ⟶*-trans : {s t u : ActionStatus} → s ⟶* t → t ⟶* u → s ⟶* u
⟶*-trans here q = q
⟶*-trans (next e p) q = next e (⟶*-trans p q)

-- No state is reached twice: a path that comes back has gone nowhere.
stage-path : {s t : ActionStatus} → s ⟶* t → stage s ≤ stage t
stage-path here = omega arith
stage-path (next e p) = omega (arith, stage_grows e, stage-path p)

pub never_again : {s t : ActionStatus} → s ⟶ t → ¬ (t ⟶* s)
never_again e p = absurd (omega (arith, stage_grows e, stage-path p))
