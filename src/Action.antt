-- ===== src/Action.antt =====
-- Business actions, their evidence and their states: packages/domain/src/actions.ts and
-- packages/domain/src/evidence.ts. A value of type `unknown` is the text of its JSON.
pub mod Graph
use eauto_ai.Prelude.{
  ℕ, String, Option, none, some, Bool, true, false, not, ◌||◌, List, [], ◌∷◌, is_empty, includes,
  Eq, index_eq_iff, eqb, ◌≡◌, ◌↔◌, arith, if◌then◌else◌,
}
use eauto_ai.Prelude.Result.{Result, ok, err}
use eauto_ai.Time.{Timestamp}

pub data ActionKind : Type 0 where
  listing_publish listing_update price_update stock_update question_answer : ActionKind
  claim_respond ads_update social_publish medusa_sync : ActionKind

pub data RiskLevel : Type 0 where
  low medium high critical : RiskLevel

pub data ActionStatus : Type 0 where
  draft proposed reviewed approved executing executed : ActionStatus
  verified failed uncertain rejected expired : ActionStatus

abbrev pub position : ActionStatus → ℕ
position draft = 0
position proposed = 1
position reviewed = 2
position approved = 3
position executing = 4
position executed = 5
position verified = 6
position failed = 7
position uncertain = 8
position rejected = 9
position expired = 10

position-injective : (a b : ActionStatus) → position a ≡ position b → a ≡ b
position-injective a b h = ground arith

pub status_eq_iff : (a b : ActionStatus) → (eqb (position a) (position b) ≡ true) ↔ (a ≡ b)
status_eq_iff = index_eq_iff position position-injective

instance abbrev pub status_eq : Eq ActionStatus
status_eq = record { beq = λ a b. eqb (position a) (position b); beq_iff = status_eq_iff }

pub data EvidenceFreshness : Type 0 where
  fresh stale unknown : EvidenceFreshness

pub data EvidenceConfidence : Type 0 where
  low medium high : EvidenceConfidence

pub record EvidenceReference : Type 0 where
  pub id : String
  pub source : String
  pub source_record_id : String
  pub observed_at : Timestamp
  pub freshness : EvidenceFreshness
  pub confidence : EvidenceConfidence
  pub content_hash : String

pub record EvidenceBundle : Type 0 where
  pub id : String
  pub account_id : String
  pub references : List EvidenceReference
  pub complete : Bool
  pub missing_inputs : List String

pub record ExactChange : Type 0 where
  pub field : String
  pub from : String
  pub to : String

pub record BusinessAction : Type 0 where
  pub id : String
  pub account_id : String
  pub kind : ActionKind
  pub target : String
  pub exact_changes : List ExactChange
  pub rationale : String
  pub risk : RiskLevel
  pub status : ActionStatus
  pub evidence_bundle : EvidenceBundle
  pub policy_version : String
  pub expires_at : Timestamp

pub record Approval : Type 0 where
  pub id : String
  pub action_id : String
  pub action_hash : String
  pub approved_by : String
  pub approved_at : ℕ
  pub expires_at : Timestamp

-- What the modules of the action lifecycle throw.
pub data ActionError : Type 0 where
  invalid_transition : ActionStatus → ActionStatus → ActionError
  evidence_incomplete : List String → ActionError
  already_exists : String → ActionError
  transition_conflict : String → ActionError
  already_approved : String → ActionError
  receipt_root_exists : String → ActionError
  receipt_successor_exists : String → ActionError
  not_found : String → ActionError
  not_reviewed action_expired approval_required approval_mismatch : ActionError
  approval_expired verification_failed : ActionError
  remote_error : String → ActionError

abbrev pub transitions : ActionStatus → List ActionStatus
transitions draft = proposed ∷ []
transitions proposed = reviewed ∷ rejected ∷ expired ∷ []
transitions reviewed = approved ∷ rejected ∷ expired ∷ []
transitions approved = executing ∷ expired ∷ []
transitions executing = executed ∷ failed ∷ uncertain ∷ []
transitions executed = verified ∷ failed ∷ uncertain ∷ []
transitions verified = []
transitions failed = []
transitions uncertain = []
transitions rejected = []
transitions expired = []

unfoldable pub transition_action : BusinessAction → ActionStatus → Result ActionError BusinessAction
transition_action action to =
    if not (includes (transitions action.status) to)
    then err (invalid_transition action.status to)
    else ok (record action { status = to })

unfoldable pub assert_complete_evidence : EvidenceBundle → Result ActionError (Unit {0})
assert_complete_evidence bundle =
    if not bundle.complete || not (is_empty bundle.missing_inputs) || is_empty bundle.references
    then err (evidence_incomplete bundle.missing_inputs)
    else ok tt
