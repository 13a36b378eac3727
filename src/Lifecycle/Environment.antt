-- ===== src/Lifecycle/Environment.antt =====
-- What the lifecycle takes from outside: SHA-256 (node:crypto), the JSON texts that are hashed, the
-- clock, fresh ids, and the provider that executes and verifies an action. Each answer may depend
-- on how often the environment was asked before.
use eauto_ai.Prelude.{ℕ, suc, String, Bool, List}
use eauto_ai.Prelude.Result.{Result, ok}
use eauto_ai.Prelude.Result.Exec.{Exec}
use eauto_ai.Action.{
  BusinessAction, ActionKind, ActionError, ExactChange, EvidenceBundle, RiskLevel,
}
use eauto_ai.Time.{Timestamp}
use eauto_ai.Lifecycle.{Payload, World}

-- What `hashAction` hashes: every field of an action but its status.
pub record Content : Type 0 where
  pub id : String
  pub account_id : String
  pub kind : ActionKind
  pub target : String
  pub exact_changes : List ExactChange
  pub rationale : String
  pub risk : RiskLevel
  pub evidence_bundle : EvidenceBundle
  pub policy_version : String
  pub expires_at : Timestamp

pub record Environment : Type 0 where
  pub sha256 : String → String
  pub content_json : Content → String
  pub payload_json : Payload → String
  pub iso_text : ℕ → String
  pub clock : ℕ → ℕ
  pub fresh_id : String → ℕ → String
  pub execute : BusinessAction → ℕ → Result ActionError String
  pub verify : BusinessAction → ℕ → Result ActionError (Bool × String)

-- `now()`, `next(prefix)` and the calls of the provider.
module _ (env : Environment) where
  abbrev pub ask : {A : Type 0} → (ℕ → Result ActionError A) → Exec World ActionError A
  ask f w = (f w.asked, record w { asked = suc w.asked })

  abbrev pub now : Exec World ActionError ℕ
  now = ask (λ n. ok (env.clock n))

  abbrev pub next_id : String → Exec World ActionError String
  next_id prefix = ask (λ n. ok (env.fresh_id prefix n))

  abbrev pub content : BusinessAction → Content
  content a = record {
    id = a.id;
    account_id = a.account_id;
    kind = a.kind;
    target = a.target;
    exact_changes = a.exact_changes;
    rationale = a.rationale;
    risk = a.risk;
    evidence_bundle = a.evidence_bundle;
    policy_version = a.policy_version;
    expires_at = a.expires_at;
  }

  unfoldable pub hash_action : BusinessAction → String
  hash_action a = env.sha256 (env.content_json (content a))
