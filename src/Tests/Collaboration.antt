-- ===== src/Tests/Collaboration.antt =====
-- The evidence router and the shared memory at concrete inputs.
use eauto_ai.Prelude.{List, refl, ◌+◌, none, some, true, [], ◌∷◌, All, ◌≡◌, ◌↔◌}
use eauto_ai.Prelude.Int.{pos}
use eauto_ai.Prelude.Result.{ok}
use eauto_ai.Prelude.Result.Exec.{Ends}
use eauto_ai.Time.{at}
use eauto_ai.Action.{EvidenceConfidence, fresh}
use eauto_ai.Collaboration.{
  EvidenceDocument, EvidenceRequest, SemanticMemoryEntry, economic, authoritative, processing,
  active, admitted, decide_semantic_memory_admission,
}
use eauto_ai.Collaboration.Router.{EvidenceResponder, RouterWorld, RouterPorts, process_batch}
use eauto_ai.Collaboration.Backing.{IsHonest}
use eauto_ai.Collaboration.Totals.{process_batch-IsHonest}
use eauto_ai.Prelude.Strings.{sort, string_le}
use eauto_ai.Collaboration.{superseded, reconcile_semantic_memory}
use eauto_ai.Collaboration.Text.{required, required_all}
use eauto_ai.Collaboration.Compose.{
  MemoryInput, MemoryEvent, MemoryPorts, entry_updated, entry_saved, normalize_keywords, compose,
}
use eauto_ai.Collaboration.Memory.{remember}
use eauto_ai.Collaboration.Recall.{IsRemembered, remember-IsRemembered}
use eauto_ai.Collaboration.Admission.{IsAdmissible, decide_semantic_memory_admission_iff}

abbrev document : EvidenceDocument
document = record {
  reference = record {
    id = "e1";
    source = "feed";
    source_record_id = "r1";
    observed_at = at 90;
    freshness = fresh;
    confidence = EvidenceConfidence.high;
    content_hash = "h";
  };
  subject = economic;
  kind = some "cost";
  authority = authoritative;
  expires_at = at 900;
  payload = "{}";
}

abbrev responder : EvidenceResponder
responder = record {
  id = "economics";
  subjects = economic ∷ [];
  respond = λ q now. ok (record { documents = document ∷ []; missing_inputs = [] });
}

abbrev asked : EvidenceRequest
asked = record {
  id = "q1";
  idempotency_key = "k";
  organization_id = "org";
  account_id = "acct";
  conversation_id = "c";
  correlation_id = "c";
  requester_agent_id = "ceo";
  responder_id = "economics";
  subject = economic;
  purpose = "audit";
  required_kinds = "cost" ∷ [];
  maximum_age_ms = 60;
  status = processing;
  attempts = 1;
  maximum_attempts = 5;
  available_at = 90;
  lease_owner = some "w";
  lease_until = some 200;
  failure_reason = none;
  created_at = 80;
  updated_at = 90;
  completed_at = none;
  content_hash = "h";
}

abbrev ports : RouterPorts
ports = record {
  responders = responder ∷ [];
  worker_id = "w";
  lease_ms = 100;
  now = λ n. 100 + n;
  next_id = λ n. "evidence-response-1";
  hash = λ r. "h";
  message = λ e. "failure";
  lease = λ owner now until limit. ok (asked ∷ []);
  save_response = λ r. ok tt;
  update_request = λ q. ok tt;
}

abbrev start : RouterWorld
start = record { events = []; readings = 0 }

process_batch-IsHonest_example :
    Ends
      (λ t. All IsHonest t.events)
      (λ n t. (n.fulfilled + n.failed ≡ n.leased) × All IsHonest t.events)
      (process_batch ports (pos 20) start)
process_batch-IsHonest_example = process_batch-IsHonest ports (pos 20) start tt

abbrev lesson : SemanticMemoryEntry
lesson = record {
  id = "m1";
  organization_id = "org";
  account_id = none;
  topic_key = "pricing";
  title = "t";
  observation = "o";
  rationale = "r";
  scope_description = "s";
  keywords = [];
  source_refs = "e1" ∷ [];
  confidence = EvidenceConfidence.high;
  verified_outcome = true;
  status = active;
  revision = 1;
  supersedes_id = none;
  conflicts_with_ids = [];
  created_at = 80;
  expires_at = some (at 900);
  content_hash = "h";
}

decide_semantic_memory_admission_iff_example :
    (decide_semantic_memory_admission lesson "org" "acct" 100 true ≡ admitted)
    ↔ IsAdmissible lesson "org" "acct" 100 true
decide_semantic_memory_admission_iff_example =
    decide_semantic_memory_admission_iff lesson "org" "acct" 100 true

abbrev memory_ports : MemoryPorts
memory_ports = record {
  now = 100;
  next_id = "m2";
  to_lower_case = λ s. s;
  hash = λ e. "h2";
  list = λ organization account topic limit. ok (lesson ∷ []);
  search = λ organization account query limit. ok [];
  update = λ e. ok tt;
  save = λ e. ok tt;
}

abbrev note : MemoryInput
note = record {
  organization_id = "org";
  account_id = none;
  topic_key = "pricing";
  title = "t2";
  observation = "o2";
  rationale = "r2";
  scope_description = "s2";
  keywords = "price" ∷ [];
  source_refs = "e2" ∷ [];
  confidence = EvidenceConfidence.high;
  verified_outcome = true;
  expires_at = none;
  supersedes_id = some "m1";
  conflicts_with_ids = [];
}

abbrev remembered : SemanticMemoryEntry
remembered = record {
  id = "m2";
  organization_id = "org";
  account_id = none;
  topic_key = "pricing";
  title = "t2";
  observation = "o2";
  rationale = "r2";
  scope_description = "s2";
  keywords = "price" ∷ [];
  source_refs = "e2" ∷ [];
  confidence = EvidenceConfidence.high;
  verified_outcome = true;
  status = active;
  revision = 2;
  supersedes_id = some "m1";
  conflicts_with_ids = [];
  created_at = 100;
  expires_at = none;
  content_hash = "h2";
}

abbrev writes : List MemoryEvent
writes = entry_updated (record lesson { status = superseded }) ∷ entry_saved remembered ∷ []

was_remembered : remember memory_ports note [] ≡ (ok remembered, writes)
unfolding remember compose required required_all normalize_keywords reconcile_semantic_memory sort
    string_le
was_remembered = refl

remember-IsRemembered_example : IsRemembered memory_ports note remembered writes
remember-IsRemembered_example =
    remember-IsRemembered memory_ports note remembered writes was_remembered
