-- ===== src/Collaboration/Router.antt =====
-- `EvidenceResponseRouter` of packages/application/src/agentCollaborationService.ts. The responders,
-- the clock, the ids, the hash and the repository come from outside; what the repository has been
-- given is the list of events. A failure keeps the error itself, in place of its text.
use Prim.Native.String.{◌++◌ as concat}
use eauto_ai.Prelude.{
  ℕ, suc, ◌+◌, ◌-◌, ◌*◌, ◌^◌, String, Option, none, some, Bool, true, false, not, ◌&&◌, List, [],
  ◌∷◌, ◌++◌, filter, find, any, length, string_eq, ◌==◌, ltb, leb, if◌then◌else◌,
}
use eauto_ai.Prelude.Int.{ℤ}
use eauto_ai.Prelude.Result.{Result, ok, err}
use eauto_ai.Prelude.Result.Exec.{Exec, pure, lift, ◌>>=◌, ◌>>◌}
use eauto_ai.Time.{Timestamp, at, unreadable}
use eauto_ai.Action.{EvidenceFreshness, fresh}
use eauto_ai.Collaboration.{
  EvidenceSubject, EvidenceAuthority, advisory, EvidenceDocument, fulfilled, incomplete, failed,
  dead, EvidenceRequest, EvidenceResponse, CollaborationError, no_responder, invalid_date, is_empty,
}
use eauto_ai.Collaboration.Text.{unique_references, bounded}

-- What a responder answers.
pub record Answer : Type 0 where
  pub documents : List EvidenceDocument
  pub missing_inputs : List String

pub record EvidenceResponder : Type 0 where
  pub id : String
  pub subjects : List EvidenceSubject
  pub respond : EvidenceRequest → (as_of : ℕ) → Result CollaborationError Answer

pub data RouterEvent : Type 0 where
  response_saved : EvidenceRequest → EvidenceResponse → RouterEvent
  request_updated : EvidenceRequest → EvidenceRequest → RouterEvent

pub record RouterWorld : Type 0 where
  pub events : List RouterEvent
  pub readings : ℕ

pub record RouterPorts : Type 0 where
  pub responders : List EvidenceResponder
  pub worker_id : String
  pub lease_ms : ℕ
  pub now : ℕ → ℕ
  pub next_id : ℕ → String
  -- `hashJson` of a response without its id and hash, and the text of an error.
  pub hash : EvidenceResponse → String
  pub message : CollaborationError → String
  pub lease :
      (owner : String) (now lease_until limit : ℕ)
      → Result CollaborationError (List EvidenceRequest)
  pub save_response : EvidenceResponse → Result CollaborationError (Unit {0})
  pub update_request : EvidenceRequest → Result CollaborationError (Unit {0})

pub record BatchCounts : Type 0 where
  pub leased : ℕ
  pub fulfilled : ℕ
  pub failed : ℕ

-- `document.kind === kind`
abbrev pub is_kind : String → EvidenceDocument → Bool
is_kind kind d = elim d.kind [ none ↦ false | some own ↦ own == kind ]

abbrev pub has_kind : List EvidenceDocument → String → Bool
has_kind documents kind = any (is_kind kind) documents

abbrev pub missing_kinds : List EvidenceDocument → List String → List String
missing_kinds documents required = filter (λ kind. not (has_kind documents kind)) required

abbrev pub is_advisory : EvidenceAuthority → Bool
is_advisory advisory = true
is_advisory _ = false

abbrev pub is_fresh : EvidenceFreshness → Bool
is_fresh fresh = true
is_fresh _ = false

-- `Date.parse(t) > now`
abbrev pub is_later : Timestamp → ℕ → Bool
is_later (at t) now = ltb now t
is_later unreadable now = false

abbrev pub is_trusted : ℕ → EvidenceDocument → Bool
is_trusted now d =
    not (is_advisory d.authority) && (is_fresh d.reference.freshness && is_later d.expires_at now)

abbrev pub all_trusted : ℕ → List EvidenceDocument → Bool
all_trusted now [] = true
all_trusted now (d ∷ ds) = is_trusted now d && all_trusted now ds

unfoldable pub is_complete : List EvidenceDocument → List String → ℕ → Bool
is_complete documents missing now =
    not (is_empty documents) && (is_empty missing && all_trusted now documents)

-- `missingInputs.join(",")`
abbrev pub joined : List String → String
joined [] = ""
joined (x ∷ []) = x
joined (x ∷ y ∷ ys) = concat x (concat "," (joined (y ∷ ys)))

abbrev pub settled_request : EvidenceRequest → Bool → List String → ℕ → EvidenceRequest
settled_request q complete missing now = record q {
  status = if complete then fulfilled else incomplete;
  lease_owner = none;
  lease_until = none;
  failure_reason = if complete then none else some (concat "missing-inputs:" (joined missing));
  updated_at = now;
  completed_at = some now;
}

-- `toISOString()`, which throws on a date that is out of range.
abbrev pub to_iso : ℕ → Result CollaborationError ℕ
to_iso t = if leb t 8640000000000000 then ok t else err invalid_date

abbrev pub retry_at : ℕ → ℕ → ℕ
retry_at now attempts = now + 5000 * 2 ^ (attempts - 1)

abbrev pub failed_request : EvidenceRequest → ℕ → ℕ → String → EvidenceRequest
failed_request q now again reason =
    let is_dead = leb q.maximum_attempts q.attempts in
    record q {
      status = if is_dead then dead else failed;
      available_at = again;
      lease_owner = none;
      lease_until = none;
      failure_reason = some reason;
      updated_at = now;
      completed_at = if is_dead then some now else none;
    }

-- A call of the repository, and its event where it does not throw.
abbrev pub record_event :
    Result CollaborationError (Unit {0})
    → RouterEvent
    → Exec RouterWorld CollaborationError (Unit {0})
record_event (ok u) event w = (ok u, record w { events = w.events ++ event ∷ [] })
record_event (err thrown) event w = (err thrown, w)

module _ (ports : RouterPorts) where
  unfoldable pub read_clock : Exec RouterWorld CollaborationError ℕ
  read_clock w = (ok (ports.now w.readings), record w { readings = suc w.readings })

  abbrev pub found : Option EvidenceResponder → Result CollaborationError EvidenceResponder
  found none = err no_responder
  found (some r) = ok r

  -- The response, its hash made from the response without id and hash.
  abbrev pub response_of :
      EvidenceRequest
      → EvidenceResponder
      → Answer
      → List String
      → (now expires serial : ℕ) → EvidenceResponse
  response_of q responder answer missing now expires serial =
      let plain : EvidenceResponse = record {
        id = "";
        request_id = q.id;
        organization_id = q.organization_id;
        account_id = q.account_id;
        responder_id = responder.id;
        subject = q.subject;
        documents = answer.documents;
        missing_inputs = missing;
        complete = is_complete answer.documents missing now;
        generated_at = now;
        expires_at = expires;
        content_hash = "";
      } in
      record plain { id = ports.next_id serial; content_hash = ports.hash plain }

  -- The end of `process`: the response and the request are stored.
  unfoldable pub conclude :
      EvidenceRequest
      → EvidenceResponder
      → Answer
      → List String
      → (now expires : ℕ) → Exec RouterWorld CollaborationError (Unit {0})
  conclude q responder answer missing now expires w =
      let response = response_of q responder answer missing now expires w.readings in
      let settled = settled_request q (is_complete answer.documents missing now) missing now in
      (record_event (ports.save_response response) (response_saved q response)
          >> record_event (ports.update_request settled) (request_updated q settled))
        w

  unfoldable pub process : EvidenceRequest → Exec RouterWorld CollaborationError (Unit {0})
  process q = do
    responder ← lift (found (find (λ r. r.id == q.responder_id) ports.responders))
    now ← read_clock
    answer ← lift (responder.respond q now)
    missing ← lift (
        unique_references
          (answer.missing_inputs ++ missing_kinds answer.documents q.required_kinds))
    expires ← lift (to_iso (now + q.maximum_age_ms))
    conclude q responder answer missing now expires

  unfoldable pub fail :
      EvidenceRequest → CollaborationError → Exec RouterWorld CollaborationError (Unit {0})
  fail q thrown = do
    now ← read_clock
    again ← lift (to_iso (retry_at now q.attempts))
    record_event (ports.update_request (failed_request q now again (ports.message thrown)))
        (request_updated q (failed_request q now again (ports.message thrown)))

  -- The `catch`, or the count where nothing was thrown.
  abbrev pub caught :
      EvidenceRequest
      → BatchCounts
      → Result CollaborationError (Unit {0})
      → Exec RouterWorld CollaborationError BatchCounts
  caught q n (ok u) = pure (record n { fulfilled = suc n.fulfilled })
  caught q n (err thrown) = do fail q thrown; pure (record n { failed = suc n.failed })

  abbrev pub process_one :
      EvidenceRequest → BatchCounts → Exec RouterWorld CollaborationError BatchCounts
  process_one q n w = let (r, w') = process q w in caught q n r w'

  unfoldable pub process_all :
      List EvidenceRequest → BatchCounts → Exec RouterWorld CollaborationError BatchCounts
  process_all [] n = pure n
  process_all (q ∷ qs) n = do n' ← process_one q n; process_all qs n'

  unfoldable pub process_batch : ℤ → Exec RouterWorld CollaborationError BatchCounts
  process_batch limit = do
    now ← read_clock
    count ← lift (bounded limit)
    requests ← lift (ports.lease ports.worker_id now (now + ports.lease_ms) count)
    process_all requests (record { leased = length requests; fulfilled = 0; failed = 0 })
