-- ===== src/Collaboration/Trust.antt =====
-- What the router stores says the truth about its evidence.
use eauto_ai.Prelude.{
  ℕ, ◌+◌, String, List, [], ◌∷◌, ◌++◌, All, All-append, find, string_eq, ◌==◌, ◌≡◌, refl,
}
use eauto_ai.Prelude.Result.{Result, ok, err}
use eauto_ai.Prelude.Result.Exec.{lift, Ends, lift-Ends, bind-Ends}
use eauto_ai.Collaboration.{EvidenceRequest, CollaborationError}
use eauto_ai.Collaboration.Text.{unique_references}
use eauto_ai.Collaboration.Router.{
  Answer, EvidenceResponder, RouterEvent, response_saved, request_updated, RouterWorld, RouterPorts,
  missing_kinds, is_complete, settled_request, to_iso, retry_at, failed_request, record_event,
  read_clock, found, response_of, conclude, process, fail,
}
use eauto_ai.Collaboration.Backing.{IsHonest, backed}

module _ (ports : RouterPorts) where
  abbrev pub Honest : RouterWorld → Type 0
  Honest w = All IsHonest w.events

  recorded :
      (r : Result CollaborationError (Unit {0})) (event : RouterEvent) (w : RouterWorld)
      → IsHonest event
      → Honest w
      → Ends Honest (λ _ t. Honest t) (record_event r event w)
  recorded (ok u) event w h i = All-append IsHonest w.events (event ∷ []) i (h, tt)
  recorded (err e) event w h i = i

  pub clock : (w : RouterWorld) → Honest w → Ends Honest (λ _ t. Honest t) (read_clock ports w)
  unfolding read_clock
  clock w h = h

  conclude-Honest :
      (q : EvidenceRequest) (responder : EvidenceResponder) (answer : Answer)
      (missing : List String) (now expires : ℕ) (w : RouterWorld)
      → unique_references (answer.missing_inputs ++ missing_kinds answer.documents q.required_kinds)
        ≡ ok missing
      → Honest w
      → Ends Honest (λ _ t. Honest t) (conclude ports q responder answer missing now expires w)
  unfolding conclude
  conclude-Honest q responder answer missing now expires w h i =
      let response = response_of ports q responder answer missing now expires w.readings in
      let settled = settled_request q (is_complete answer.documents missing now) missing now in
      bind-Ends Honest (λ _ t. Honest t) (λ _ t. Honest t)
        (record_event (ports.save_response response) (response_saved q response)) _ w
        (recorded (ports.save_response response) (response_saved q response) w
          (
            refl,
            refl,
            refl,
            backed q responder answer missing ports now expires w.readings h
                (is_complete answer.documents missing now) refl,
          )
          i)
        λ _ t i.
          recorded (ports.update_request settled) (request_updated q settled) t
            (refl, refl, refl, refl, refl) i

  pub process-Honest :
      (q : EvidenceRequest) (w : RouterWorld)
      → Honest w
      → Ends Honest (λ _ t. Honest t) (process ports q w)
  unfolding process
  process-Honest q w i =
      let R' = λ (_ : Unit {0}) (t : RouterWorld). Honest t in
      bind-Ends Honest (λ _ t. Honest t) R'
        (lift (found ports (find (λ r. r.id == q.responder_id) ports.responders))) _ w
        (lift-Ends Honest (λ _ t. Honest t) _ w i (λ _ _. i))
        λ responder t i.
          bind-Ends Honest (λ _ t. Honest t) R' (read_clock ports) _ t (clock t i)
            λ now t i.
              bind-Ends Honest (λ _ t. Honest t) R' (lift (responder.respond q now)) _ t
                (lift-Ends Honest (λ _ t. Honest t) (responder.respond q now) t i (λ _ _. i))
                λ answer t i.
                  let inputs =
                    answer.missing_inputs ++ missing_kinds answer.documents q.required_kinds in
                  bind-Ends Honest (λ missing t. (unique_references inputs ≡ ok missing) × Honest t)
                    R' (lift (unique_references inputs)) _ t
                    (lift-Ends Honest
                      (λ missing t. (unique_references inputs ≡ ok missing) × Honest t)
                      (unique_references inputs) t i (λ _ e. (e, i)))
                    λ missing t (e, i).
                      bind-Ends Honest (λ _ t. Honest t) R' (lift (to_iso (now + q.maximum_age_ms)))
                        _ t (lift-Ends Honest (λ _ t. Honest t) _ t i (λ _ _. i))
                        λ expires t i. conclude-Honest q responder answer missing now expires t e i

  pub fail-Honest :
      (q : EvidenceRequest) (thrown : CollaborationError) (w : RouterWorld)
      → Honest w
      → Ends Honest (λ _ t. Honest t) (fail ports q thrown w)
  unfolding fail
  fail-Honest q thrown w i =
      let R' = λ (_ : Unit {0}) (t : RouterWorld). Honest t in
      bind-Ends Honest (λ _ t. Honest t) R' (read_clock ports) _ w (clock w i)
        λ now t i.
          bind-Ends Honest (λ _ t. Honest t) R' (lift (to_iso (retry_at now q.attempts))) _ t
            (lift-Ends Honest (λ _ t. Honest t) (to_iso (retry_at now q.attempts)) t i (λ _ _. i))
            λ again t i.
              recorded (ports.update_request (failed_request q now again (ports.message thrown)))
                (request_updated q (failed_request q now again (ports.message thrown))) t
                (refl, refl, refl, refl, refl) i
