-- ===== src/Lifecycle/Receipts.antt =====
-- `createReceipt`, and the store of receipts of packages/infrastructure/src/inMemoryRepositories.ts.
use Prim.Native.String.{◌++◌ as concat}
use eauto_ai.Prelude.{
  String, Option, none, some, Bool, true, false, List, [], ◌∷◌, ◌++◌, filter, any, last, ◌==◌,
  string_eq, if◌then◌else◌,
}
use eauto_ai.Prelude.Result.{Result, ok, err}
use eauto_ai.Action.{ActionError, receipt_root_exists, receipt_successor_exists}
use eauto_ai.Lifecycle.{
  ReceiptType, proposal, review, approval, execution, verification, outcome, ReceiptDraft,
  VerifiableReceipt,
}
use eauto_ai.Lifecycle.Environment.{Environment}

abbrev pub type_text : ReceiptType → String
type_text proposal = "proposal"
type_text review = "review"
type_text approval = "approval"
type_text execution = "execution"
type_text verification = "verification"
type_text outcome = "outcome"

-- `parts.join("|")`
abbrev pub join : List String → String
join [] = ""
join (x ∷ []) = x
join (x ∷ y ∷ ys) = concat x (concat "|" (join (y ∷ ys)))

abbrev pub or_genesis : Option String → String
or_genesis none = "GENESIS"
or_genesis (some hash) = hash

unfoldable pub create_receipt : Environment → ReceiptDraft → Option String → VerifiableReceipt
create_receipt env draft previous =
    let payload_hash = env.sha256 (env.payload_json draft.payload) in
    record {
      draft = draft;
      previous_receipt_hash = previous;
      payload_hash = payload_hash;
      chain_hash = env.sha256 (
          join (
            type_text draft.type
            ∷ draft.account_id
            ∷ draft.action_id
            ∷ draft.content_hash
            ∷ draft.policy_hash
            ∷ draft.evidence_hash
            ∷ or_genesis previous
            ∷ payload_hash
            ∷ env.iso_text draft.recorded_at
            ∷ []));
    }

abbrev pub same_hash : Option String → Option String → Bool
same_hash none none = true
same_hash (some a) (some b) = a == b
same_hash _ _ = false

unfoldable pub list_for_action : String → List VerifiableReceipt → List VerifiableReceipt
list_for_action action_id receipts = filter (λ r. r.action_id == action_id) receipts

abbrev pub taken_error : Option String → String → ActionError
taken_error none action_id = receipt_root_exists action_id
taken_error (some hash) action_id = receipt_successor_exists action_id

-- A second root and a second successor of one receipt are both refused.
unfoldable pub append :
    VerifiableReceipt → List VerifiableReceipt → Result ActionError (List VerifiableReceipt)
unfolding list_for_action
append receipt receipts =
    if any (λ r. same_hash r.previous_receipt_hash receipt.previous_receipt_hash)
      (list_for_action receipt.action_id receipts)
    then err (taken_error receipt.previous_receipt_hash receipt.action_id)
    else ok (receipts ++ receipt ∷ [])

abbrev pub chain_hash_of : Option VerifiableReceipt → Option String
chain_hash_of none = none
chain_hash_of (some r) = some r.chain_hash

-- `appendReceipt`: the receipt that continues the chain of its action.
unfoldable pub append_receipt :
    Environment
    → ReceiptDraft
    → List VerifiableReceipt
    → Result ActionError (List VerifiableReceipt)
append_receipt env draft receipts =
    let chain = list_for_action draft.action_id receipts in
    append (create_receipt env draft (chain_hash_of (last chain))) receipts
