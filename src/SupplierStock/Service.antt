-- ===== src/SupplierStock/Service.antt =====
-- `SupplierStockService` of packages/application/src/supplierStockService.ts. The reader of inputs
-- comes from outside; what the service hands to its three other ports is the list of effects.
use eauto_ai.Prelude.{
  String, Option, none, some, Bool, true, false, ◌||◌, List, [], ◌∷◌, ◌++◌, find, All, All-append,
  ◌!=◌, string_eq, ◌≡◌, refl, sym, ap, ◌∙◌, eq_of_not_!=, arith,
}
use mathlib.Core.Path.{subst}
use eauto_ai.Prelude.Result.{Result, ok, ok-injective}
use eauto_ai.Prelude.Result.Pure.{◌>>=◌, ◌>>◌, throw_if, >>=-eq-ok}
use eauto_ai.SupplierStock.{
  SupplierStockInput, SupplierStockPolicy, StockAvailabilityProposal, SupplierStockSignal,
  SupplierStockAssessment, StockError, out_of_scope, SignalDetails, cost_reaudit, margin_reaudit,
}
use eauto_ai.SupplierStock.Assess.{
  Facts, check_input, assess, availability_proposal, is_reaudit, evaluate_supplier_stock,
}
use eauto_ai.SupplierStock.Reading.{IsRead, check_input-facts}
use eauto_ai.SupplierStock.Facts.{IsJustified, proposal-IsJustified, evaluate-facts}

pub record MarginReaudit : Type 0 where
  pub organization_id : String
  pub account_id : String
  pub listing_id : String
  pub reason : String
  pub evidence_refs : List String

pub data Effect : Type 0 where
  save_assessment : SupplierStockAssessment → Effect
  save_proposal : StockAvailabilityProposal → Effect
  schedule_reaudit : MarginReaudit → Effect

-- `String(marginSignal.details.reason ?? "supplier-stock-change")`
abbrev pub reason_text : SignalDetails → String
reason_text (cost_reaudit bps) = "supplier-cost-changed"
reason_text (margin_reaudit status) = "stock-recovered-without-verified-margin"
reason_text _ = "supplier-stock-change"

abbrev pub proposal_effects : Option StockAvailabilityProposal → List Effect
proposal_effects none = []
proposal_effects (some p) = save_proposal p ∷ []

abbrev pub reaudit_effects : SupplierStockAssessment → Option SupplierStockSignal → List Effect
reaudit_effects a none = []
reaudit_effects a (some s) =
    schedule_reaudit (record {
      organization_id = a.organization_id;
      account_id = a.account_id;
      listing_id = a.listing_id;
      reason = reason_text s.details;
      evidence_refs = a.evidence_refs;
    })
    ∷ []

abbrev pub effects_of : SupplierStockAssessment → List Effect
effects_of a =
    save_assessment a
    ∷ (proposal_effects a.availability_proposal ++ reaudit_effects a (find is_reaudit a.signals))

-- The assessment and the effects, or an error and no effect.
unfoldable pub evaluate_listing :
    (String → String → String → Result StockError SupplierStockInput)
    → String
    → String
    → String
    → SupplierStockPolicy
    → Result StockError (SupplierStockAssessment × List Effect)
evaluate_listing read account_id listing_id supplier_source_id policy = do
  input ← read account_id listing_id supplier_source_id
  throw_if
      (input.account_id != account_id
        || (input.listing_id != listing_id || input.supplier_source_id != supplier_source_id))
      out_of_scope
  assessment ← evaluate_supplier_stock input policy
  ok (assessment, effects_of assessment)

-- An effect for the listing of an input, and a proposal only where the facts of that input justify
-- it.
abbrev pub IsFor : SupplierStockInput → Facts → Effect → Type 0
IsFor input f (save_assessment a) =
    (a.account_id ≡ input.account_id)
    × (a.listing_id ≡ input.listing_id)
    × (a.supplier_source_id ≡ input.supplier_source_id)
IsFor input f (save_proposal p) =
    IsJustified input f p.kind
    × (p.account_id ≡ input.account_id)
    × (p.listing_id ≡ input.listing_id)
    × (p.supplier_source_id ≡ input.supplier_source_id)
    × (p.requires_approval ≡ true)
IsFor input f (schedule_reaudit r) =
    (r.account_id ≡ input.account_id) × (r.listing_id ≡ input.listing_id)

-- The reader's answer is for what was asked, and so are all the effects.
pub record IsEvaluated (read : String → String → String → Result StockError SupplierStockInput)
    (account_id listing_id supplier_source_id : String) (policy : SupplierStockPolicy)
    (effects : List Effect) : Type 0 where
  pub input : SupplierStockInput
  pub facts : Facts
  pub answered : read account_id listing_id supplier_source_id ≡ ok input
  pub account : input.account_id ≡ account_id
  pub listing : input.listing_id ≡ listing_id
  pub source : input.supplier_source_id ≡ supplier_source_id
  pub checked : check_input input policy ≡ ok facts
  pub read_facts : IsRead input policy facts
  pub all_for : All (IsFor input facts) effects

in_scope :
    (a b c d e f : String) → (a != b || (c != d || e != f)) ≡ false → (a ≡ b) × (c ≡ d) × (e ≡ f)
in_scope a b c d e f h =
    let parts = split_or (a != b) (c != d) (e != f) h in
    (eq_of_not_!= parts.0, eq_of_not_!= parts.1, eq_of_not_!= parts.2)
  where
    split_or : (x y z : Bool) → (x || (y || z)) ≡ false → (x ≡ false) × (y ≡ false) × (z ≡ false)
    split_or x y z h = ground arith

All-proposal_effects :
    (P : Effect → Type 0) (o : Option StockAvailabilityProposal)
    → ((p : StockAvailabilityProposal) → o ≡ some p → P (save_proposal p))
    → All P (proposal_effects o)
All-proposal_effects P none g = tt
All-proposal_effects P (some p) g = (g p refl, tt)

All-reaudit_effects :
    (input : SupplierStockInput) (f : Facts) (a : SupplierStockAssessment)
    (o : Option SupplierStockSignal)
    → a.account_id ≡ input.account_id
    → a.listing_id ≡ input.listing_id
    → All (IsFor input f) (reaudit_effects a o)
All-reaudit_effects input f a none h k = tt
All-reaudit_effects input f a (some s) h k = ((h, k), tt)

proposal-IsFor :
    (input : SupplierStockInput) (policy : SupplierStockPolicy) (f : Facts)
    (p : StockAvailabilityProposal)
    → availability_proposal input policy f ≡ some p
    → IsFor input f (save_proposal p)
proposal-IsFor input policy f p made =
    let (form, good) = proposal-IsJustified input policy f p made in
    (
      good,
      sym (ap (λ q. q.account_id) form),
      sym (ap (λ q. q.listing_id) form),
      sym (ap (λ q. q.supplier_source_id) form),
      sym (ap (λ q. q.requires_approval) form),
    )

effects-IsFor :
    (input : SupplierStockInput) (policy : SupplierStockPolicy) (f : Facts)
    → All (IsFor input f) (effects_of (assess input policy f))
unfolding assess
effects-IsFor input policy f =
    let a = assess input policy f in
    (
      (refl, refl, refl),
      All-append (IsFor input f) (proposal_effects a.availability_proposal) _
          (All-proposal_effects (IsFor input f) a.availability_proposal
            (λ p made. proposal-IsFor input policy f p made))
          (All-reaudit_effects input f a (find is_reaudit a.signals) refl refl),
    )

throw_if-passed : (bad : Bool) (e : StockError) (u : Unit {0}) → throw_if bad e ≡ ok u → bad ≡ false
throw_if-passed true e u h = cc
throw_if-passed false e u h = refl

-- Whatever the reader answers, a call that returns had an answer for the requested account, listing
-- and supplier source, which passed the checks, and every effect is for them; a proposal among the
-- effects asks for approval and is justified by the facts that the checks found in that answer.
pub evaluate_listing-IsFor :
    (read : String → String → String → Result StockError SupplierStockInput)
    (account_id listing_id supplier_source_id : String) (policy : SupplierStockPolicy)
    (a : SupplierStockAssessment) (effects : List Effect)
    → evaluate_listing read account_id listing_id supplier_source_id policy ≡ ok (a, effects)
    → IsEvaluated read account_id listing_id supplier_source_id policy effects
unfolding evaluate_listing
evaluate_listing-IsFor read account_id listing_id supplier_source_id policy a effects h =
    let (input, answered, h1) = >>=-eq-ok (read account_id listing_id supplier_source_id) _ h in
    let (u, passed, h2) = >>=-eq-ok (throw_if _ out_of_scope) _ h1 in
    let (b, evaluated, h3) = >>=-eq-ok (evaluate_supplier_stock input policy) _ h2 in
    let (account, listing, source) = in_scope _ _ _ _ _ _ (throw_if-passed _ _ u passed) in
    let (f, checked, same) = evaluate-facts input policy evaluated in
    record {
      input = input;
      facts = f;
      answered = answered;
      account = account;
      listing = listing;
      source = source;
      checked = checked;
      read_facts = check_input-facts input policy f checked;
      all_for =
          subst (All (IsFor input f))
            (ap effects_of same ∙ ap (λ x. x.1) (ok-injective (b, effects_of b) (a, effects) h3))
            (effects-IsFor input policy f);
    }
