-- ===== src/SupplierStock/Facts.antt =====
-- The proposals and signals of `evaluateSupplierStock` against the facts.
use eauto_ai.Prelude.{
  ◌≤◌, ◌<◌, none, some, Bool, true, false, ◌&&◌, if◌then◌else◌, ◌≡◌, ◌⊎◌, inl, inr, refl, ap, ◌∙◌,
  arith,
}
use mathlib.Core.Path.{subst}
use eauto_ai.Prelude.Result.{ok, ok-injective}
use eauto_ai.Prelude.Result.Pure.{>>=-eq-ok}
use eauto_ai.SupplierStock.{
  online, active, paused, profitable, SupplierStockInput, SupplierStockPolicy, ProposalKind,
  listing_pause, listing_reactivate, ProposalReason, supplier_out_of_stock,
  stock_recovered_and_margin_verified, StockAvailabilityProposal, SupplierStockAssessment,
}
use eauto_ai.SupplierStock.Reading.{IsRead, check_input-facts}
use eauto_ai.SupplierStock.Assess.{
  Facts, check_input, is_automatic, is_out, is_recovery_confirmed, is_margin_verified, is_unchanged,
  proposal, availability_proposal, assess, evaluate_supplier_stock,
}

-- The source is online, its last sync succeeded, and the evidence of its stock is recent.
pub record IsActionable (input : SupplierStockInput) (f : Facts) : Type 0 where
  pub is_from_online : input.source_type ≡ online
  pub synced : input.sync_succeeded ≡ true
  pub recent : f.stock_stale ≡ false

-- What a proposal needs: to pause, an active listing without stock; to reactivate, a paused one
-- with more stock than the threshold, enough syncs and a margin that was verified at this cost.
abbrev pub IsJustified : SupplierStockInput → Facts → ProposalKind → Type 0
IsJustified input f listing_pause =
    IsActionable input f × (f.current_stock ≡ 0) × (input.listing_status ≡ active)
IsJustified input f listing_reactivate =
    IsActionable input f
    × (f.threshold < f.current_stock)
    × (f.required_syncs ≤ f.syncs)
    × (input.listing_status ≡ paused)
    × (input.profitability_status ≡ profitable)
    × (f.cost_stale ≡ false)
    × (is_unchanged f.change ≡ true)

actionable :
    (input : SupplierStockInput) (policy : SupplierStockPolicy) (f : Facts)
    → is_automatic input policy f ≡ true
    → IsActionable input f
actionable input policy f h = record {
  is_from_online = ground arith;
  synced = ground arith;
  recent = ground arith;
}

out-IsJustified :
    (input : SupplierStockInput) (policy : SupplierStockPolicy) (f : Facts)
    → is_out input policy f ≡ true
    → IsJustified input f listing_pause
out-IsJustified input policy f h =
    (actionable input policy f (ground arith), ground arith, ground arith)

recovery-IsJustified :
    (input : SupplierStockInput) (policy : SupplierStockPolicy) (f : Facts)
    → (is_recovery_confirmed input policy f && is_margin_verified input policy f) ≡ true
    → IsJustified input f listing_reactivate
recovery-IsJustified input policy f h = (
  actionable input policy f (ground arith),
  ground arith,
  ground arith,
  ground arith,
  ground arith,
  ground arith,
  ground arith,
)

abbrev pub reason_of : ProposalKind → ProposalReason
reason_of listing_pause = supplier_out_of_stock
reason_of listing_reactivate = stock_recovered_and_margin_verified

chosen :
    (a b : Bool) (p q : StockAvailabilityProposal) {r : StockAvailabilityProposal}
    → (if a then some p else if b then some q else none) ≡ some r
    → ((a ≡ true) × (p ≡ r)) ⊎ ((b ≡ true) × (q ≡ r))
chosen true b p q h = inl (refl, cc)
chosen false true p q h = inr (refl, cc)
chosen false false p q h = cc

pub proposal-IsJustified :
    (input : SupplierStockInput) (policy : SupplierStockPolicy) (f : Facts)
    (p : StockAvailabilityProposal)
    → availability_proposal input policy f ≡ some p
    → (proposal input policy p.kind (reason_of p.kind) ≡ p) × IsJustified input f p.kind
unfolding availability_proposal
proposal-IsJustified input policy f p h =
    elim (chosen (is_recovery_confirmed input policy f && is_margin_verified input policy f)
      (is_out input policy f)
      (proposal input policy listing_reactivate stock_recovered_and_margin_verified)
      (proposal input policy listing_pause supplier_out_of_stock) h) [
        | inl (e, same) ↦
            subst
              (λ q.
                (proposal input policy q.kind (reason_of q.kind) ≡ q) × IsJustified input f q.kind)
              same (refl, recovery-IsJustified input policy f e)
        | inr (e, same) ↦
            subst
              (λ q.
                (proposal input policy q.kind (reason_of q.kind) ≡ q) × IsJustified input f q.kind)
              same (refl, out-IsJustified input policy f e)
      ]

pub evaluate-facts :
    (input : SupplierStockInput) (policy : SupplierStockPolicy) {a : SupplierStockAssessment}
    → evaluate_supplier_stock input policy ≡ ok a
    → (f : Facts) × (check_input input policy ≡ ok f) × (assess input policy f ≡ a)
unfolding evaluate_supplier_stock
evaluate-facts input policy {a} h =
    let (f, checked, done) = >>=-eq-ok (check_input input policy) _ h in
    (f, checked, ok-injective (assess input policy f) a done)

-- A proposal of an assessment is for the listing of the input, asks for approval, and is justified
-- by what the checks found: a pause by an empty stock, a reactivation by a confirmed recovery and a
-- verified margin, both by evidence of an online source whose sync succeeded. What the checks found
-- are the numbers of the input and of the policy, and evidence is recent if it was observed at most
-- the maximum age before the time of the input and not after it.
pub evaluate_supplier_stock-IsJustified :
    (input : SupplierStockInput) (policy : SupplierStockPolicy) (a : SupplierStockAssessment)
    (p : StockAvailabilityProposal)
    → evaluate_supplier_stock input policy ≡ ok a
    → a.availability_proposal ≡ some p
    → (f : Facts) × (check_input input policy ≡ ok f)
      × IsRead input policy f
      × IsJustified input f p.kind
      × (proposal input policy p.kind (reason_of p.kind) ≡ p)
unfolding assess
evaluate_supplier_stock-IsJustified input policy a p h made =
    let (f, checked, same) = evaluate-facts input policy h in
    let (form, good) =
      proposal-IsJustified input policy f p (ap (λ x. x.availability_proposal) same ∙ made) in
    (f, checked, check_input-facts input policy f checked, good, form)
