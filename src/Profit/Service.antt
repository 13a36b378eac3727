-- ===== src/Profit/Service.antt =====
-- `ProfitEngineService` of packages/application/src/profitEngineService.ts. The reader of inputs and
-- the two stores come from outside and may throw; what they have saved is the list of effects.
use eauto_ai.Prelude.{String, ◌||◌, List, [], ◌∷◌, ◌++◌, ◌!=◌, string_eq}
use eauto_ai.Prelude.Result.{Result, ok, err}
use eauto_ai.Prelude.Result.Exec.{Exec, pure, lift, throw_if, ◌>>=◌, ◌>>◌}
use eauto_ai.Profit.{
  ProfitabilityInput, ProfitabilitySnapshot, RepricingPolicy, RepricingProposal, RepricingDecision,
  proposed, ProfitError, out_of_scope,
}
use eauto_ai.Profit.Rounding.{Rounding}
use eauto_ai.Profit.Calculate.{calculate_profitability}
use eauto_ai.Profit.Reprice.{prepare_repricing_proposal}

pub record Ports : Type 0 where
  pub read : String → String → Result ProfitError ProfitabilityInput
  pub save_snapshot : ProfitabilitySnapshot → Result ProfitError (Unit {0})
  pub save_proposal : RepricingProposal → Result ProfitError (Unit {0})

pub data Effect : Type 0 where
  snapshot_saved : ProfitabilitySnapshot → Effect
  proposal_saved : RepricingProposal → Effect

-- A call of a store: what it answers, and the effect where it does not throw.
abbrev pub perform :
    Result ProfitError (Unit {0}) → Effect → Exec (List Effect) ProfitError (Unit {0})
perform (ok u) effect done = (ok u, done ++ effect ∷ [])
perform (err thrown) effect done = (err thrown, done)

module _ (R : Rounding) (ports : Ports) where
  unfoldable pub audit_listing :
      String → String → Exec (List Effect) ProfitError ProfitabilitySnapshot
  audit_listing account_id listing_id = do
    input ← lift (ports.read account_id listing_id)
    throw_if (input.account_id != account_id || input.listing_id != listing_id) out_of_scope
    snapshot ← lift (calculate_profitability R input)
    perform (ports.save_snapshot snapshot) (snapshot_saved snapshot)
    pure snapshot

  -- `if (decision.status === "proposed") await this.proposals.save(decision)`
  abbrev pub save_proposed : RepricingDecision → Exec (List Effect) ProfitError (Unit {0})
  save_proposed (proposed p) = perform (ports.save_proposal p) (proposal_saved p)
  save_proposed decision = pure tt

  unfoldable pub prepare_repricing :
      String → String → RepricingPolicy → Exec (List Effect) ProfitError RepricingDecision
  prepare_repricing account_id listing_id policy = do
    snapshot ← audit_listing account_id listing_id
    decision ← lift (prepare_repricing_proposal R snapshot policy)
    save_proposed decision
    pure decision
