-- ===== src/Profit/Scope.antt =====
-- What the service saves, whatever its reader answers.
use eauto_ai.Prelude.{
  String, Option, none, some, inl, inr, Bool-cases, ℕ, true, ◌||◌, List, [], ◌∷◌, All, All-append,
  ◌!=◌, ◌≡◌, refl, ap, sym, ◌∙◌, string_eq, eq_of_not_!=, arith,
}
use mathlib.Core.Path.{subst}
use eauto_ai.Prelude.Result.{Result, ok, err, Returns}
use eauto_ai.Prelude.Result.Pure.{bind-Returns}
use eauto_ai.Prelude.Result.Exec.{lift, throw_if, Ends, lift-Ends, bind-Ends, state_of_Ends}
use eauto_ai.Profit.{
  ProfitabilityInput, CompleteProfitabilitySnapshot, ProfitabilitySnapshot, incomplete, complete,
  RepricingPolicy, RepricingProposal, RepricingDecision, proposed, no_change, incomplete_economics,
  invalid_policy, maximum_increase_exceeded, competitive_ceiling_exceeded, ProfitError,
  out_of_scope, safe_multiply, safe_add,
}
use eauto_ai.Profit.Rounding.{Rounding}
use eauto_ai.Profit.Calculate.{
  Facts, check_input, add_costs, account, settle, calculate_profitability,
}
use eauto_ai.Profit.Reprice.{prepare_repricing_proposal}
use eauto_ai.Profit.Proposed.{IsProposed, prepare-IsProposed}
use eauto_ai.Profit.Service.{
  Ports, Effect, snapshot_saved, proposal_saved, perform, audit_listing, save_proposed,
  prepare_repricing,
}

abbrev pub account_of : ProfitabilitySnapshot → String
account_of (incomplete s) = s.account_id
account_of (complete c) = c.account_id

abbrev pub listing_of : ProfitabilitySnapshot → String
listing_of (incomplete s) = s.listing_id
listing_of (complete c) = c.listing_id

abbrev pub IsOf : String → String → ProfitabilitySnapshot → Type 0
IsOf account listing s = (account_of s ≡ account) × (listing_of s ≡ listing)

module _ (R : Rounding) where
  account-IsOf :
      (input : ProfitabilityInput) (f : Facts) (r : ℕ)
      → Returns (λ c. IsOf input.account_id input.listing_id (complete c)) (account R input f r)
  unfolding account
  account-IsOf input f r =
      let Q = λ (c : CompleteProfitabilitySnapshot).
        IsOf input.account_id input.listing_id (complete c) in
      bind-Returns Q (safe_multiply f.price f.quantity) _ λ gross e.
        bind-Returns Q (add_costs f.quantity 0 f.amounts) _ λ fixed e'.
          bind-Returns Q (safe_add fixed (R.round gross r 10000)) _ λ total e''. (refl, refl)

  settle-IsOf :
      (input : ProfitabilityInput) (f : Facts) (rate : Option ℕ) (missing stale : List String)
      → Returns (IsOf input.account_id input.listing_id) (settle R input f rate missing stale)
  settle-IsOf input f none missing stale = (refl, refl)
  settle-IsOf input f (some r) (m ∷ ms) stale = (refl, refl)
  settle-IsOf input f (some r) [] (s ∷ ss) = (refl, refl)
  settle-IsOf input f (some r) [] [] =
      bind-Returns (IsOf input.account_id input.listing_id) (account R input f r) _ λ c e.
        subst (Returns (λ c. IsOf input.account_id input.listing_id (complete c))) e
          (account-IsOf input f r)

  calculate_profitability-IsOf :
      (input : ProfitabilityInput)
      → Returns (IsOf input.account_id input.listing_id) (calculate_profitability R input)
  unfolding calculate_profitability
  calculate_profitability-IsOf input =
      bind-Returns (IsOf input.account_id input.listing_id) (check_input input) _
        λ f e. settle-IsOf input f f.rate f.missing f.stale

module _ (R : Rounding) (policy : RepricingPolicy) (account listing : String) where
  -- A snapshot of the listing; or a proposal for it that was checked, by this policy, on a complete
  -- snapshot of the listing.
  abbrev pub IsScoped : Effect → Type 0
  IsScoped (snapshot_saved s) = IsOf account listing s
  IsScoped (proposal_saved p) =
      (c : CompleteProfitabilitySnapshot) × IsOf account listing (complete c)
      × IsProposed R c policy p
      × (p.account_id ≡ account)
      × (p.listing_id ≡ listing)
      × (p.requires_approval ≡ true)

  abbrev pub Done : List Effect → Type 0
  Done = All IsScoped

  perform-Done :
      (r : Result ProfitError (Unit {0})) (effect : Effect) (done : List Effect)
      → IsScoped effect
      → Done done
      → Ends Done (λ _ s. Done s) (perform r effect done)
  perform-Done (ok u) effect done h k = All-append IsScoped done (effect ∷ []) k (h, tt)
  perform-Done (err e) effect done h k = k

  -- Whatever the reader and the stores answer, an audit that returns gives a snapshot of the listing.
  audit_listing-Done :
      (ports : Ports) (done : List Effect)
      → Done done
      → Ends Done
          (λ s done'. IsOf account listing s × Done done')
          (audit_listing R ports account listing done)
  unfolding audit_listing
  audit_listing-Done ports done h =
      let R' = λ (s : ProfitabilitySnapshot) (t : List Effect). IsOf account listing s × Done t in
      bind-Ends Done (λ _ t. Done t) R' (lift (ports.read account listing)) _ done
        (lift-Ends Done (λ _ t. Done t) (ports.read account listing) done h (λ _ _. h))
        λ input t i.
          bind-Ends Done
            (λ _ t. (input.account_id ≡ account) × (input.listing_id ≡ listing) × Done t) R'
            (throw_if (input.account_id != account || input.listing_id != listing) out_of_scope) _ t
            (in_scope input.account_id account input.listing_id listing t i)
            λ _ t' (a, l, i').
              bind-Ends Done (λ s t. IsOf account listing s × Done t) R'
                (lift (calculate_profitability R input)) _ t'
                (lift-Ends Done (λ s t. IsOf account listing s × Done t)
                  (calculate_profitability R input) t' i'
                  (λ s made. (
                    moved input s a l (
                        subst (Returns (IsOf input.account_id input.listing_id)) made
                          (calculate_profitability-IsOf R input)),
                    i',
                  )))
                λ s t'' (of, i'').
                  bind-Ends Done (λ _ t. Done t) R'
                    (perform (ports.save_snapshot s) (snapshot_saved s)) _ t''
                    (perform-Done (ports.save_snapshot s) (snapshot_saved s) t'' of i'')
                    λ _ t3 i3. (of, i3)
    where
      moved :
          (input : ProfitabilityInput) (s : ProfitabilitySnapshot)
          → input.account_id ≡ account
          → input.listing_id ≡ listing
          → IsOf input.account_id input.listing_id s
          → IsOf account listing s
      moved input s a l h = (h.0 ∙ a, h.1 ∙ l)

      in_scope :
          (a b c d : String) (t : List Effect)
          → Done t
          → Ends Done
              (λ _ t. (a ≡ b) × (c ≡ d) × Done t)
              (throw_if (a != b || c != d) out_of_scope t)
      in_scope a b c d t i = elim (Bool-cases (a != b || c != d)) [
        | inl e ↦ rw e i
        | inr e ↦ rw e (eq_of_not_!= (ground arith), eq_of_not_!= (ground arith), i)
      ]

  proposal-IsScoped :
      (s : ProfitabilitySnapshot) (p : RepricingProposal)
      → IsOf account listing s
      → prepare_repricing_proposal R s policy ≡ ok (proposed p)
      → IsScoped (proposal_saved p)
  unfolding prepare_repricing_proposal
  proposal-IsScoped (incomplete s) p of h = cc
  proposal-IsScoped (complete c) p of h =
      let asked = prepare-IsProposed R c policy p h in
      (
        c,
        of,
        asked,
        sym (ap (λ x. x.account_id) asked.form) ∙ of.0,
        sym (ap (λ x. x.listing_id) asked.form) ∙ of.1,
        sym (ap (λ x. x.requires_approval) asked.form),
      )

  save_proposed-Done :
      (ports : Ports) (d : RepricingDecision) (done : List Effect)
      → ((p : RepricingProposal) → d ≡ proposed p → IsScoped (proposal_saved p))
      → Done done
      → Ends Done (λ _ t. Done t) (save_proposed R ports d done)
  save_proposed-Done ports (proposed p) done g h =
      perform-Done (ports.save_proposal p) (proposal_saved p) done (g p refl) h
  save_proposed-Done ports (no_change m t) done g h = h
  save_proposed-Done ports (incomplete_economics ms) done g h = h
  save_proposed-Done ports invalid_policy done g h = h
  save_proposed-Done ports (maximum_increase_exceeded n) done g h = h
  save_proposed-Done ports (competitive_ceiling_exceeded n) done g h = h

  prepare_repricing-Done :
      (ports : Ports) (done : List Effect)
      → Done done
      → Ends Done (λ _ t. Done t) (prepare_repricing R ports account listing policy done)
  unfolding prepare_repricing
  prepare_repricing-Done ports done h =
      let R' = λ (d : RepricingDecision) (t : List Effect). Done t in
      bind-Ends Done (λ s t. IsOf account listing s × Done t) R'
        (audit_listing R ports account listing) _ done (audit_listing-Done ports done h)
        λ s t (of, i).
          bind-Ends Done
            (λ d t.
              ((p : RepricingProposal) → d ≡ proposed p → IsScoped (proposal_saved p)) × Done t)
            R' (lift (prepare_repricing_proposal R s policy)) _ t
            (lift-Ends Done
              (λ d t.
                ((p : RepricingProposal) → d ≡ proposed p → IsScoped (proposal_saved p)) × Done t)
              (prepare_repricing_proposal R s policy) t i
              (λ d made. ((λ p e. proposal-IsScoped s p of (made ∙ ap ok e)), i)))
            λ d t' (g, i').
              bind-Ends Done (λ _ t. Done t) R' (save_proposed R ports d) _ t'
                (save_proposed-Done ports d t' g i') λ _ t'' i''. i''

-- Whatever the reader and the stores answer, and whether the call returns or throws, every snapshot
-- that `prepareRepricing` saves is of the requested account and listing, and every proposal that it
-- saves is for them, asks for approval, and passed all the checks of the policy on a complete
-- snapshot of them.
pub prepare_repricing-IsScoped :
    (R : Rounding) (ports : Ports) (account listing : String) (policy : RepricingPolicy)
    → All
        (IsScoped R policy account listing)
        (prepare_repricing R ports account listing policy []).1
prepare_repricing-IsScoped R ports account listing policy =
    state_of_Ends (Done R policy account listing) _
      (prepare_repricing-Done R policy account listing ports [] tt)
