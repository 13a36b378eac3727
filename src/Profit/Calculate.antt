-- ===== src/Profit/Calculate.antt =====
-- `calculateProfitability`: the checks of its input, and the snapshot.
use Prim.Native.String.{◌++◌ as concat}
use eauto_ai.Prelude.{
  ℕ, String, Option, none, some, Bool, true, false, ◌||◌, List, [], ◌∷◌, ◌++◌, any, unique,
  string_eq, if◌then◌else◌,
}
use eauto_ai.Prelude.Int.{ℤ, pos, sub_ℕ, ltb_ℤ}
use eauto_ai.Prelude.Strings.{sort}
use eauto_ai.Prelude.Result.{Result, ok}
use eauto_ai.Prelude.Result.Pure.{◌>>=◌}
use eauto_ai.Profit.{
  EconomicCostKind, product_cost, fulfillment_cost, kind_text, same_kind, ProfitabilityStatus,
  profitable, below_floor, loss, EconomicEvidenceReference, EconomicCostComponent,
  ProfitabilityInput, IncompleteProfitabilitySnapshot, CompleteProfitabilitySnapshot,
  ProfitabilitySnapshot, incomplete, complete, ProfitError, negative_age, negative_cost, positive,
  basis_points, non_negative, parse_date, safe_multiply, safe_add,
}
use eauto_ai.Profit.Rounding.{Rounding}

-- `age < 0 || age > maximumEvidenceAgeMs`
abbrev pub is_old : ℕ → ℕ → ℕ → Bool
is_old observed as_of maximum =
    ltb_ℤ (sub_ℕ as_of observed) (pos 0) || ltb_ℤ (pos maximum) (sub_ℕ as_of observed)

unfoldable pub is_stale : EconomicEvidenceReference → ℕ → ℕ → Result ProfitError Bool
is_stale evidence as_of maximum = do
  observed ← parse_date evidence.observed_at (concat "evidence:" (concat evidence.id ":observedAt"))
  ok (is_old observed as_of maximum)

abbrev pub required_cost_kinds : List EconomicCostKind
required_cost_kinds = product_cost ∷ fulfillment_cost ∷ []

abbrev pub has_kind : List EconomicCostComponent → EconomicCostKind → Bool
has_kind costs kind = any (λ cost. same_kind cost.kind kind) costs

abbrev pub missing_kinds : List EconomicCostComponent → List EconomicCostKind → List String
missing_kinds costs [] = []
missing_kinds costs (kind ∷ kinds) =
    if has_kind costs kind
    then missing_kinds costs kinds
    else kind_text kind ∷ missing_kinds costs kinds

-- The evidence of a number, and whether it is stale.
abbrev pub noted : String → Bool → List String
noted id true = id ∷ []
noted id false = []

-- What one part of the input leaves in the three arrays.
pub record Notes : Type 0 where
  pub missing : List String
  pub stale : List String
  pub refs : List String

-- The rate, where it is given with its evidence.
abbrev pub read_rate :
    Option ℤ → Option EconomicEvidenceReference → ℕ → ℕ → Result ProfitError (Option ℕ × Notes)
read_rate (some rate) (some evidence) as_of age = do
  bps ← basis_points rate "variableRateBps"
  stale ← is_stale evidence as_of age
  ok (some bps, record { missing = []; stale = noted evidence.id stale; refs = evidence.id ∷ [] })
read_rate _ _ as_of age =
    ok (none, record { missing = "marketplace-fee-rate" ∷ []; stale = []; refs = [] })

-- The amounts of the costs, and what the loop over them notes.
unfoldable pub read_costs : List EconomicCostComponent → ℕ → ℕ → Result ProfitError (List ℕ × Notes)
read_costs [] as_of age = ok ([], record { missing = []; stale = []; refs = [] })
read_costs (cost ∷ costs) as_of age = do
  amount ← non_negative cost.amount_minor (negative_cost cost.kind)
  stale ← is_stale cost.evidence as_of age
  rest ← read_costs costs as_of age
  ok (
    amount ∷ rest.0,
    record {
      missing = rest.1.missing;
      stale = noted cost.evidence.id stale ++ rest.1.stale;
      refs = cost.evidence.id ∷ rest.1.refs;
    },
  )

-- What the checks establish.
pub record Facts : Type 0 where
  pub price : ℕ
  pub quantity : ℕ
  pub minimum : ℕ
  pub age : ℕ
  pub as_of : ℕ
  pub rate : Option ℕ
  pub amounts : List ℕ
  pub missing : List String
  pub stale : List String
  pub refs : List String

unfoldable pub check_input : ProfitabilityInput → Result ProfitError Facts
check_input input = do
  price ← positive input.sale_price_minor "salePriceMinor"
  quantity ← positive input.quantity "quantity"
  minimum ← basis_points input.minimum_margin_bps "minimumMarginBps"
  age ← non_negative input.maximum_evidence_age_ms negative_age
  as_of ← parse_date input.as_of "asOf"
  rate ← read_rate input.variable_rate_bps input.variable_rate_evidence as_of age
  costs ← read_costs input.costs as_of age
  ok (record {
    price = price;
    quantity = quantity;
    minimum = minimum;
    age = age;
    as_of = as_of;
    rate = rate.0;
    amounts = costs.0;
    missing = rate.1.missing ++ missing_kinds input.costs required_cost_kinds;
    stale = rate.1.stale ++ costs.1.stale;
    refs = rate.1.refs ++ costs.1.refs;
  })

-- `costs.reduce((total, cost) => safeAdd(total, safeMultiply(cost, quantity)), total)`
unfoldable pub add_costs : ℕ → ℕ → List ℕ → Result ProfitError ℕ
add_costs quantity total [] = ok total
add_costs quantity total (amount ∷ amounts) = do
  cost ← safe_multiply amount quantity
  next ← safe_add total cost
  add_costs quantity next amounts

abbrev pub status_of : ℤ → ℤ → ℕ → ProfitabilityStatus
status_of net margin minimum =
    if ltb_ℤ net (pos 0)
    then loss
    else if ltb_ℤ margin (pos minimum)
    then below_floor
    else profitable

abbrev pub incomplete_snapshot : ProfitabilityInput → Facts → IncompleteProfitabilitySnapshot
incomplete_snapshot input f = record {
  account_id = input.account_id;
  listing_id = input.listing_id;
  currency = input.currency;
  sale_price_minor = f.price;
  quantity = f.quantity;
  minimum_margin_bps = f.minimum;
  missing_inputs = sort (unique f.missing);
  stale_evidence_ids = sort (unique f.stale);
  evidence_refs = sort (unique f.refs);
}

module _ (R : Rounding) where
  abbrev pub complete_snapshot :
      ProfitabilityInput → Facts → ℕ → ℕ → ℕ → ℕ → ℕ → CompleteProfitabilitySnapshot
  complete_snapshot input f rate gross fixed variable total =
      let net = sub_ℕ gross total in
      let margin = R.trunc net 10000 gross in
      record {
        status = status_of net margin f.minimum;
        account_id = input.account_id;
        listing_id = input.listing_id;
        currency = input.currency;
        sale_price_minor = f.price;
        quantity = f.quantity;
        minimum_margin_bps = f.minimum;
        variable_rate_bps = rate;
        gross_revenue_minor = gross;
        fixed_costs_minor = fixed;
        variable_costs_minor = variable;
        total_costs_minor = total;
        net_profit_minor = net;
        margin_bps = margin;
        evidence_refs = sort (unique f.refs);
        calculated_at = input.as_of;
      }

  unfoldable pub account :
      ProfitabilityInput → Facts → ℕ → Result ProfitError CompleteProfitabilitySnapshot
  account input f rate = do
    gross ← safe_multiply f.price f.quantity
    fixed ← add_costs f.quantity 0 f.amounts
    total ← safe_add fixed (R.round gross rate 10000)
    ok (complete_snapshot input f rate gross fixed (R.round gross rate 10000) total)

  -- Incomplete where something is missing or stale; a rate that is absent is missing.
  abbrev pub settle :
      ProfitabilityInput
      → Facts
      → Option ℕ
      → List String
      → List String
      → Result ProfitError ProfitabilitySnapshot
  settle input f (some rate) [] [] = do snapshot ← account input f rate; ok (complete snapshot)
  settle input f _ _ _ = ok (incomplete (incomplete_snapshot input f))

  unfoldable pub calculate_profitability :
      ProfitabilityInput → Result ProfitError ProfitabilitySnapshot
  calculate_profitability input = do f ← check_input input; settle input f f.rate f.missing f.stale
