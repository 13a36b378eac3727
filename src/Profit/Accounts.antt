-- ===== src/Profit/Accounts.antt =====
-- The accounts of a complete snapshot.
use eauto_ai.Prelude.{
  ℕ, ◌+◌, ◌≤◌, String, Option, none, some, List, [], ◌∷◌, inl, inr, leb, ◌∙◌, ◌≡◌, refl, ap, arith,
  Bool-cases,
}
use mathlib.Core.Path.{subst}
use eauto_ai.Prelude.Int.{max_safe}
use eauto_ai.Prelude.Result.{Returns-imp, ok, Returns, err-ne-ok, ok-injective}
use eauto_ai.Prelude.Result.Pure.{>>=-eq-ok, bind-Returns}
use eauto_ai.Profit.{ProfitabilityInput, CompleteProfitabilitySnapshot, complete}
use eauto_ai.Profit.Rounding.{Rounding}
use eauto_ai.Profit.Calculate.{Facts, check_input, account, calculate_profitability, settle}
use eauto_ai.Prelude.{◌*◌}
use eauto_ai.Prelude.Int.{sub_ℕ}
use eauto_ai.Profit.{safe_multiply, safe_add}
use eauto_ai.Profit.Calculate.{add_costs, status_of}
use eauto_ai.Profit.Checks.{IsRead, IsChecked, check_input-IsChecked}

module _ (R : Rounding) where
  settle-complete :
      (input : ProfitabilityInput) (f : Facts) (rate : Option ℕ) (missing stale : List String)
      (c : CompleteProfitabilitySnapshot)
      → settle R input f rate missing stale ≡ ok (complete c)
      → (r : ℕ) × (rate ≡ some r) × (missing ≡ []) × (stale ≡ []) × (account R input f r ≡ ok c)
  settle-complete input f none missing stale c h = cc
  settle-complete input f (some r) (m ∷ ms) stale c h = cc
  settle-complete input f (some r) [] (s ∷ ss) c h = cc
  settle-complete input f (some r) [] [] c h =
      let (made, read, same) = >>=-eq-ok (account R input f r) _ h in
      (r, refl, refl, refl, read ∙ ap ok (complete-injective made c (ok-injective _ _ same)))
    where
      complete-injective : (a b : CompleteProfitabilitySnapshot) → complete a ≡ complete b → a ≡ b
      complete-injective a b h = cc

  pub complete-facts :
      (input : ProfitabilityInput) (c : CompleteProfitabilitySnapshot)
      → calculate_profitability R input ≡ ok (complete c)
      → (f : Facts) × (r : ℕ) × IsChecked input f
        × (f.rate ≡ some r)
        × (f.missing ≡ [])
        × (f.stale ≡ [])
        × (account R input f r ≡ ok c)
  unfolding calculate_profitability
  complete-facts input c h =
      let (f, checked, settled) = >>=-eq-ok (check_input input) _ h in
      let (r, given, whole, fresh, done) =
        settle-complete input f f.rate f.missing f.stale c settled in
      let good = subst (Returns (IsChecked input)) checked (check_input-IsChecked input) in
      (f, r, good, given, whole, fresh, done)

abbrev pub sum : List ℕ → ℕ
sum [] = 0
sum (n ∷ ns) = n + sum ns

safe_multiply-exact : (a b n : ℕ) → safe_multiply a b ≡ ok n → (n ≡ a * b) × (n ≤ max_safe)
unfolding safe_multiply
safe_multiply-exact a b n h = elim (Bool-cases (leb (a * b) max_safe)) [
  | inl e ↦
      let same : a * b ≡ n = ok-injective (a * b) n (rw e at h) in (ground arith, ground arith)
  | inr e ↦ absurd (err-ne-ok _ n (rw e at h))
]

safe_add-exact : (a b n : ℕ) → safe_add a b ≡ ok n → (n ≡ a + b) × (n ≤ max_safe)
unfolding safe_add
safe_add-exact a b n h = elim (Bool-cases (leb (a + b) max_safe)) [
  | inl e ↦
      let same : a + b ≡ n = ok-injective (a + b) n (rw e at h) in (ground arith, ground arith)
  | inr e ↦ absurd (err-ne-ok _ n (rw e at h))
]

-- The loop adds every amount times the quantity, and stays within the safe integers.
add_costs-sum :
    (quantity total : ℕ) (ns : List ℕ)
    → total ≤ max_safe
    → Returns (λ t. (t ≡ total + sum ns * quantity) × (t ≤ max_safe)) (add_costs quantity total ns)
unfolding add_costs
add_costs-sum quantity total [] h = (omega arith, h)
add_costs-sum quantity total (n ∷ ns) h =
    let Q : ℕ → Type 0 = λ t. (t ≡ total + (n + sum ns) * quantity) × (t ≤ max_safe) in
    bind-Returns Q (safe_multiply n quantity) _ λ cost e.
      bind-Returns Q (safe_add total cost) _ λ next e'.
        let (is_cost, _) = safe_multiply-exact n quantity cost e in
        let (is_next, bound) = safe_add-exact total cost next e' in
        Returns-imp _ Q (λ t (k, b). (omega (arith, is_cost, is_next, k), b)) _
          (add_costs-sum quantity next ns bound)

-- The books of a snapshot: revenue, costs and profit by their definitions, all within the safe
-- integers.
pub record IsBooked (R : Rounding) (f : Facts) (c : CompleteProfitabilitySnapshot) : Type 0 where
  pub price : c.sale_price_minor ≡ f.price
  pub quantity : c.quantity ≡ f.quantity
  pub minimum : c.minimum_margin_bps ≡ f.minimum
  pub rate : f.rate ≡ some c.variable_rate_bps
  pub gross : c.gross_revenue_minor ≡ f.price * f.quantity
  pub fixed : c.fixed_costs_minor ≡ sum f.amounts * f.quantity
  pub variable : c.variable_costs_minor ≡ R.round c.gross_revenue_minor c.variable_rate_bps 10000
  pub total : c.total_costs_minor ≡ c.fixed_costs_minor + c.variable_costs_minor
  pub net : c.net_profit_minor ≡ sub_ℕ c.gross_revenue_minor c.total_costs_minor
  pub margin : c.margin_bps ≡ R.trunc c.net_profit_minor 10000 c.gross_revenue_minor
  pub status : c.status ≡ status_of c.net_profit_minor c.margin_bps c.minimum_margin_bps
  pub gross_bound : c.gross_revenue_minor ≤ max_safe
  pub fixed_bound : c.fixed_costs_minor ≤ max_safe
  pub total_bound : c.total_costs_minor ≤ max_safe

account-IsBooked :
    (R : Rounding) (input : ProfitabilityInput) (f : Facts) (r : ℕ)
    → f.rate ≡ some r
    → Returns (IsBooked R f) (account R input f r)
unfolding account
account-IsBooked R input f r given =
    let Q = IsBooked R f in
    bind-Returns Q (safe_multiply f.price f.quantity) _ λ gross e.
      bind-Returns Q (add_costs f.quantity 0 f.amounts) _ λ fixed e'.
        bind-Returns Q (safe_add fixed (R.round gross r 10000)) _ λ total e''.
          let (is_gross, gross_bound) = safe_multiply-exact f.price f.quantity gross e in
          let (is_fixed, fixed_bound) =
            subst (Returns (λ t. (t ≡ 0 + sum f.amounts * f.quantity) × (t ≤ max_safe))) e'
              (add_costs-sum f.quantity 0 f.amounts (omega arith)) in
          let (is_total, total_bound) = safe_add-exact fixed (R.round gross r 10000) total e'' in
          record {
            price = refl;
            quantity = refl;
            minimum = refl;
            rate = given;
            gross = is_gross;
            fixed = (omega (arith, is_fixed));
            variable = refl;
            total = is_total;
            net = refl;
            margin = refl;
            status = refl;
            gross_bound = gross_bound;
            fixed_bound = fixed_bound;
            total_bound = total_bound;
          }

pub account-rate :
    (R : Rounding) (input : ProfitabilityInput) (f : Facts) (r : ℕ)
    (c : CompleteProfitabilitySnapshot)
    → account R input f r ≡ ok c
    → r ≡ c.variable_rate_bps
unfolding account
account-rate R input f r c h =
    let (gross, _, h1) = >>=-eq-ok (safe_multiply f.price f.quantity) _ h in
    let (fixed, _, h2) = >>=-eq-ok (add_costs f.quantity 0 f.amounts) _ h1 in
    let (total, _, h3) = >>=-eq-ok (safe_add fixed (R.round gross r 10000)) _ h2 in
    ap (λ s. s.variable_rate_bps) (ok-injective _ c h3)

-- A complete snapshot keeps its books: the revenue is the price times the quantity, the fixed costs
-- are all the costs of the input times the quantity, the variable costs are the rounded share of the
-- revenue at its rate, the total is the sum of the two, the net profit is the revenue less the total, and
-- none of these sums has left the safe integers.
pub calculate_profitability-IsBooked :
    (R : Rounding) (input : ProfitabilityInput) (c : CompleteProfitabilitySnapshot)
    → calculate_profitability R input ≡ ok (complete c)
    → (f : Facts) × IsRead input f × IsBooked R f c
calculate_profitability-IsBooked R input c h =
    let (f, r, checked, given, whole, fresh, done) = complete-facts R input c h in
    (f, checked.facts, subst (Returns (IsBooked R f)) done (account-IsBooked R input f r given))
