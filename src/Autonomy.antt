-- ===== src/Autonomy.antt =====
-- Money and the policy of autonomy: packages/domain/src/money.ts and packages/domain/src/autonomy.ts.
-- An amount is an integer; where the code adds amounts, the sum here is exact, as it is in double
-- precision for the safe integers that `money` makes. `multiplyMoney`, by a fraction, is not modelled.
pub mod Free
use eauto_ai.Prelude.{
  ℕ, ◌≤◌, String, Bool, true, false, not, ◌&&◌, ltb, if◌then◌else◌, ◌≡◌, ◌↔◌, ◌⊎◌, inl, inr, refl,
  sym, ap, arith, Bool-cases,
}
use mathlib.Core.Path.{subst}
use eauto_ai.Prelude.Int.{ℤ, pos, negsuc, ◌+ℤ◌, ◌-ℤ◌, ◌≤ℤ◌, leb_ℤ, is_safe}
use eauto_ai.Prelude.Result.{Result, ok, err, ok-injective, err-ne-ok}
use eauto_ai.Prelude.Result.Pure.{◌>>◌, throw_if}
use eauto_ai.Action.{RiskLevel, low, medium, high, critical}

pub data Currency : Type 0 where
  clp usd : Currency

abbrev pub is_same : Currency → Currency → Bool
is_same clp clp = true
is_same usd usd = true
is_same _ _ = false

pub record Money : Type 0 where
  pub amount_minor : ℤ
  pub currency : Currency

pub data MoneyError : Type 0 where
  not_safe currency_mismatch : MoneyError

unfoldable pub money : ℤ → Currency → Result MoneyError Money
money amount currency =
    if not (is_safe amount)
    then err not_safe
    else ok (record { amount_minor = amount; currency = currency })

abbrev pub assert_same_currency : Money → Money → Result MoneyError (Unit {0})
assert_same_currency left right =
    throw_if (not (is_same left.currency right.currency)) currency_mismatch

unfoldable pub add_money : Money → Money → Result MoneyError Money
add_money left right = do
  assert_same_currency left right
  money (left.amount_minor +ℤ right.amount_minor) left.currency

unfoldable pub subtract_money : Money → Money → Result MoneyError Money
subtract_money left right = do
  assert_same_currency left right
  money (left.amount_minor -ℤ right.amount_minor) left.currency

add-sub : (a b : ℤ) → (a +ℤ b) -ℤ b ≡ a
add-sub (pos a) (pos b) = ground arith
add-sub (pos a) (negsuc b) = ground arith
add-sub (negsuc a) (pos b) = ground arith
add-sub (negsuc a) (negsuc b) = ground arith

added :
    (a b c : Money)
    → add_money a b ≡ ok c
    → (is_same a.currency b.currency ≡ true)
      × (c.amount_minor ≡ a.amount_minor +ℤ b.amount_minor)
      × (c.currency ≡ a.currency)
unfolding add_money money
added a b c h = elim (Bool-cases (is_same a.currency b.currency)) [
  | inr e ↦ absurd (err-ne-ok _ c (rw e at h))
  | inl e ↦ elim (Bool-cases (is_safe (a.amount_minor +ℤ b.amount_minor))) [
    | inr f ↦ absurd (err-ne-ok _ c (rw (e, f) at h))
    | inl f ↦
        let same = ok-injective _ c (rw (e, f) at h) in
        (e, ap (λ x. x.amount_minor) (sym same), ap (λ x. x.currency) (sym same))
  ]
]

-- What was added can be taken away again: if the addition returned and the first amount is a safe
-- integer, the sum minus the second amount is the first one.
pub add_money-subtract_money :
    (a b c : Money)
    → is_safe a.amount_minor ≡ true
    → add_money a b ≡ ok c
    → subtract_money c b ≡ ok a
unfolding subtract_money money
add_money-subtract_money a b c safe h =
    let (same, amount, currency) = added a b c h in
    rw (amount, currency, same, add-sub a.amount_minor b.amount_minor, safe) refl

pub data AutonomyMode : Type 0 where
  ask inform autonomous : AutonomyMode

pub record AutonomyPolicy : Type 0 where
  pub account_id : String
  pub action_kind : String
  pub mode : AutonomyMode
  pub maximum_risk : RiskLevel
  pub daily_budget : Money
  pub reversible_only : Bool
  pub minimum_verified_actions : ℕ

abbrev pub risk_order : RiskLevel → ℕ
risk_order low = 0
risk_order medium = 1
risk_order high = 2
risk_order critical = 3

abbrev pub is_autonomous : AutonomyMode → Bool
is_autonomous autonomous = true
is_autonomous _ = false

pub record AutonomyRequest : Type 0 where
  pub policy : AutonomyPolicy
  pub risk : RiskLevel
  pub reversible : Bool
  pub verified_history_count : ℕ
  pub spent_today : Money
  pub estimated_cost : Money

unfoldable pub can_execute_without_approval : AutonomyRequest → Bool
can_execute_without_approval input =
    if not (is_autonomous input.policy.mode)
    then false
    else if ltb (risk_order input.policy.maximum_risk) (risk_order input.risk)
    then false
    else if input.policy.reversible_only && not input.reversible
    then false
    else if ltb input.verified_history_count input.policy.minimum_verified_actions
    then false
    else if not (is_same input.spent_today.currency input.policy.daily_budget.currency)
    then false
    else if not (is_same input.estimated_cost.currency input.policy.daily_budget.currency)
    then false
    else leb_ℤ (input.spent_today.amount_minor +ℤ input.estimated_cost.amount_minor)
        input.policy.daily_budget.amount_minor
