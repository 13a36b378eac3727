-- ===== src/Autonomy/Free.antt =====
-- When an action runs without approval.
use eauto_ai.Prelude.{
  ◌≤◌, Bool, true, false, not, ◌&&◌, if◌then◌else◌, ◌≡◌, ◌↔◌, ◌⊎◌, inl, inr, refl, arith,
}
use mathlib.Core.Path.{subst}
use eauto_ai.Prelude.Int.{◌+ℤ◌, ◌≤ℤ◌}
use eauto_ai.Action.{RiskLevel, low, medium, high, critical}
use eauto_ai.Autonomy.{
  Currency, clp, usd, is_same, AutonomyMode, autonomous, is_autonomous, risk_order, AutonomyRequest,
  can_execute_without_approval,
}

-- The levels of risk, each beside the next one, and the levels up to one.
pub data IsNext : RiskLevel → RiskLevel → Type 0 where
  low_medium : IsNext low medium
  medium_high : IsNext medium high
  high_critical : IsNext high critical

pub data IsUpTo (r : RiskLevel) : RiskLevel → Type 0 where
  same_risk : IsUpTo r r
  next_risk : {s t : RiskLevel} → IsUpTo r s → IsNext s t → IsUpTo r t

IsNext-risk_order : {s t : RiskLevel} → IsNext s t → risk_order s ≤ risk_order t
IsNext-risk_order low_medium = omega arith
IsNext-risk_order medium_high = omega arith
IsNext-risk_order high_critical = omega arith

IsUpTo-risk_order : {r s : RiskLevel} → IsUpTo r s → risk_order r ≤ risk_order s
IsUpTo-risk_order same_risk = omega arith
IsUpTo-risk_order (next_risk h n) = omega (arith, IsUpTo-risk_order h, IsNext-risk_order n)

risk_order-IsUpTo : (r s : RiskLevel) → risk_order r ≤ risk_order s → IsUpTo r s
risk_order-IsUpTo low low h = same_risk
risk_order-IsUpTo low medium h = next_risk same_risk low_medium
risk_order-IsUpTo low high h = next_risk (next_risk same_risk low_medium) medium_high
risk_order-IsUpTo low critical h =
    next_risk (next_risk (next_risk same_risk low_medium) medium_high) high_critical
risk_order-IsUpTo medium medium h = same_risk
risk_order-IsUpTo medium high h = next_risk same_risk medium_high
risk_order-IsUpTo medium critical h = next_risk (next_risk same_risk medium_high) high_critical
risk_order-IsUpTo high high h = same_risk
risk_order-IsUpTo high critical h = next_risk same_risk high_critical
risk_order-IsUpTo critical critical h = same_risk
risk_order-IsUpTo medium low h = absurd (omega (arith, h))
risk_order-IsUpTo high low h = absurd (omega (arith, h))
risk_order-IsUpTo high medium h = absurd (omega (arith, h))
risk_order-IsUpTo critical low h = absurd (omega (arith, h))
risk_order-IsUpTo critical medium h = absurd (omega (arith, h))
risk_order-IsUpTo critical high h = absurd (omega (arith, h))

-- What frees an action from approval.
pub record IsFree (r : AutonomyRequest) : Type 0 where
  pub mode : r.policy.mode ≡ autonomous
  pub risk : IsUpTo r.risk r.policy.maximum_risk
  pub undoable : (r.policy.reversible_only ≡ false) ⊎ (r.reversible ≡ true)
  pub proven : r.policy.minimum_verified_actions ≤ r.verified_history_count
  pub spent_currency : r.spent_today.currency ≡ r.policy.daily_budget.currency
  pub cost_currency : r.estimated_cost.currency ≡ r.policy.daily_budget.currency
  pub affordable :
      (r.spent_today.amount_minor +ℤ r.estimated_cost.amount_minor)
      ≤ℤ r.policy.daily_budget.amount_minor

is_same-≡ : (a b : Currency) → is_same a b ≡ true → a ≡ b
is_same-≡ clp clp h = refl
is_same-≡ usd usd h = refl
is_same-≡ clp usd h = cc
is_same-≡ usd clp h = cc

is_same_refl : (a b : Currency) → a ≡ b → is_same a b ≡ true
is_same_refl clp b h = subst (λ x. is_same clp x ≡ true) h refl
is_same_refl usd b h = subst (λ x. is_same usd x ≡ true) h refl

is_autonomous-≡ : (m : AutonomyMode) → is_autonomous m ≡ true → m ≡ autonomous
is_autonomous-≡ m h = ground arith

-- The guards, on values.
gates :
    (a b c d e f g : Bool)
    → (if not a
        then false
        else if b
        then false
        else if c
        then false
        else if d
        then false
        else if not e
        then false
        else if not f
        then false
        else g)
      ≡ true
    → (a ≡ true) × (b ≡ false) × (c ≡ false) × (d ≡ false) × (e ≡ true) × (f ≡ true) × (g ≡ true)
gates true false false false true true true h = (refl, refl, refl, refl, refl, refl, refl)
gates true false false false true true false h = cc
gates true false false false true false g h = cc
gates true false false false false f g h = cc
gates true false false true e f g h = cc
gates true false true d e f g h = cc
gates true true c d e f g h = cc
gates false b c d e f g h = cc

undo : (a b : Bool) → (a && not b) ≡ false → (a ≡ false) ⊎ (b ≡ true)
undo false b h = inl refl
undo true true h = inr refl
undo true false h = cc

undo_back : (a b : Bool) → (a ≡ false) ⊎ (b ≡ true) → (a && not b) ≡ false
undo_back a b (inl e) = rw e refl
undo_back a b (inr e) = rw e (ground arith)

-- An action runs without approval exactly when the policy is autonomous, its risk is the policy's or
-- a level below it, the action can be undone or the policy does not restrict it to such actions,
-- enough actions were verified before, the currencies agree, and the day's budget covers what was
-- spent with the estimated cost. So an action that cannot be undone runs without approval under a
-- policy without that restriction.
pub can_execute_without_approval_iff :
    (r : AutonomyRequest) → (can_execute_without_approval r ≡ true) ↔ IsFree r
unfolding can_execute_without_approval
can_execute_without_approval_iff r = (
  λ h.
      let (a, b, c, d, e, f, g) = gates _ _ _ _ _ _ _ h in
      record {
        mode = is_autonomous-≡ r.policy.mode a;
        risk = risk_order-IsUpTo r.risk r.policy.maximum_risk (ground arith);
        undoable = undo _ _ c;
        proven = ground arith;
        spent_currency = is_same-≡ _ _ e;
        cost_currency = is_same-≡ _ _ f;
        affordable = ground arith;
      },
  λ k.
      rw
        (
          k.mode,
          undo_back _ _ k.undoable,
          is_same_refl _ _ k.spent_currency,
          is_same_refl _ _ k.cost_currency,
        )
        (ground (arith, IsUpTo-risk_order k.risk, k.proven, k.affordable)),
)
