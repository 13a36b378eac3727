-- ===== src/Profit/Checks.antt =====
-- What the checks of `calculateProfitability` establish.
use eauto_ai.Prelude.{
  ℕ, ◌+◌, ◌≤◌, ◌<◌, String, Option, none, some, Bool, true, false, List, [], ◌∷◌, ◌++◌, All, inl,
  inr, map, ◌&&◌, ltb, leb, ◌∙◌, ◌≡◌, ◌≢◌, refl, ap, arith, Bool-cases,
}
use mathlib.Core.Path.{subst}
use eauto_ai.Prelude.Int.{ℤ, pos, negsuc, is_safe}
use eauto_ai.Prelude.Result.{ok, Returns, err-ne-ok, ok-injective}
use eauto_ai.Prelude.Result.Pure.{>>=-eq-ok, bind-Returns}
use eauto_ai.Time.{Timestamp, at, unreadable}
use eauto_ai.Profit.{
  EconomicEvidenceReference, EconomicCostComponent, ProfitabilityInput, ProfitError, positive,
  basis_points, non_negative, parse_date,
}
use eauto_ai.Profit.Calculate.{
  is_old, is_stale, required_cost_kinds, missing_kinds, noted, Notes, read_rate, read_costs, Facts,
  check_input,
}

-- The evidence was observed at a readable time, not after `as_of` and not more than `age` before.
abbrev pub IsFresh : ℕ → ℕ → EconomicEvidenceReference → Type 0
IsFresh as_of age evidence =
    (t : ℕ) × (evidence.observed_at ≡ at t) × (t ≤ as_of) × (as_of ≤ t + age)

pub parse_date-at : (s : Timestamp) (f : String) {t : ℕ} → parse_date s f ≡ ok t → s ≡ at t
parse_date-at (at u) f h = ap at (ok-injective _ _ h)
parse_date-at unreadable f h = absurd (err-ne-ok _ _ h)

is_stale-IsFresh :
    (evidence : EconomicEvidenceReference) (as_of age : ℕ)
    → is_stale evidence as_of age ≡ ok false
    → IsFresh as_of age evidence
unfolding is_stale
is_stale-IsFresh evidence as_of age h =
    let (t, read, fresh) = >>=-eq-ok (parse_date evidence.observed_at _) _ h in
    let young = ok-injective (is_old t as_of age) false fresh in
    (t, parse_date-at evidence.observed_at _ read, ground arith, ground arith)

none_noted :
    (id : String) (stale : Bool) (rest : List String)
    → noted id stale ++ rest ≡ []
    → (stale ≡ false) × (rest ≡ [])
none_noted id true rest h = cc
none_noted id false rest h = (refl, h)

non_negative-pos : (z : ℤ) (thrown : ProfitError) (n : ℕ) → non_negative z thrown ≡ ok n → z ≡ pos n
unfolding non_negative
non_negative-pos (negsuc k) thrown n h = cc
non_negative-pos (pos k) thrown n h = elim (Bool-cases (is_safe (pos k))) [
  | inl e ↦ ap pos (ok-injective k n (rw e at h))
  | inr e ↦ absurd (err-ne-ok _ n (rw e at h))
]

positive-pos : (z : ℤ) (field : String) (n : ℕ) → positive z field ≡ ok n → (z ≡ pos n) × (0 < n)
unfolding positive
positive-pos (negsuc k) field n h = cc
positive-pos (pos k) field n h = elim (Bool-cases (is_safe (pos k) && ltb 0 k)) [
  | inl e ↦ let same : k ≡ n = ok-injective k n (rw e at h) in (ap pos same, ground arith)
  | inr e ↦ absurd (err-ne-ok _ n (rw e at h))
]

pub basis_points-pos :
    (z : ℤ) (field : String) (n : ℕ) → basis_points z field ≡ ok n → (z ≡ pos n) × (n ≤ 10000)
unfolding basis_points
basis_points-pos (negsuc k) field n h = cc
basis_points-pos (pos k) field n h = elim (Bool-cases (is_safe (pos k) && leb k 10000)) [
  | inl e ↦ let same : k ≡ n = ok-injective k n (rw e at h) in (ap pos same, ground arith)
  | inr e ↦ absurd (err-ne-ok _ n (rw e at h))
]

-- The amounts are those of the costs, and where no evidence is noted as stale, all of it is fresh.
abbrev IsReadFrom : List EconomicCostComponent → ℕ → ℕ → List ℕ × Notes → Type 0
IsReadFrom costs as_of age r =
    (map (λ c. c.amount_minor) costs ≡ map pos r.0)
    × (r.1.stale ≡ [] → All (λ c. IsFresh as_of age c.evidence) costs)
    × (r.1.missing ≡ [])

read_costs-IsReadFrom :
    (costs : List EconomicCostComponent) (as_of age : ℕ)
    → Returns (IsReadFrom costs as_of age) (read_costs costs as_of age)
unfolding read_costs
read_costs-IsReadFrom [] as_of age = (refl, (λ _. tt), refl)
read_costs-IsReadFrom (cost ∷ costs) as_of age =
    let Q = IsReadFrom (cost ∷ costs) as_of age in
    bind-Returns Q (non_negative cost.amount_minor _) _ λ n e.
      bind-Returns Q (is_stale cost.evidence as_of age) _ λ stale aged.
        bind-Returns Q (read_costs costs as_of age) _ λ rest e'.
          let (same, fresh, whole) =
            subst (Returns (IsReadFrom costs as_of age)) e'
              (read_costs-IsReadFrom costs as_of age) in
          (
            (let amount = non_negative-pos cost.amount_minor _ n e in cc),
            (λ h.
                let (young, others) = none_noted cost.evidence.id stale rest.1.stale h in
                (is_stale-IsFresh cost.evidence as_of age (aged ∙ ap ok young), fresh others)),
            whole,
          )

-- A rate that was read is the one of the input, and where its evidence is not noted as stale, it is
-- fresh.
abbrev IsRateOf : Option ℤ → Option EconomicEvidenceReference → ℕ → ℕ → Option ℕ × Notes → Type 0
IsRateOf rate evidence as_of age (none, notes) = notes.missing ≢ []
IsRateOf rate evidence as_of age (some r, notes) =
    (rate ≡ some (pos r))
    × (notes.stale ≡ []
        → (e : EconomicEvidenceReference) × (evidence ≡ some e) × IsFresh as_of age e)

read_rate-IsRateOf :
    (rate : Option ℤ) (evidence : Option EconomicEvidenceReference) (as_of age : ℕ)
    → Returns (IsRateOf rate evidence as_of age) (read_rate rate evidence as_of age)
read_rate-IsRateOf none evidence as_of age = λ h. cc
read_rate-IsRateOf (some r) none as_of age = λ h. cc
read_rate-IsRateOf (some r) (some e) as_of age =
    let Q = IsRateOf (some r) (some e) as_of age in
    bind-Returns Q (basis_points r _) _ λ n read.
      bind-Returns Q (is_stale e as_of age) _ λ stale aged. (
        ap some (basis_points-pos r _ n read).0,
        λ h. (e, refl, is_stale-IsFresh e as_of age (aged ∙ ap ok (not_noted e.id stale h))),
      )
  where
    not_noted : (id : String) (stale : Bool) → noted id stale ≡ [] → stale ≡ false
    not_noted id true h = cc
    not_noted id false h = refl

-- The numbers of the input that the checks read, the price and the quantity positive.
pub record IsRead (input : ProfitabilityInput) (f : Facts) : Type 0 where
  pub price : (input.sale_price_minor ≡ pos f.price) × (0 < f.price)
  pub quantity : (input.quantity ≡ pos f.quantity) × (0 < f.quantity)
  pub minimum : input.minimum_margin_bps ≡ pos f.minimum
  pub age : input.maximum_evidence_age_ms ≡ pos f.age
  pub as_of : input.as_of ≡ at f.as_of
  pub amounts : map (λ c. c.amount_minor) input.costs ≡ map pos f.amounts

-- What the checks leave: the numbers of the input, its rate and costs, and no missing kind where
-- nothing is noted as missing.
pub record IsChecked (input : ProfitabilityInput) (f : Facts) : Type 0 where
  pub facts : IsRead input f
  pub kinds : f.missing ≡ [] → missing_kinds input.costs required_cost_kinds ≡ []
  pub rate :
      (r : ℕ)
      → f.rate ≡ some r
      → f.stale ≡ []
      → (input.variable_rate_bps ≡ some (pos r))
        × (e : EconomicEvidenceReference) × (input.variable_rate_evidence ≡ some e)
        × IsFresh f.as_of f.age e
  pub costs : f.stale ≡ [] → All (λ c. IsFresh f.as_of f.age c.evidence) input.costs

pub check_input-IsChecked :
    (input : ProfitabilityInput) → Returns (IsChecked input) (check_input input)
unfolding check_input
check_input-IsChecked input =
    let Q = IsChecked input in
    bind-Returns Q (positive input.sale_price_minor _) _ λ price e0.
      bind-Returns Q (positive input.quantity _) _ λ quantity e1.
        bind-Returns Q (basis_points input.minimum_margin_bps _) _ λ minimum e2.
          bind-Returns Q (non_negative input.maximum_evidence_age_ms _) _ λ age e3.
            bind-Returns Q (parse_date input.as_of _) _ λ as_of e4.
              bind-Returns Q
                (read_rate input.variable_rate_bps input.variable_rate_evidence as_of age) _
                λ rate e5. bind-Returns Q (read_costs input.costs as_of age) _ λ costs e6.
                  let (same, fresh, whole) =
                    subst (Returns (IsReadFrom input.costs as_of age)) e6
                      (read_costs-IsReadFrom input.costs as_of age) in
                  record {
                    facts = record {
                      price = positive-pos _ _ price e0;
                      quantity = positive-pos _ _ quantity e1;
                      minimum = (basis_points-pos _ _ minimum e2).0;
                      age = non_negative-pos _ _ age e3;
                      as_of = parse_date-at input.as_of _ e4;
                      amounts = same;
                    };
                    kinds = λ h. (append-nil _ _ h).1;
                    rate = λ r given h.
                        read_as input.variable_rate_bps input.variable_rate_evidence as_of age rate
                          (subst
                            (Returns (
                              IsRateOf input.variable_rate_bps input.variable_rate_evidence as_of
                                age))
                            e5
                            (read_rate-IsRateOf input.variable_rate_bps input.variable_rate_evidence
                              as_of age))
                          r given (append-nil _ _ h).0;
                    costs = λ h. fresh (append-nil _ _ h).1;
                  }
  where
    append-nil : (xs ys : List String) → xs ++ ys ≡ [] → (xs ≡ []) × (ys ≡ [])
    append-nil [] ys h = (refl, h)
    append-nil (x ∷ xs) ys h = cc

    read_as :
        (rate : Option ℤ) (evidence : Option EconomicEvidenceReference) (as_of age : ℕ)
        (p : Option ℕ × Notes)
        → IsRateOf rate evidence as_of age p
        → (r : ℕ) → p.0 ≡ some r
        → p.1.stale ≡ []
        → (rate ≡ some (pos r))
          × (e : EconomicEvidenceReference) × (evidence ≡ some e)
          × IsFresh as_of age e
    read_as rate evidence as_of age (none, notes) h r given k = cc
    read_as rate evidence as_of age (some n, notes) h r given k =
        let (e, given_by, fresh) = h.1 k in (h.0 ∙ some-pos given, e, given_by, fresh)
      where
        some-pos :
            {a b : ℕ}
            → ◌≡◌ {A = Option ℕ} (some a) (some b)
            → ◌≡◌ {A = Option ℤ} (some (pos a)) (some (pos b))
        some-pos h = cc
