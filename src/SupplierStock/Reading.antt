-- ===== src/SupplierStock/Reading.antt =====
-- What `check_input` reads: the numbers and dates of the input and of the policy.
use eauto_ai.Time.{Timestamp, at, unreadable}
use eauto_ai.Prelude.{
  ℕ, ◌+◌, ◌≤◌, ◌<◌, String, Option, none, some, Bool, true, false, ◌&&◌, ltb, ◌≡◌, inl, inr, refl,
  ap, sym, ◌∙◌, arith, Bool-cases,
}
use mathlib.Core.Path.{subst}
use eauto_ai.Prelude.Int.{ℤ, pos, negsuc, is_safe, max_safe}
use eauto_ai.Prelude.Strings.{is_blank}
use eauto_ai.Prelude.Result.{ok, Returns, err-ne-ok, ok-injective}
use eauto_ai.Prelude.Result.Pure.{throw_if, >>=-eq-ok, bind-Returns}
use eauto_ai.SupplierStock.{
  SupplierStockInput, SupplierStockPolicy, non_negative_integer, positive_integer, basis_points,
  parse_date, is_old, SupplierStockEvidence, is_stale, is_cost_stale, calculate_cost_change_bps,
  policy_version_missing,
}
use eauto_ai.SupplierStock.Assess.{Facts, check_input}

non_negative-pos :
    (z : ℤ) (field : String) (n : ℕ)
    → non_negative_integer z field ≡ ok n
    → (z ≡ pos n) × (n ≤ max_safe)
unfolding non_negative_integer
non_negative-pos (negsuc k) field n h = cc
non_negative-pos (pos k) field n h = elim (Bool-cases (is_safe (pos k))) [
  | inl e ↦ let same : k ≡ n = ok-injective k n (rw e at h) in (ap pos same, ground arith)
  | inr e ↦ absurd (err-ne-ok _ n (rw e at h))
]

positive-pos :
    (z : ℤ) (field : String) (n : ℕ) → positive_integer z field ≡ ok n → (z ≡ pos n) × (0 < n)
unfolding positive_integer
positive-pos (negsuc k) field n h = cc
positive-pos (pos k) field n h = elim (Bool-cases (is_safe (pos k) && ltb 0 k)) [
  | inl e ↦ let same : k ≡ n = ok-injective k n (rw e at h) in (ap pos same, ground arith)
  | inr e ↦ absurd (err-ne-ok _ n (rw e at h))
]

-- The evidence was observed at most `age` before `as_of`, and not after it.
abbrev pub IsRecent : SupplierStockEvidence → ℕ → ℕ → Type 0
IsRecent e as_of age =
    (observed : ℕ) × (e.observed_at ≡ at observed) × (observed ≤ as_of) × (as_of ≤ observed + age)

-- What a flag of staleness says of the evidence.
abbrev pub Says : Bool → SupplierStockEvidence → ℕ → ℕ → Type 0
Says false e as_of age = IsRecent e as_of age
Says true e as_of age = ¬ IsRecent e as_of age

abbrev pub SaysOptional : Bool → Option SupplierStockEvidence → ℕ → ℕ → Type 0
SaysOptional stale none as_of age = stale ≡ false
SaysOptional stale (some e) as_of age = Says stale e as_of age

at-injective : (a b : ℕ) → at a ≡ at b → a ≡ b
at-injective a b h = cc

parse_date-at : (t : Timestamp) (field : String) (n : ℕ) → parse_date t field ≡ ok n → t ≡ at n
parse_date-at (at k) field n h = ap at (ok-injective k n h)
parse_date-at unreadable field n h = absurd (err-ne-ok _ n h)

is_old-Says :
    (e : SupplierStockEvidence) (observed as_of age : ℕ)
    → e.observed_at ≡ at observed
    → Says (is_old observed as_of age) e as_of age
is_old-Says e observed as_of age h = go (is_old observed as_of age) refl
  where
    go : (b : Bool) → is_old observed as_of age ≡ b → Says b e as_of age
    go false k = (observed, h, ground (arith, k), ground (arith, k))
    go true k = λ (seen, h', before, within).
        let same = at-injective observed seen (sym h ∙ h') in
        ground (arith, k, same, before, within)

is_stale-Says :
    (e : SupplierStockEvidence) (as_of age : ℕ) (b : Bool)
    → is_stale e as_of age ≡ ok b
    → Says b e as_of age
unfolding is_stale
is_stale-Says e as_of age b h =
    let (observed, read, done) = >>=-eq-ok (parse_date e.observed_at _) _ h in
    subst (λ b. Says b e as_of age) (ok-injective _ b done)
      (is_old-Says e observed as_of age (parse_date-at e.observed_at _ observed read))

is_cost_stale-Says :
    (o : Option SupplierStockEvidence) (as_of age : ℕ) (b : Bool)
    → is_cost_stale o as_of age ≡ ok b
    → SaysOptional b o as_of age
is_cost_stale-Says none as_of age b h = sym (ok-injective false b h)
is_cost_stale-Says (some e) as_of age b h = is_stale-Says e as_of age b h

-- What the facts are: numbers of the input and of the policy, which are safe integers and not
-- negative, and whether the evidence is recent.
pub record IsRead (input : SupplierStockInput) (policy : SupplierStockPolicy) (f : Facts)
    : Type 0 where
  pub previous : input.previous_stock ≡ pos f.previous_stock
  pub current : input.current_stock ≡ pos f.current_stock
  pub syncs : input.consecutive_successful_syncs ≡ pos f.syncs
  pub threshold : policy.recovery_stock_threshold ≡ pos f.threshold
  pub required : policy.recovery_consecutive_syncs ≡ pos f.required_syncs
  pub previous_bound : f.previous_stock ≤ max_safe
  pub current_bound : f.current_stock ≤ max_safe
  pub required_bound : 0 < f.required_syncs
  pub as_of : ℕ
  pub age : ℕ
  pub as_of_read : input.as_of ≡ at as_of
  pub age_read : input.maximum_evidence_age_ms ≡ pos age
  pub stock : Says f.stock_stale input.stock_evidence as_of age
  pub cost : SaysOptional f.cost_stale input.cost_evidence as_of age

check_input-IsRead :
    (input : SupplierStockInput) (policy : SupplierStockPolicy)
    → Returns (IsRead input policy) (check_input input policy)
unfolding check_input
check_input-IsRead input policy =
    let Q = IsRead input policy in
    bind-Returns Q (non_negative_integer input.previous_stock _) _ λ n0 e0.
      bind-Returns Q (non_negative_integer input.current_stock _) _ λ n1 e1.
        bind-Returns Q (non_negative_integer input.consecutive_successful_syncs _) _ λ n2 e2.
          bind-Returns Q (non_negative_integer policy.recovery_stock_threshold _) _ λ n3 e3.
            bind-Returns Q (positive_integer policy.recovery_consecutive_syncs _) _ λ n4 e4.
              bind-Returns Q (basis_points policy.cost_change_alert_bps _) _ λ n5 e5.
                bind-Returns Q (non_negative_integer input.maximum_evidence_age_ms _) _ λ n6 e6.
                  bind-Returns Q (throw_if (is_blank policy.policy_version) policy_version_missing)
                    _
                    λ _ e7. bind-Returns Q (parse_date input.as_of _) _ λ n8 e8.
                      bind-Returns Q (is_stale input.stock_evidence n8 n6) _ λ n9 e9.
                        bind-Returns Q (is_cost_stale input.cost_evidence n8 n6) _ λ n10 e10.
                          bind-Returns Q
                            (calculate_cost_change_bps input.previous_unit_cost_minor
                              input.current_unit_cost_minor)
                            _
                            λ n11 e11. record {
                              previous = (non_negative-pos _ _ n0 e0).0;
                              current = (non_negative-pos _ _ n1 e1).0;
                              syncs = (non_negative-pos _ _ n2 e2).0;
                              threshold = (non_negative-pos _ _ n3 e3).0;
                              required = (positive-pos _ _ n4 e4).0;
                              previous_bound = (non_negative-pos _ _ n0 e0).1;
                              current_bound = (non_negative-pos _ _ n1 e1).1;
                              required_bound = (positive-pos _ _ n4 e4).1;
                              as_of = n8;
                              age = n6;
                              as_of_read = parse_date-at _ _ n8 e8;
                              age_read = (non_negative-pos _ _ n6 e6).0;
                              stock = is_stale-Says _ n8 n6 n9 e9;
                              cost = is_cost_stale-Says _ n8 n6 n10 e10;
                            }

-- The numbers that the proposals rest on are those of the input and of the policy, which are safe
-- integers and not negative; the required syncs are at least one.
pub check_input-facts :
    (input : SupplierStockInput) (policy : SupplierStockPolicy) (f : Facts)
    → check_input input policy ≡ ok f
    → IsRead input policy f
check_input-facts input policy f h =
    subst (Returns (IsRead input policy)) h (check_input-IsRead input policy)
