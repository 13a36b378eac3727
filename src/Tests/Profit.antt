-- ===== src/Tests/Profit.antt =====
-- The profit engine at concrete inputs.
use eauto_ai.Prelude.{
  ℕ, ◌+◌, ◌*◌, ◌<◌, ◌≤◌, String, some, true, List, [], ◌∷◌, All, ◌≡◌, refl, arith,
}
use eauto_ai.Prelude.Int.{pos, scale_trunc}
use eauto_ai.Prelude.Strings.{sort, string_le}
use eauto_ai.Prelude.Result.{ok}
use eauto_ai.Time.{at}
use eauto_ai.Profit.{
  EconomicCostKind, product_cost, fulfillment_cost, profitable, clp, EconomicEvidenceReference,
  EconomicCostComponent, ProfitabilityInput, CompleteProfitabilitySnapshot, complete,
  RepricingPolicy, RepricingProposal, proposed, positive, basis_points, non_negative, safe_multiply,
  safe_add,
}
use eauto_ai.Profit.Rounding.{Rounding, IsExact, round_exact, ceil_exact, floor_exact}
use eauto_ai.Profit.Calculate.{
  Facts, is_stale, read_costs, check_input, add_costs, account, calculate_profitability,
}
use eauto_ai.Profit.Checks.{IsRead}
use eauto_ai.Profit.Accounts.{sum, IsBooked, calculate_profitability-IsBooked}
use eauto_ai.Profit.Evidence.{IsSupported, calculate_profitability-IsSupported}
use eauto_ai.Profit.Status.{Verdict, calculate_profitability-Verdict}
use eauto_ai.Profit.Reprice.{decide_price, decide, prepare_repricing_proposal}
use eauto_ai.Profit.Target.{IsLeastPrice, prepare_repricing_proposal-IsLeastPrice}
use eauto_ai.Profit.Margin.{prepare_repricing_proposal-margin}
use eauto_ai.Profit.Service.{Ports, prepare_repricing}
use eauto_ai.Profit.Scope.{IsScoped, prepare_repricing-IsScoped}
use eauto_ai.Profit.Daemon.{
  MarginAuditCandidate, MarginAuditDaemonOptions, AuditPorts, World, AuditCounts, run_once,
}
use eauto_ai.Profit.Audit.{settled, run_once-settled}

abbrev exact_rounding : Rounding
exact_rounding = record {
  round = round_exact;
  ceil = ceil_exact;
  floor = floor_exact;
  trunc = scale_trunc;
}

exact_rounding-IsExact : IsExact exact_rounding
exact_rounding-IsExact = record {
  rounds = λ a b h p q. refl;
  ceils = λ a b d p q. refl;
  floors = λ a b d p q. refl;
  truncs = λ z b d p q. refl;
}

abbrev reading : String → EconomicEvidenceReference
reading id = record { id = id; source = "feed"; observed_at = at 90; content_hash = "h" }

abbrev cost : EconomicCostKind → ℕ → EconomicCostComponent
cost kind amount = record { kind = kind; amount_minor = pos amount; evidence = reading "cost" }

abbrev item : ProfitabilityInput
item = record {
  account_id = "acct";
  listing_id = "listing";
  currency = clp;
  sale_price_minor = pos 10000;
  quantity = pos 2;
  variable_rate_bps = some (pos 1000);
  variable_rate_evidence = some (reading "fee");
  costs = cost product_cost 5000 ∷ cost fulfillment_cost 2000 ∷ [];
  minimum_margin_bps = pos 1000;
  as_of = at 100;
  maximum_evidence_age_ms = pos 60;
}

abbrev books : CompleteProfitabilitySnapshot
books = record {
  status = profitable;
  account_id = "acct";
  listing_id = "listing";
  currency = clp;
  sale_price_minor = 10000;
  quantity = 2;
  minimum_margin_bps = 1000;
  variable_rate_bps = 1000;
  gross_revenue_minor = 20000;
  fixed_costs_minor = 14000;
  variable_costs_minor = 2000;
  total_costs_minor = 16000;
  net_profit_minor = pos 4000;
  margin_bps = pos 2000;
  evidence_refs = "cost" ∷ "fee" ∷ [];
  calculated_at = at 100;
}

calculated : calculate_profitability exact_rounding item ≡ ok (complete books)
unfolding calculate_profitability check_input positive basis_points non_negative is_stale read_costs
    account add_costs safe_multiply safe_add sort string_le
calculated = refl

abbrev policy : RepricingPolicy
policy = record {
  target_margin_bps = pos 2500;
  maximum_increase_bps = pos 1000;
  competitive_ceiling_minor = some (pos 12000);
  policy_version = "v1";
}

abbrev offer : RepricingProposal
offer = record {
  account_id = "acct";
  listing_id = "listing";
  currency = clp;
  current_price_minor = 10000;
  proposed_price_minor = 10770;
  current_margin_bps = pos 2000;
  projected_margin_bps = pos 2500;
  target_margin_bps = 2500;
  evidence_refs = "cost" ∷ "fee" ∷ [];
  policy_version = "v1";
  requires_approval = true;
}

offered : prepare_repricing_proposal exact_rounding (complete books) policy ≡ ok (proposed offer)
unfolding prepare_repricing_proposal basis_points decide decide_price
offered = refl

calculate_profitability-IsSupported_example : IsSupported item books
calculate_profitability-IsSupported_example =
    calculate_profitability-IsSupported exact_rounding item books calculated

calculate_profitability-IsBooked_example :
    (f : Facts) × IsRead item f × IsBooked exact_rounding f books
calculate_profitability-IsBooked_example =
    calculate_profitability-IsBooked exact_rounding item books calculated

calculate_profitability-Verdict_example : Verdict profitable 20000 16000 1000
calculate_profitability-Verdict_example =
    calculate_profitability-Verdict exact_rounding item books exact_rounding-IsExact calculated
      (omega arith)

prepare_repricing_proposal-IsLeastPrice_example :
    (f : Facts) × IsRead item f × IsLeastPrice books policy (sum f.amounts) offer
prepare_repricing_proposal-IsLeastPrice_example =
    prepare_repricing_proposal-IsLeastPrice exact_rounding item books policy offer
      exact_rounding-IsExact calculated offered (omega arith) (omega arith)

prepare_repricing_proposal-margin_example :
    (m : ℕ) × (pos 2500 ≡ pos m) × (pos 2500 ≡ pos 2500) × (2500 * 10770 < (m + 1) * 10770 + 5000)
prepare_repricing_proposal-margin_example =
    prepare_repricing_proposal-margin exact_rounding item books policy offer exact_rounding-IsExact
      calculated offered (omega arith) (omega arith) (omega arith)

abbrev ports : Ports
ports = record {
  read = λ account listing. ok item;
  save_snapshot = λ s. ok tt;
  save_proposal = λ p. ok tt;
}

prepare_repricing-IsScoped_example :
    All
      (IsScoped exact_rounding policy "acct" "listing")
      (prepare_repricing exact_rounding ports "acct" "listing" policy []).1
prepare_repricing-IsScoped_example =
    prepare_repricing-IsScoped exact_rounding ports "acct" "listing" policy

abbrev candidate : String → MarginAuditCandidate
candidate listing = record { organization_id = "org"; account_id = "acct"; listing_id = listing }

abbrev two_candidates : List MarginAuditCandidate
two_candidates = candidate "listing" ∷ candidate "elsewhere" ∷ []

abbrev audit_ports : AuditPorts
audit_ports = record {
  profit = ports;
  now = λ n. 100 + n;
  claim = λ owner now until limit. ok two_candidates;
  save = λ f. ok tt;
  complete = λ c owner t. ok tt;
  fail = λ c owner t e. ok tt;
}

abbrev options : MarginAuditDaemonOptions
options = record {
  worker_id = "w";
  lease_ms = 10;
  success_interval_ms = 1000;
  retry_interval_ms = 100;
}

abbrev start : World
start = record { effects = []; events = []; readings = 0 }

run_once-settled_example :
    (n : AuditCounts) × (w : World) × (run_once exact_rounding audit_ports options (pos 2) start
      ≡ (ok n, w))
    × (settled w.events ≡ two_candidates)
    × (n.leased ≡ 2)
    × (n.audited + n.failed ≡ 2)
    × (n.findings ≤ n.audited)
run_once-settled_example =
    run_once-settled exact_rounding audit_ports options 1 start two_candidates (λ c t e. refl)
      (omega arith) refl
