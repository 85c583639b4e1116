-- ===== src/Runs/Tests.antt =====
-- Runs and witnesses of the quant runs.
use Prim.Native.String.{String}
use mathlib.Core.List.{Memᴰ, Forall₂}
use radar_asset.Base.{
  ℕ, if◌then◌else◌, Bool-cases, ◌≡◌, refl, sym, ◌∙◌, inl, inr, true, false, Option, none, some,
  List, [], ◌∷◌, Result, ok, err, All, arith,
}
use radar_asset.Base.Int.{ℤ, pos, ltb_ℤ, leb_ℤ, ◌+ℤ◌, ◌-ℤ◌, ◌*ℤ◌}
use radar_asset.Base.Number.{whole_numbers}
use text.Mathlib.Text.{◌==◌}
use text.Mathlib.TextEquality.{eq_iff}
use radar_asset.Fx.{usd}
use radar_asset.Builder.State.{never, MarketCost, adjusted_prices}
use radar_asset.Access.{TenantContext, owner}
use radar_asset.Runs.State.{
  RunError, dataset_range_insufficient, leverage_limit_exceeded, crypto_spot, SubmissionLeg,
  Submission, DatasetVersion, QuantAsset, StrategyRow, ResolvedLeg, RunRow, RunStore, RunResponse,
  RunMoment, Outside,
}
use radar_asset.Runs.Legs.{resolve_portfolio_legs}
use radar_asset.Runs.Eligible.{IsMinimum, IsResolved, resolve_portfolio_legs-IsResolved}
use radar_asset.Runs.Create.{new_run, new_run_leg, create_portfolio_quant_run}
use radar_asset.Runs.Reuse.{create_portfolio_quant_run-idempotent}
use radar_asset.Runs.Cancel.{cancel_portfolio_quant_run}
use radar_asset.Runs.Stopped.{IsWorker, IsStopped, cancel_portfolio_quant_run-IsStopped}

abbrev context : TenantContext
context = record { user_id = "u"; organization_id = "org"; role = owner }

abbrev leg : SubmissionLeg ℤ
leg = record {
  symbol = "BTC";
  allocation_bps = 10_000;
  leverage = pos 1;
  strategy_code = "ma";
  strategy_version = "1";
  strategy_parameters = "{}";
}

abbrev no_cost : MarketCost ℤ
no_cost = record {
  commission_bps = pos 0;
  sell_tax_bps = pos 0;
  slippage_bps = pos 0;
  financing_bps_annual = pos 0;
}

abbrev submission : Submission ℤ
submission = record {
  timeframe = "1d";
  from = "2026-01-01";
  to = "2026-06-30";
  total_capital = pos 500;
  assumptions = record {
    cash_allocation_bps = 0;
    rebalance_frequency = never;
    monthly_contribution = pos 0;
    dividend_mode = adjusted_prices;
    base_currency = usd;
    market_costs = record { vn_equity = no_cost; crypto_spot = no_cost; metal_spot = no_cost };
  };
  legs = leg ∷ [];
}

abbrev prices : DatasetVersion
prices = record {
  id = "d1";
  checksum = "c";
  version = 2;
  is_active = true;
  quality_status = "passed";
  coverage_start = "2020-01-01T00:00:00.000Z";
  coverage_end = "2026-07-01T00:00:00.000Z";
  issues = [];
}

abbrev bitcoin : QuantAsset ℤ
bitcoin = record {
  id = "a1";
  symbol = "BTC";
  market = "crypto_spot";
  currency = "USDT";
  max_leverage = pos 3;
  listed_from = "2019-01-01T00:00:00.000Z" ∷ [];
  datasets =
      record { timeframe = "1d"; adjustment_policy = "total_return"; versions = prices ∷ [] } ∷ [];
}

abbrev average : StrategyRow
average = record {
  id = "s1";
  code = "ma";
  version = "1";
  name = "Average";
  status = "active";
  organization_id = none;
  implementation_hash = "h";
  supported_markets = "crypto_spot" ∷ [];
  supported_timeframes = "1d" ∷ [];
  custom = none;
}

abbrev store : RunStore ℤ
store = record {
  strategies = average ∷ [];
  assets = bitcoin ∷ [];
  runs = [];
  legs = [];
  artifacts = [];
}

abbrev outside : Outside ℤ
outside = record {
  normalize_submission = λ s. ok s;
  normalize_rule = λ r. ok (record { currency = "USD"; definition = r });
  run_hash = λ s legs version. "hash";
}

abbrev moment : RunMoment
moment = record { now = 1_000; run_id = "r1"; leg_id = λ symbol. symbol }

abbrev resolved : ResolvedLeg ℤ
resolved = record {
  symbol = "BTC";
  asset_id = "a1";
  dataset_version_id = "d1";
  dataset_checksum = "c";
  strategy_version_id = "s1";
  implementation_hash = "h";
  allocation_bps = 10_000;
  leverage = pos 1;
  strategy_parameters = "{}";
  initial_notional = pos 500;
  market = crypto_spot;
  currency = "USDT";
  strategy_code = "ma";
  strategy_version = "1";
  listing_first_observed_at = some "2019-01-01T00:00:00.000Z";
}

abbrev resolve : Submission ℤ → Result RunError (List (ResolvedLeg ℤ))
resolve input =
    resolve_portfolio_legs outside.normalize_rule input context (average ∷ []) (bitcoin ∷ [])

resolves :
    (resolve submission ≡ ok (resolved ∷ []))
    × (resolve (record submission { to = "2026-07-02" }) ≡ err dataset_range_insufficient)
    × (resolve (record submission { legs = record leg { leverage = pos 2 } ∷ [] })
        ≡ err leverage_limit_exceeded)
unfolding resolve_portfolio_legs ◌+ℤ◌ ◌-ℤ◌ ◌*ℤ◌
resolves = (refl, refl, refl)

minimum_below :
    (a b x : ℤ)
    → ltb_ℤ (if leb_ℤ a b then a else b) x ≡ false
    → (ltb_ℤ a x ≡ false) × (ltb_ℤ b x ≡ false)
minimum_below a b x e = elim (Bool-cases (leb_ℤ a b)) [
  | inl y ↦ let h = rw y at e in (h, ground arith)
  | inr n ↦ let h = rw n at e in (ground arith, h)
]

whole_numbers-IsMinimum : IsMinimum whole_numbers
whole_numbers-IsMinimum a b x finite e = minimum_below a b x e

resolve_portfolio_legs-IsResolved_example :
    Forall₂
      (IsResolved outside.normalize_rule context submission (average ∷ []) (bitcoin ∷ []))
      (leg ∷ [])
      (resolved ∷ [])
resolve_portfolio_legs-IsResolved_example =
    resolve_portfolio_legs-IsResolved outside.normalize_rule context submission (average ∷ [])
      (bitcoin ∷ []) whole_numbers-IsMinimum resolves.0

abbrev queued : RunRow ℤ
queued = new_run context moment submission (resolved ∷ []) "hash"

abbrev queued_store : RunStore ℤ
queued_store = record store { runs = queued ∷ []; legs = new_run_leg moment resolved ∷ [] }

abbrev response_of : String → ℕ → Option ℕ → RunResponse ℤ
response_of status progress finished_at = record {
  id = "r1";
  strategy_name = "Portfolio Backtest";
  strategy_code = none;
  strategy_version = none;
  status = status;
  timeframe = "1d";
  progress = progress;
  strategy_hash = some "hash";
  dataset_version_ids = "d1" ∷ [];
  engine_version = "portfolio-v1";
  parameters = queued.parameters;
  metrics = none;
  error_message = none;
  started_at = none;
  finished_at = finished_at;
  created_at = 1_000;
  cache_hit = false;
  source_run_id = none;
  legs =
      record {
        id = "BTC";
        symbol = "BTC";
        market = crypto_spot;
        currency = "USDT";
        allocation_bps = 10_000;
        initial_notional = pos 500;
        leverage = pos 1;
        strategy_code = "ma";
        strategy_version = "1";
        strategy_name = "Average";
        strategy_parameters = "{}";
        implementation_hash = "h";
        dataset_version_id = "d1";
        status = "queued";
        progress = 0;
        metrics = none;
        error_code = none;
      }
      ∷ [];
  artifacts = [];
}

creates :
    create_portfolio_quant_run outside context moment submission store
    ≡ ok (queued_store, response_of "queued" 0 none)
unfolding create_portfolio_quant_run ◌+ℤ◌ ◌-ℤ◌ ◌*ℤ◌
creates = refl

create_portfolio_quant_run-idempotent_example :
    create_portfolio_quant_run outside context
      (record moment { now = 2_000; run_id = "r2" })
      submission
      queued_store
    ≡ ok (queued_store, response_of "queued" 0 none)
create_portfolio_quant_run-idempotent_example =
    create_portfolio_quant_run-idempotent outside context moment
      (record moment { now = 2_000; run_id = "r2" }) submission store (λ run m e. elim m [ ])
      creates

-- The worker claims a queued run.
abbrev claim : RunRow ℤ → RunRow ℤ
claim run = if run.status == "queued" then record run { status = "running" } else run

claim-IsWorker : IsWorker claim
claim-IsWorker = record {
  same_id =
      λ run. elim (Bool-cases (run.status == "queued")) [ inl y ↦ rw y refl | inr n ↦ rw n refl ];
  same_organization =
      λ run. elim (Bool-cases (run.status == "queued")) [ inl y ↦ rw y refl | inr n ↦ rw n refl ];
  queued = λ run e. elim (Bool-cases (run.status == "queued")) [
    | inl y ↦ (eq_iff run.status "queued").0 y
    | inr n ↦ rw n at e
  ];
  running = λ run e. elim (Bool-cases (run.status == "queued")) [
    | inl y ↦ inl ((eq_iff run.status "queued").0 y)
    | inr n ↦ inr (rw n at e)
  ];
}

same-IsWorker : IsWorker {N = ℤ} (λ run. run)
same-IsWorker = record {
  same_id = λ run. refl;
  same_organization = λ run. refl;
  queued = λ run e. e;
  running = λ run e. inr e;
}

-- Claimed between the reading and the first update.
abbrev requested : RunRow ℤ
requested = record queued { status = "cancel_requested"; cancel_requested_at = some 5_000 }

abbrev requested_store : RunStore ℤ
requested_store = record queued_store { runs = requested ∷ [] }

cancels :
    cancel_portfolio_quant_run claim (λ run. run) context 5_000 "r1" queued_store
    ≡ ok (requested_store, response_of "cancel_requested" 0 none)
unfolding cancel_portfolio_quant_run new_run
cancels = refl

only_run :
    (a b : RunRow ℤ) → Memᴰ a queued_store.runs → Memᴰ b queued_store.runs → a.id ≡ b.id → a ≡ b
only_run a b (Memᴰ.head e) (Memᴰ.head f) h = e ∙ sym f
only_run a b (Memᴰ.head e) (Memᴰ.tail n) h = elim n [ ]
only_run a b (Memᴰ.tail m) n h = elim m [ ]

cancel_portfolio_quant_run-IsStopped_example : All (IsStopped "org" "r1") requested_store.runs
cancel_portfolio_quant_run-IsStopped_example =
    cancel_portfolio_quant_run-IsStopped claim (λ run. run) context 5_000 "r1" queued_store
      requested_store (response_of "cancel_requested" 0 none) claim-IsWorker same-IsWorker only_run
      cancels
