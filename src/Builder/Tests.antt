-- ===== src/Builder/Tests.antt =====
-- Runs and witnesses of the builder.
use Prim.Native.String.{String}
use radar_asset.Base.{
  ◌≡◌, refl, ℕ, Option, none, some, List, [], ◌∷◌, true, if◌then◌else◌, ok, err, arith,
}
use radar_asset.Base.Int.{ℤ, pos}
use radar_asset.Base.Words.{Word, codes, word_lt}
use radar_asset.Fx.{usd}
use radar_asset.Ledger.{Sign, negative, zero_sign, positive}
use radar_asset.Allocation.{equal_allocation_for_total}
use radar_asset.Builder.State.{
  AllocationMode, equal, optimized, never, exclude, symbols_changed, not_backtestable, CatalogAsset,
  StrategyInput, DraftLeg, MarketCost, OptimizerProposal, BuilderState, asset_added,
  cash_allocation_edited, optimizer_applied,
}
use radar_asset.Builder.Legs.{weigh}
use radar_asset.Builder.Reduce.{reduce_builder}
use radar_asset.Builder.Laws.{IsBuilder}
use radar_asset.Builder.Invariant.{reduce_builder-IsBuilder}

abbrev by_codes : Word → Word → Sign
by_codes x y = if word_lt y x then positive else if word_lt x y then negative else zero_sign

abbrev asset : String → Option String → CatalogAsset String
asset symbol dataset = record {
  symbol = codes symbol;
  backtestable = true;
  dataset_version_id = dataset;
  details = "daily";
}

abbrev strategy : StrategyInput ℤ String
strategy = record {
  code = "ma_crossover";
  version = "1.0.0";
  name = "Moving averages";
  default_parameters = ("fastPeriod", pos 20) ∷ [];
  parameter_schema = [];
  supported_markets = "crypto_spot" ∷ [];
}

abbrev leg : String → ℕ → DraftLeg ℤ String
leg symbol bps = record {
  asset = asset symbol (some "d1");
  allocation_bps = some bps;
  leverage = pos 1;
  strategy_code = "ma_crossover";
  strategy_version = "1.0.0";
  strategy_name = "Moving averages";
  strategy_parameters = ("fastPeriod", pos 20) ∷ [];
  strategy_parameter_schema = [];
  supported_markets = "crypto_spot" ∷ [];
}

abbrev no_cost : MarketCost ℤ
no_cost = record {
  commission_bps = pos 10;
  sell_tax_bps = pos 0;
  slippage_bps = pos 5;
  financing_bps_annual = pos 0;
}

abbrev state :
    AllocationMode → ℕ → List (DraftLeg ℤ String) → Option OptimizerProposal → BuilderState ℤ String
state mode cash legs proposal = record {
  total_capital = pos 100_000;
  allocation_mode = mode;
  from_date = "2025-01-01";
  to_date = "2026-01-01";
  fee_bps = pos 10;
  slippage_bps = pos 5;
  assumptions = record {
    cash_allocation_bps = cash;
    rebalance_frequency = never;
    monthly_contribution = pos 0;
    dividend_mode = exclude;
    base_currency = usd;
    market_costs = record { vn_equity = no_cost; crypto_spot = no_cost; metal_spot = no_cost };
  };
  legs = legs;
  optimizer_proposal = proposal;
}

abbrev one_leg : BuilderState ℤ String
one_leg = state equal 1 (leg "ETH" 9_999 ∷ []) none

abbrev two_legs : BuilderState ℤ String
two_legs = state equal 1 (leg "BTC" 5_000 ∷ leg "ETH" 4_999 ∷ []) none

abbrev proposal : OptimizerProposal
proposal = record {
  weights_bps = (codes "ETH", 3_000) ∷ (codes "BTC", 6_999) ∷ [];
  total_weight_bps = 9_999;
  dataset_version_ids = (codes "ETH", "d1") ∷ (codes "BTC", "d1") ∷ [];
}

runs :
    (reduce_builder by_codes (pos 1) one_leg (asset_added (asset "BTC" (some "d1")) strategy)
      ≡ ok two_legs)
    × (reduce_builder by_codes (pos 1) one_leg (asset_added (asset "BTC" none) strategy)
        ≡ err not_backtestable)
    × (reduce_builder by_codes (pos 1) two_legs (optimizer_applied proposal)
        ≡ ok (state optimized 1 (leg "BTC" 6_999 ∷ leg "ETH" 3_000 ∷ []) (some proposal)))
    × (reduce_builder by_codes (pos 1) one_leg (optimizer_applied proposal) ≡ err symbols_changed)
    × (reduce_builder by_codes (pos 1) one_leg (cash_allocation_edited (some (pos 20_000)))
        ≡ ok (state equal 10_000 (leg "ETH" 0 ∷ []) none))
unfolding reduce_builder word_lt
runs = (refl, refl, refl, refl, refl)

one_leg-IsBuilder : IsBuilder one_leg
unfolding weigh equal_allocation_for_total
one_leg-IsBuilder = record {
  distinct = (tt, tt);
  few = omega arith;
  cash = omega arith;
  divided = λ e. refl;
}

reduce_builder-IsBuilder_example : IsBuilder two_legs
reduce_builder-IsBuilder_example =
    reduce_builder-IsBuilder by_codes (pos 1) one_leg
      (asset_added (asset "BTC" (some "d1")) strategy) one_leg-IsBuilder runs.0
