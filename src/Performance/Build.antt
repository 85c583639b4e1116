-- ===== src/Performance/Build.antt =====
-- src/lib/backend/portfolio.ts: buildPortfolioPerformance and buildTradeAwarePerformance.
use Prim.Native.String.{String, [], ◌∷◌}
use radar_asset.Base.{
  ◌||◌, Option, none, List, [], ◌∷◌, map, if◌then◌else◌, leb, Result, ok, ◌>>=◌, length, or_default,
}
use radar_asset.Base.Int.{pos_part}
use radar_asset.Base.Assoc.{Dict, get}
use radar_asset.Base.Number.{Number, of_ℕ}
use radar_asset.Ledger.{LedgerError, LedgerAsset, Transaction, Sign, asset_map, in_ledger_order}
use radar_asset.Performance.State.{
  HistoricalBar, IndexPoint, Performance, PerformanceInput, DayState,
}
use radar_asset.Performance.Bars.{bars_by_date, performance_dates, note_prices}
use radar_asset.Performance.Trading.{trade_loop}
use radar_asset.Performance.Value.{value_day}
use radar_asset.Performance.Report.{empty_benchmark, reported}

module _ {ℓ} {N : Type ℓ} ⦃num : Number N⦄ where
  open num use {plus, minus, times, over, negate, lt, le, same, minimum}

  -- One round of the loop over the days.
  unfoldable pub day_step :
      (String → String)
      → Option String
      → Dict (LedgerAsset N)
      → Dict (List (HistoricalBar N))
      → DayState N
      → String
      → Result LedgerError (DayState N)
  unfolding get note_prices trade_loop value_day
  day_step label benchmark_id assets by_date s key = do
    let prices = note_prices (or_default (get key by_date) []) s.latest_prices
    traded ← trade_loop assets key s.trading s.upcoming
    let valued = value_day label benchmark_id key prices traded.0 s.valuation
    ok (record {
      trading = valued.0;
      valuation = valued.1;
      latest_prices = prices;
      upcoming = traded.1;
    })

  unfoldable pub day_loop :
      (String → String)
      → Option String
      → Dict (LedgerAsset N)
      → Dict (List (HistoricalBar N))
      → DayState N
      → List String
      → Result LedgerError (DayState N)
  unfolding day_step
  day_loop label benchmark_id assets by_date s [] = ok s
  day_loop label benchmark_id assets by_date s (key ∷ dates) = do
    next ← day_step label benchmark_id assets by_date s key
    day_loop label benchmark_id assets by_date next dates

  abbrev pub start_of_days : List (Transaction N) → DayState N
  start_of_days transactions = record {
    trading = record {
      positions = [];
      pending_portfolio_flow = of_ℕ 0;
      pending_benchmark_flow = of_ℕ 0;
      total_contributions = of_ℕ 0;
      total_withdrawals = of_ℕ 0;
    };
    valuation = record {
      points = [];
      previous_value = none;
      portfolio_index = of_ℕ 100;
      benchmark_base = none;
      benchmark_units = of_ℕ 0;
      benchmark_cash = of_ℕ 0;
    };
    latest_prices = [];
    upcoming = transactions;
  }

  unfoldable pub build_portfolio_performance :
      (String → String → Sign)
      → (String → String)
      → PerformanceInput N
      → Result LedgerError (Performance N)
  unfolding asset_map in_ledger_order bars_by_date performance_dates day_loop reported
  build_portfolio_performance compare label input =
      let limit = pos_part input.limit in
      let by_date = bars_by_date [] input.bars in
      let dates = performance_dates input.transactions by_date in
      if leb limit 0 || leb (length dates) 0
      then ok (record { performance = []; benchmark = empty_benchmark })
      else do
        s ←
            day_loop label input.benchmark_asset_id (asset_map [] input.assets) by_date
              (start_of_days (in_ledger_order compare input.transactions)) dates
        ok (reported limit s)

  unfoldable pub build_trade_aware_performance :
      (String → String → Sign)
      → (String → String)
      → PerformanceInput N
      → Result LedgerError (List (IndexPoint N))
  unfolding build_portfolio_performance
  build_trade_aware_performance compare label input = do
    built ← build_portfolio_performance compare label input
    ok (
        map
          (λ point. record {
            label = point.label;
            portfolio = point.portfolio;
            benchmark = point.benchmark;
          })
          built.performance)
