-- ===== src/Performance/Tests.antt =====
-- Runs and witnesses of the performance.
use Prim.Native.String.{String}
use radar_asset.Base.{◌≡◌, refl, ◌≤◌, none, some, List, [], ◌∷◌, Result, ok, err, length}
use radar_asset.Base.Int.{ℤ, pos, pos_part, ◌+ℤ◌, ◌-ℤ◌, ◌*ℤ◌}
use radar_asset.Base.Number.{whole_numbers}
use radar_asset.Ledger.{
  TransactionType, buy, sell, crypto, LedgerError, LedgerAsset, Transaction, ReplayResult,
  replay_start, replay_loop, asset_map, replay_portfolio_ledger,
}
use radar_asset.Ledger.Order.{by_code_points}
use radar_asset.Performance.State.{
  HistoricalBar, Performance, PerformancePoint, PerformanceInput, DayState,
}
use radar_asset.Performance.Bars.{bars_by_date}
use radar_asset.Performance.Build.{day_loop, start_of_days, build_portfolio_performance}
use radar_asset.Performance.Follows.{IsFollowing, IsWaiting}
use radar_asset.Performance.Laws.{
  day_loop-follows, build_portfolio_performance-available, build_portfolio_performance-bounded,
}

abbrev asset : String → LedgerAsset ℤ
asset id = record {
  asset_id = id;
  symbol = id;
  name = id;
  asset_class = crypto;
  latest_price = pos 25;
  currency = some "USD";
}

abbrev trade : String → TransactionType → ℤ → ℤ → Transaction ℤ
trade day kind quantity price = record {
  id = day;
  created_at = day;
  executed_at = day;
  kind = kind;
  asset_id = "btc";
  symbol = none;
  quantity = quantity;
  price = price;
  fee = pos 0;
  note = none;
  currency = none;
}

abbrev bar : String → String → ℤ → HistoricalBar ℤ
bar id ts close = record { asset_id = id; ts = ts; close = close }

abbrev input : PerformanceInput ℤ
input = record {
  assets = asset "btc" ∷ [];
  transactions =
      trade "2026-01-02T09:00" buy (pos 1) (pos 20)
      ∷ trade "2026-01-01T09:00" buy (pos 2) (pos 10)
      ∷ trade "2026-01-09T09:00" sell (pos 1) (pos 30)
      ∷ [];
  bars =
      bar "btc" "2026-01-02T00:00" (pos 20)
      ∷ bar "vni" "2026-01-01T00:00" (pos 5)
      ∷ bar "btc" "2026-01-01T00:00" (pos 10)
      ∷ bar "vni" "2026-01-02T00:00" (pos 10)
      ∷ [];
  benchmark_asset_id = some "vni";
  limit = pos 1;
}

-- The holding doubles in value from 20 to 40 before another 20 goes in; the benchmark's four units
-- double to 40 and two more are bought.
abbrev last_point : PerformancePoint ℤ
last_point = record {
  label = "2026-01-02";
  portfolio = pos 100;
  benchmark = pos 100;
  portfolio_value = pos 60;
  benchmark_value = some (pos 60);
}

abbrev built : Performance ℤ
built = record {
  performance = last_point ∷ [];
  benchmark = record {
    symbol = "VNINDEX";
    portfolio_value = pos 60;
    benchmark_value = some (pos 60);
    excess_value = some (pos 0);
    portfolio_return_pct = pos 0;
    benchmark_return_pct = some (pos 0);
    excess_return_pct = some (pos 0);
  };
}

abbrev ledger : List (Transaction ℤ)
ledger =
    trade "2026-01-01T09:00" buy (pos 2) (pos 10)
    ∷ trade "2026-01-02T09:00" buy (pos 1) (pos 20)
    ∷ []

runs : build_portfolio_performance by_code_points (λ key. key) input ≡ ok built
unfolding build_portfolio_performance ◌+ℤ◌ ◌-ℤ◌ ◌*ℤ◌ by_code_points
runs = refl

abbrev or_start : {A : Type 0} → A → Result LedgerError A → A
or_start start (err e) = start
or_start start (ok s) = s

abbrev no_result : ReplayResult ℤ
no_result = record {
  positions = [];
  transactions = [];
  realized_pnl = pos 0;
  cumulative_buy_capital = pos 0;
}

replays :
    (replay_loop (asset_map [] input.assets) replay_start ledger
      ≡ ok (or_start replay_start (replay_loop (asset_map [] input.assets) replay_start ledger)))
    × (replay_portfolio_ledger by_code_points input.assets input.transactions
        ≡ ok (
            or_start no_result
              (replay_portfolio_ledger by_code_points input.assets input.transactions)))
unfolding replay_portfolio_ledger ◌+ℤ◌ ◌-ℤ◌ ◌*ℤ◌ by_code_points
replays = (refl, refl)

day_loop-follows_example :
    (final : DayState ℤ) × (day_loop
        (λ key. key)
        (some "vni")
        (asset_map [] input.assets)
        (bars_by_date [] input.bars)
        (start_of_days ledger)
        ("2026-01-01" ∷ [])
      ≡ ok final)
    × IsFollowing (asset_map [] input.assets) replay_start ledger final.trading final.upcoming
    × IsWaiting "2026-01-01" final.upcoming
day_loop-follows_example =
    day_loop-follows (λ key. key) (some "vni") (asset_map [] input.assets)
      (bars_by_date [] input.bars) ledger ("2026-01-01" ∷ []) replays.0

build_portfolio_performance-available_example :
    (p : Performance ℤ) × (build_portfolio_performance by_code_points (λ key. key) input ≡ ok p)
build_portfolio_performance-available_example =
    build_portfolio_performance-available by_code_points (λ key. key) input replays.1

build_portfolio_performance-bounded_example : length built.performance ≤ pos_part (pos 1)
build_portfolio_performance-bounded_example =
    build_portfolio_performance-bounded by_code_points (λ key. key) input runs
