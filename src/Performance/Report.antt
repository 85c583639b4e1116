-- ===== src/Performance/Report.antt =====
-- What src/lib/backend/portfolio.ts, buildPortfolioPerformance, makes of the points of its loop.
use Prim.Native.String.{[], ◌∷◌}
use radar_asset.Base.{ℕ, Option, none, some, List, [], ◌∷◌, map, if◌then◌else◌, last?}
use radar_asset.Base.Number.{Number, of_ℕ}
use radar_asset.Ledger.{round}
use radar_asset.Performance.State.{
  PerformancePoint, BenchmarkSummary, Performance, Trading, DayState,
}
use radar_asset.Performance.Bars.{slice_last}

module _ {ℓ} {N : Type ℓ} ⦃num : Number N⦄ where
  open num use {plus, minus, times, over, negate, lt, le, same, minimum}

  abbrev pub empty_benchmark : BenchmarkSummary N
  empty_benchmark = record {
    symbol = "VNINDEX";
    portfolio_value = of_ℕ 0;
    benchmark_value = none;
    excess_value = none;
    portfolio_return_pct = of_ℕ 0;
    benchmark_return_pct = none;
    excess_return_pct = none;
  }

  -- The visible points, with the first of them at 100.
  abbrev rebased : N → N → PerformancePoint N → PerformancePoint N
  rebased portfolio_base benchmark_base point = record point {
    portfolio = round (times (over point.portfolio portfolio_base) (of_ℕ 100)) 2;
    benchmark = round (times (over point.benchmark benchmark_base) (of_ℕ 100)) 2;
  }

  unfoldable pub rebase : List (PerformancePoint N) → List (PerformancePoint N)
  unfolding round
  rebase [] = []
  rebase (p ∷ ps) = map (rebased p.portfolio p.benchmark) (p ∷ ps)

  abbrev return_pct : N → Trading N → N
  return_pct value t =
      times
        (over (minus (plus value t.total_withdrawals) t.total_contributions) t.total_contributions)
        (of_ℕ 100)

  abbrev pub map_some : (N → N) → Option N → Option N
  map_some f none = none
  map_some f (some x) = some (f x)

  unfoldable pub summary : PerformancePoint N → Trading N → BenchmarkSummary N
  unfolding round
  summary latest t =
      let value = latest.portfolio_value in
      let invested = lt (of_ℕ 0) t.total_contributions in
      let portfolio_return = if invested then return_pct value t else of_ℕ 0 in
      let benchmark_return =
        if invested then map_some (λ b. return_pct b t) latest.benchmark_value else none in
      record {
        symbol = "VNINDEX";
        portfolio_value = round value 2;
        benchmark_value = map_some (λ b. round b 2) latest.benchmark_value;
        excess_value = map_some (λ b. round (minus value b) 2) latest.benchmark_value;
        portfolio_return_pct = round portfolio_return 4;
        benchmark_return_pct = map_some (λ r. round r 4) benchmark_return;
        excess_return_pct = map_some (λ r. round (minus portfolio_return r) 4) benchmark_return;
      }

  -- The result, once the loop over the days has ended.
  unfoldable pub reported : ℕ → DayState N → Performance N
  unfolding slice_last rebase summary
  reported limit s = record {
    performance = rebase (slice_last limit s.valuation.points);
    benchmark = elim (last? s.valuation.points) [
      | none ↦ empty_benchmark
      | some latest ↦ summary latest s.trading
    ];
  }
