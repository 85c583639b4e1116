-- ===== src/Performance/State.antt =====
-- The data of the performance in src/lib/backend/types.ts, and the variables of its loop.
use Prim.Native.String.{String}
use radar_asset.Base.{Option, List}
use radar_asset.Base.Int.{ℤ}
use radar_asset.Base.Assoc.{Dict}
use radar_asset.Ledger.{Position, LedgerAsset, Transaction}

pub record HistoricalBar {ℓ} (N : Type ℓ) : Type ℓ where
  pub asset_id : String
  pub ts : String
  pub close : N

-- The loop sets both optional values of every point.
pub record PerformancePoint {ℓ} (N : Type ℓ) : Type ℓ where
  pub label : String
  pub portfolio : N
  pub benchmark : N
  pub portfolio_value : N
  pub benchmark_value : Option N

-- What `buildTradeAwarePerformance` keeps of a point.
pub record IndexPoint {ℓ} (N : Type ℓ) : Type ℓ where
  pub label : String
  pub portfolio : N
  pub benchmark : N

pub record BenchmarkSummary {ℓ} (N : Type ℓ) : Type ℓ where
  pub symbol : String
  pub portfolio_value : N
  pub benchmark_value : Option N
  pub excess_value : Option N
  pub portfolio_return_pct : N
  pub benchmark_return_pct : Option N
  pub excess_return_pct : Option N

pub record Performance {ℓ} (N : Type ℓ) : Type ℓ where
  pub performance : List (PerformancePoint N)
  pub benchmark : BenchmarkSummary N

pub record PerformanceInput {ℓ} (N : Type ℓ) : Type ℓ where
  pub assets : List (LedgerAsset N)
  pub transactions : List (Transaction N)
  pub bars : List (HistoricalBar N)
  pub benchmark_asset_id : Option String
  pub limit : ℤ

-- The variables of the loop that a transaction changes.
pub record Trading {ℓ} (N : Type ℓ) : Type ℓ where
  pub positions : Dict (Position N)
  pub pending_portfolio_flow : N
  pub pending_benchmark_flow : N
  pub total_contributions : N
  pub total_withdrawals : N

-- The variables that the value of a day changes.
pub record Valuation {ℓ} (N : Type ℓ) : Type ℓ where
  pub points : List (PerformancePoint N)
  pub previous_value : Option N
  pub portfolio_index : N
  pub benchmark_base : Option N
  pub benchmark_units : N
  pub benchmark_cash : N

pub record DayState {ℓ} (N : Type ℓ) : Type ℓ where
  pub trading : Trading N
  pub valuation : Valuation N
  pub latest_prices : Dict N
  -- The transactions from `transactionIndex` on.
  pub upcoming : List (Transaction N)
