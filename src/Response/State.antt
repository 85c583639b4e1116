-- ===== src/Response/State.antt =====
-- The data of the response in src/lib/backend/types.ts, and what the language gives for the display of
-- numbers.
use Prim.Native.Nat.{ℕ}
use Prim.Native.String.{String}
use radar_asset.Base.{Option, List}
use radar_asset.Ledger.{Position}
use radar_asset.Performance.State.{PerformancePoint, BenchmarkSummary}

-- `toFixed`, `toLocaleString` with the options that the code passes, a number in a template, and the
-- place that a number names in an array, if it is one.
pub record Runtime {ℓ} (N : Type ℓ) : Type ℓ where
  pub to_fixed : N → ℕ → String
  pub to_usd : N → String
  pub shown : N → String
  pub array_index : N → Option ℕ

pub record HoldingResponse {ℓ} (N : Type ℓ) : Type ℓ where
  pub asset_id : String
  pub ticker : String
  pub name : String
  pub qty : N
  pub price : N
  pub cost : N
  pub value : N
  pub pnl : N
  pub pnl_pct : N
  pub alloc : N
  pub sentiment : String
  pub category : String
  pub currency : Option String

pub record RiskMetric {ℓ} (N : Type ℓ) : Type ℓ where
  pub key : String
  pub label : String
  pub value : String
  pub raw_value : N
  pub sub : String
  pub tone : String

-- The transactions are passed on as they are.
pub record ResponseInput {ℓ} (N T : Type ℓ) : Type ℓ where
  pub portfolio_id : String
  pub portfolio_name : String
  pub base_currency : String
  pub positions : List (Position N)
  pub transactions : List T
  pub performance : List (PerformancePoint N)
  pub benchmark : Option (BenchmarkSummary N)
  pub realized_pnl : Option N
  pub cumulative_buy_capital : Option N
  pub data_as_of : Option String
  pub data_source : Option String

pub record Response {ℓ} (N T : Type ℓ) : Type ℓ where
  pub portfolio_id : String
  pub portfolio_name : String
  pub base_currency : String
  pub total_value : N
  pub total_cost : N
  pub unrealized_pnl : N
  pub realized_pnl : N
  pub total_pnl : N
  pub total_pnl_pct : N
  pub cumulative_buy_capital : N
  pub day_change_pct : N
  pub allocation : List (String × N)
  pub holdings : List (HoldingResponse N)
  pub transactions : List T
  pub performance : List (PerformancePoint N)
  pub benchmark : BenchmarkSummary N
  pub risk_metrics : List (RiskMetric N)
  pub data_as_of : Option String
  pub data_source : String
