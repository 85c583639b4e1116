-- ===== src/Builder/State.antt =====
-- The data of src/lib/backtest/builder-state.ts and of the assumptions in src/lib/backtest/contracts.ts.
-- D is what the catalogue says of an asset or of a strategy's parameters beyond what the builder reads.
-- The only timeframe, "1d", and the only fxPolicy are left out.
use Prim.Native.String.{String}
use radar_asset.Base.{ℕ, Bool, Option, List}
use radar_asset.Base.Int.{ℤ}
use radar_asset.Base.Words.{Word}
use radar_asset.Base.Assoc.{Dict}
use radar_asset.Fx.{PortfolioCurrency}
use radar_asset.Freshness.{MarketDataMarket}

pub data AllocationMode : Type 0 where
  equal custom optimized : AllocationMode

pub data RebalanceFrequency : Type 0 where
  never monthly quarterly yearly : RebalanceFrequency

pub data DividendMode : Type 0 where
  exclude adjusted_prices : DividendMode

pub data BuilderError : Type 0 where
  too_many_assets not_backtestable : BuilderError
  symbols_changed target_changed datasets_changed : BuilderError

pub record CatalogAsset {ℓ} (D : Type ℓ) : Type ℓ where
  pub symbol : Word
  pub backtestable : Bool
  pub dataset_version_id : Option String
  pub details : D

pub record StrategyInput {ℓ} (N D : Type ℓ) : Type ℓ where
  pub code : String
  pub version : String
  pub name : String
  pub default_parameters : Dict N
  pub parameter_schema : List D
  pub supported_markets : List String

-- The asset's fields stand under `asset`; an allocation is `none` where the source has undefined.
pub record DraftLeg {ℓ} (N D : Type ℓ) : Type ℓ where
  pub asset : CatalogAsset D
  pub allocation_bps : Option ℕ
  pub leverage : N
  pub strategy_code : String
  pub strategy_version : String
  pub strategy_name : String
  pub strategy_parameters : Dict N
  pub strategy_parameter_schema : List D
  pub supported_markets : List String

pub record MarketCost {ℓ} (N : Type ℓ) : Type ℓ where
  pub commission_bps : N
  pub sell_tax_bps : N
  pub slippage_bps : N
  pub financing_bps_annual : N

pub data CostKey : Type 0 where
  commission sell_tax slippage financing : CostKey

pub record MarketCosts {ℓ} (N : Type ℓ) : Type ℓ where
  pub vn_equity : MarketCost N
  pub crypto_spot : MarketCost N
  pub metal_spot : MarketCost N

pub record Assumptions {ℓ} (N : Type ℓ) : Type ℓ where
  pub cash_allocation_bps : ℕ
  pub rebalance_frequency : RebalanceFrequency
  pub monthly_contribution : N
  pub dividend_mode : DividendMode
  pub base_currency : PortfolioCurrency
  pub market_costs : MarketCosts N

pub record OptimizerProposal : Type 0 where
  pub weights_bps : List (Word × ℕ)
  pub total_weight_bps : ℕ
  pub dataset_version_ids : List (Word × String)

pub record BuilderState {ℓ} (N D : Type ℓ) : Type ℓ where
  pub total_capital : N
  pub allocation_mode : AllocationMode
  pub from_date : String
  pub to_date : String
  pub fee_bps : N
  pub slippage_bps : N
  pub assumptions : Assumptions N
  pub legs : List (DraftLeg N D)
  pub optimizer_proposal : Option OptimizerProposal

pub data AssumptionEdit {ℓ} (N : Type ℓ) : Type ℓ where
  rebalance : RebalanceFrequency → AssumptionEdit N
  contribution : N → AssumptionEdit N
  dividends : DividendMode → AssumptionEdit N
  currency : PortfolioCurrency → AssumptionEdit N

-- An edited share is `Math.round` of the number that was typed in, or `none` if that is not finite.
pub data BuilderAction {ℓ} (N D : Type ℓ) : Type ℓ where
  asset_added : CatalogAsset D → StrategyInput N D → BuilderAction N D
  asset_refreshed : CatalogAsset D → BuilderAction N D
  asset_removed : Word → BuilderAction N D
  allocation_edited : Word → Option ℤ → BuilderAction N D
  made_equal made_custom : BuilderAction N D
  cash_allocation_edited : Option ℤ → BuilderAction N D
  strategy_changed : Word → StrategyInput N D → BuilderAction N D
  strategy_parameter_edited : Word → String → N → BuilderAction N D
  leverage_edited : Word → N → BuilderAction N D
  total_capital_edited : N → BuilderAction N D
  timeframe_changed : BuilderAction N D
  range_changed : String → String → BuilderAction N D
  assumption_edited : AssumptionEdit N → BuilderAction N D
  market_cost_edited : MarketDataMarket → CostKey → N → BuilderAction N D
  optimizer_applied : OptimizerProposal → BuilderAction N D
