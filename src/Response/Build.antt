-- ===== src/Response/Build.antt =====
-- src/lib/backend/portfolio.ts: buildPortfolioResponse.
use Prim.Native.String.{String}
use radar_asset.Base.{
  ℕ, ◌-◌, ◌&&◌, Option, none, some, List, [], ◌∷◌, map, if◌then◌else◌, ltb, length, get_elem?,
  or_default,
}
use radar_asset.Base.Assoc.{Dict, get, put}
use radar_asset.Base.Number.{Number, of_ℕ}
use radar_asset.Ledger.{
  AssetClass, crypto, equity, etf, index, fx, commodity, cash, Position, nonempty, round,
}
use radar_asset.Performance.State.{PerformancePoint, BenchmarkSummary}
use radar_asset.Performance.Value.{is_truthy}
use radar_asset.Response.State.{Runtime, HoldingResponse, ResponseInput, Response}
use radar_asset.Response.Risk.{sum_of, calculate_risk_metrics}

abbrev pub category_for : AssetClass → String
category_for crypto = "Crypto"
category_for cash = "Cash"
category_for equity = "Stocks"
category_for etf = "Stocks"
category_for index = "Stocks"
category_for fx = "Stocks"
category_for commodity = "Stocks"

module _ {ℓ} {N : Type ℓ} ⦃num : Number N⦄ where
  open num use {plus, minus, times, over, negate, lt, same}

  abbrev pub sentiment_for : N → String
  sentiment_for pnl_pct =
      if lt (of_ℕ 3) pnl_pct
      then "Bullish"
      else if lt pnl_pct (negate (of_ℕ 3))
      then "Bearish"
      else "Neutral"

  -- `whole === 0 ? 0 : (part / whole) * 100`.
  abbrev pub percent_of : N → N → N
  percent_of part whole = if same whole (of_ℕ 0) then of_ℕ 0 else times (over part whole) (of_ℕ 100)

  -- `totalValue === 0 ? 0 : round((value / totalValue) * 100)`.
  abbrev pub share_of : N → N → N
  share_of total_value value =
      if same total_value (of_ℕ 0)
      then of_ℕ 0
      else round (times (over value total_value) (of_ℕ 100)) 2

  unfoldable pub to_holding : N → Position N → HoldingResponse N
  unfolding round
  to_holding total_value p =
      let value = times p.quantity p.latest_price in
      let cost_basis = times p.quantity p.average_cost in
      let pnl = minus value cost_basis in
      let pnl_pct = percent_of pnl cost_basis in
      record {
        asset_id = p.asset_id;
        ticker = p.symbol;
        name = p.name;
        qty = p.quantity;
        price = p.latest_price;
        cost = p.average_cost;
        value = round value 2;
        pnl = round pnl 2;
        pnl_pct = round pnl_pct 4;
        alloc = share_of total_value value;
        sentiment = sentiment_for pnl_pct;
        category = category_for p.asset_class;
        currency = nonempty p.currency;
      }

  -- `for (const holding of holdings) allocationMap.set(…)`.
  unfoldable pub allocation_map : Dict N → List (HoldingResponse N) → Dict N
  unfolding get put
  allocation_map m [] = m
  allocation_map m (h ∷ hs) =
      allocation_map (put h.category (plus (or_default (get h.category m) (of_ℕ 0)) h.value) m) hs

  abbrev pub to_allocation : N → Dict N → List (String × N)
  to_allocation total_value m = map (λ e. (e.0, share_of total_value e.1)) m

  abbrev day_change : Option (PerformancePoint N) → Option (PerformancePoint N) → N
  day_change none latest = of_ℕ 0
  day_change (some previous) none = of_ℕ 0
  day_change (some previous) (some latest) =
      if is_truthy previous.portfolio && is_truthy latest.portfolio
      then times (over (minus latest.portfolio previous.portfolio) previous.portfolio) (of_ℕ 100)
      else of_ℕ 0

  -- `values[values.length - back]`.
  abbrev from_end : ℕ → List (PerformancePoint N) → Option (PerformancePoint N)
  from_end back points =
      if ltb (length points) back then none else get_elem? points (length points - back)

  abbrev no_benchmark : N → N → BenchmarkSummary N
  no_benchmark total_value total_pnl_pct = record {
    symbol = "VNINDEX";
    portfolio_value = total_value;
    benchmark_value = none;
    excess_value = none;
    portfolio_return_pct = total_pnl_pct;
    benchmark_return_pct = none;
    excess_return_pct = none;
  }

  unfoldable pub build_portfolio_response :
      {T : Type ℓ} → Runtime N → ResponseInput N T → Response N T
  unfolding sum_of to_holding allocation_map calculate_risk_metrics round
  build_portfolio_response runtime input =
      let total_value = sum_of (λ p. times p.quantity p.latest_price) (of_ℕ 0) input.positions in
      let total_cost = sum_of (λ p. times p.quantity p.average_cost) (of_ℕ 0) input.positions in
      let unrealized_pnl = minus total_value total_cost in
      let realized_pnl = or_default input.realized_pnl (of_ℕ 0) in
      let total_pnl = plus unrealized_pnl realized_pnl in
      let capital = or_default input.cumulative_buy_capital total_cost in
      let total_pnl_pct = percent_of total_pnl capital in
      let holdings = map (to_holding total_value) input.positions in
      let allocation = to_allocation total_value (allocation_map [] holdings) in
      record {
        portfolio_id = input.portfolio_id;
        portfolio_name = input.portfolio_name;
        base_currency = input.base_currency;
        total_value = round total_value 2;
        total_cost = round total_cost 2;
        unrealized_pnl = round unrealized_pnl 2;
        realized_pnl = round realized_pnl 2;
        total_pnl = round total_pnl 2;
        total_pnl_pct = round total_pnl_pct 4;
        cumulative_buy_capital = round capital 2;
        day_change_pct =
            round (day_change (from_end 2 input.performance) (from_end 1 input.performance)) 4;
        allocation = allocation;
        holdings = holdings;
        transactions = input.transactions;
        performance = input.performance;
        benchmark =
            or_default input.benchmark (no_benchmark (round total_value 2) (round total_pnl_pct 4));
        risk_metrics =
            calculate_risk_metrics runtime (round total_value 2) allocation input.performance;
        data_as_of = input.data_as_of;
        data_source = or_default input.data_source "local";
      }
