-- ===== src/Repository/Bars.antt =====
-- src/lib/backend/portfolio-repository.ts: the timeframes and the price bars of a response, and
-- preferActiveDatasetBars of src/lib/backend/market-repository.ts.
use Prim.Native.String.{String}
use text.Mathlib.Text.{◌==◌}
use radar_asset.Base.{
  ℕ, Bool, true, false, not, ◌&&◌, ◌||◌, Option, none, some, List, [], ◌∷◌, ◌++◌, map,
  if◌then◌else◌, Result, ok, ◌>>=◌, required, find, keep, any,
}
use radar_asset.Base.Text.{text_lt}
use radar_asset.Base.Sort.{sort}
use radar_asset.Base.Assoc.{Dict, get, put}
use radar_asset.Base.Number.{Number, of_ℕ}
use radar_asset.Fx.{PortfolioCurrency, usd, vnd, FxRatePoint, select_rate_on_or_before}
use radar_asset.Ledger.{Sign, positive, zero_sign, negative}
use radar_asset.Performance.State.{HistoricalBar}
use radar_asset.Performance.Bars.{date_key}
use radar_asset.Repository.State.{RepositoryError, asset_missing, of_fx, AssetRow, FxRow}
use radar_asset.Repository.Rebuild.{through, convert_at}

pub data ChartTimeframe : Type 0 where
  one_week one_month year_to_date one_year all_history : ChartTimeframe

-- `historyDayCount` is a count, so of `Math.max(0, Math.floor(…))` nothing is left.
abbrev pub performance_limit_for_history : ChartTimeframe → ℕ → ℕ
performance_limit_for_history all_history days = days
performance_limit_for_history one_week days = 7
performance_limit_for_history one_month days = 30
performance_limit_for_history year_to_date days = 90
performance_limit_for_history one_year days = 252

abbrev timeframe_named : String → ChartTimeframe
timeframe_named value =
    if value == "1W"
    then one_week
    else if value == "YTD"
    then year_to_date
    else if value == "1Y"
    then one_year
    else one_month

unfoldable pub normalize_portfolio_timeframe : Option String → ChartTimeframe
normalize_portfolio_timeframe none = one_month
normalize_portfolio_timeframe (some value) = timeframe_named value

unfoldable pub normalize_portfolio_chart_timeframe : Option String → ChartTimeframe
unfolding normalize_portfolio_timeframe
normalize_portfolio_chart_timeframe none = all_history
normalize_portfolio_chart_timeframe (some value) =
    if value == "ALL" then all_history else normalize_portfolio_timeframe (some value)

unfoldable pub normalize_reporting_currency : Option String → PortfolioCurrency
normalize_reporting_currency none = usd
normalize_reporting_currency (some value) = if value == "VND" then vnd else usd

pub record RawBar {ℓ} (N : Type ℓ) : Type ℓ where
  pub asset_id : String
  pub ts : String
  pub close : N
  pub source : Option String

-- The queries of the active datasets' bars and of the market bars, for the ids of assets.
pub record BarQueries {ℓ} (N : Type ℓ) : Type ℓ where
  pub dataset_bars : List String → List (RawBar N)
  pub market_bars : List String → List (RawBar N)

-- `Array.from(new Set(ids))`.
unfoldable pub distinct_ids : List String → List String → List String
unfolding any
distinct_ids seen [] = []
distinct_ids seen (x ∷ xs) =
    let rest = distinct_ids (x ∷ seen) xs in if any (λ y. y == x) seen then rest else x ∷ rest

abbrev pub benchmark_of : List AssetRow → Option AssetRow
benchmark_of assets = find (λ a. a.symbol == "VNINDEX") assets

abbrev pub with_benchmark : Option AssetRow → List String → List String
with_benchmark none ids = ids
with_benchmark (some b) ids = ids ++ b.id ∷ []

abbrev pub benchmark_id : Option AssetRow → Option String
benchmark_id none = none
benchmark_id (some b) = some b.id

-- `if (benchmark && !assetRows.has(benchmark.id)) assetRows.set(…)`.
abbrev pub add_benchmark : Option AssetRow → Dict AssetRow → Dict AssetRow
add_benchmark none m = m
add_benchmark (some b) m = elim (get b.id m) [ none ↦ put b.id b m | some a ↦ m ]

module _ {ℓ} {N : Type ℓ} ⦃num : Number N⦄ where
  abbrev pub normalize_native_asset_price : AssetRow → N → N
  normalize_native_asset_price asset value =
      if (asset.market == "vn_equity")
        && ((asset.asset_class == "equity") && (asset.currency == "VND"))
      then num.times value (of_ℕ 1_000)
      else value

  abbrev rate_point : FxRow N → FxRatePoint N
  rate_point row = record {
    effective_date = date_key row.effective_date;
    rate = row.mid;
    source = row.source;
  }

  -- `orderBy: [{ effectiveDate: "asc" }, { fetchedAt: "asc" }]`, then `ratePoints`.
  unfoldable pub rate_points : List (FxRow N) → List (FxRatePoint N)
  unfolding sort text_lt date_key
  rate_points rows = map rate_point (
      sort
        (λ x y.
          text_lt y.effective_date x.effective_date
          || ((x.effective_date == y.effective_date) && text_lt y.fetched_at x.fetched_at))
        rows)

  abbrev bar_after : (String → String → Sign) → RawBar N → RawBar N → Bool
  bar_after compare x y = elim (compare x.asset_id y.asset_id) [
    | positive ↦ true
    | negative ↦ false
    | zero_sign ↦ text_lt y.ts x.ts
  ]

  unfoldable pub prefer_active_dataset_bars :
      (String → String → Sign) → List (RawBar N) → List (RawBar N) → List (RawBar N)
  unfolding sort keep any text_lt
  prefer_active_dataset_bars compare [] market = market
  prefer_active_dataset_bars compare (d ∷ ds) market =
      sort (bar_after compare)
        ((d ∷ ds) ++ keep (λ b. not (any (λ x. x.asset_id == b.asset_id) (d ∷ ds))) market)

  unfoldable pub to_converted_bar :
      PortfolioCurrency
      → Dict AssetRow
      → List (FxRatePoint N)
      → RawBar N
      → Result RepositoryError (HistoricalBar N)
  unfolding get convert_at select_rate_on_or_before date_key
  to_converted_bar target assets fx bar = do
    asset ← required (get bar.asset_id assets) asset_missing
    rate ← through of_fx (select_rate_on_or_before fx (date_key bar.ts))
    close ← convert_at (normalize_native_asset_price asset bar.close) asset.currency target rate
    ok (record { asset_id = bar.asset_id; ts = bar.ts; close = close })

  unfoldable pub latest_bars : Dict N → List (HistoricalBar N) → Dict N
  unfolding put
  latest_bars m [] = m
  latest_bars m (b ∷ bars) = latest_bars (put b.asset_id b.close m) bars
