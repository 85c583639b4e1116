-- ===== src/Repository/Load.antt =====
-- src/lib/backend/portfolio-repository.ts: loadPortfolioResponse. The two queries of bars are parameters.
use Prim.Native.String.{String}
use text.Mathlib.Text.{◌==◌}
use mathlib.Core.List.{reverse}
use radar_asset.Base.{
  Option, none, some, List, [], ◌∷◌, map, length, take, get_elem?, Result, ok, ◌>>=◌, required,
  find, keep, any, or_default, map_result,
}
use radar_asset.Base.Int.{pos}
use radar_asset.Base.Text.{text_lt}
use radar_asset.Base.Sort.{sort}
use radar_asset.Base.Assoc.{Dict, get, put}
use radar_asset.Base.Number.{Number, of_ℕ}
use radar_asset.Fx.{PortfolioCurrency, ResolvedFxRate, normalize_currency}
use radar_asset.Ledger.{
  LedgerAsset, Transaction, ReplayedTransaction, ReplayResult, Sign, replay_portfolio_ledger,
}
use radar_asset.Performance.State.{HistoricalBar, PerformancePoint, Performance, PerformanceInput}
use radar_asset.Performance.Bars.{date_key}
use radar_asset.Performance.Build.{build_portfolio_performance}
use radar_asset.Response.State.{Runtime, Response, ResponseInput}
use radar_asset.Response.Build.{build_portfolio_response}
use radar_asset.Access.{TenantContext}
use radar_asset.Repository.State.{
  RepositoryError, portfolio_not_found, of_ledger, of_fx, PortfolioRow, AssetRow, TransactionRow,
  Database,
}
use radar_asset.Repository.Rebuild.{
  through, assert_asset_class, currency_code, transaction_snapshot, to_ledger_transaction,
  latest_prices, assets_of_rows, rows_of,
}
use radar_asset.Repository.Operations.{portfolio_of}
use radar_asset.Repository.Bars.{
  ChartTimeframe, performance_limit_for_history, RawBar, BarQueries, distinct_ids, benchmark_of,
  with_benchmark, benchmark_id, add_benchmark, rate_points, prefer_active_dataset_bars,
  to_converted_bar, latest_bars,
}

-- What the response keeps of a stored transaction beside its replay.
pub record RawMetadata {ℓ} (N : Type ℓ) : Type ℓ where
  pub raw_price : N
  pub raw_fee : N
  pub raw_currency : PortfolioCurrency
  pub snapshot : ResolvedFxRate N

module _ {ℓ} {N : Type ℓ} ⦃num : Number N⦄ where
  -- One round of `portfolio.transactions.map`, with the metadata that it sets.
  unfoldable pub to_response_transaction :
      PortfolioCurrency
      → List AssetRow
      → TransactionRow N
      → Result RepositoryError (Transaction N × RawMetadata N)
  unfolding transaction_snapshot normalize_currency to_ledger_transaction
  to_response_transaction target assets row = do
    snapshot ← transaction_snapshot row
    currency ← through of_fx (normalize_currency row.currency)
    t ← to_ledger_transaction target assets row
    ok (
      t,
      record {
        raw_price = row.price;
        raw_fee = row.fee;
        raw_currency = currency;
        snapshot = snapshot;
      },
    )

  unfoldable pub metadata_of :
      Dict (RawMetadata N) → List (Transaction N × RawMetadata N) → Dict (RawMetadata N)
  unfolding put
  metadata_of m [] = m
  metadata_of m ((t, raw) ∷ rest) = metadata_of (put t.id raw m) rest

  unfoldable pub to_priced_asset :
      Dict N → Dict N → PortfolioCurrency → String × AssetRow → LedgerAsset N
  unfolding get assert_asset_class
  to_priced_asset bars prices target (asset_id, asset) = record {
    asset_id = asset_id;
    symbol = asset.symbol;
    name = asset.name;
    asset_class = assert_asset_class asset.asset_class;
    latest_price = or_default (get asset_id bars) (or_default (get asset_id prices) (of_ℕ 0));
    currency = some (currency_code target);
  }

  abbrev as_of : List (RawBar N) → Option (RawBar N)
  as_of bars = get_elem? (sort (λ x y. text_lt x.ts y.ts) bars) 0

  abbrev as_of_ts : Option (RawBar N) → Option String
  as_of_ts none = none
  as_of_ts (some bar) = some bar.ts

  abbrev as_of_source : Option (RawBar N) → Option String
  as_of_source none = some "local"
  as_of_source (some bar) = some (or_default bar.source "local")

  abbrev pub ids_of : List (TransactionRow N) → List String
  ids_of rows = distinct_ids [] (map (λ r. r.asset_id) rows)

  -- The bars of the traded assets and of the benchmark, as they are stored.
  unfoldable pub raw_price_bars :
      (String → String → Sign)
      → BarQueries N
      → List AssetRow
      → List (TransactionRow N)
      → List (RawBar N)
  unfolding distinct_ids find prefer_active_dataset_bars
  raw_price_bars compare queries assets rows =
      let ids = distinct_ids [] (with_benchmark (benchmark_of assets) (ids_of rows)) in
      prefer_active_dataset_bars compare (queries.dataset_bars ids) (queries.market_bars ids)

  unfoldable pub asset_rows : List AssetRow → List (TransactionRow N) → Dict AssetRow
  unfolding find assets_of_rows get put
  asset_rows assets rows = add_benchmark (benchmark_of assets) (assets_of_rows [] assets rows)

  unfoldable pub priced_assets :
      PortfolioCurrency
      → List AssetRow
      → List (TransactionRow N)
      → List (HistoricalBar N)
      → List (Transaction N)
      → List (LedgerAsset N)
  unfolding asset_rows latest_bars latest_prices keep any to_priced_asset distinct_ids
  priced_assets target assets rows bars transactions =
      map (to_priced_asset (latest_bars [] bars) (latest_prices [] transactions) target)
        (keep (λ e. any (λ id. id == e.0) (ids_of rows)) (asset_rows assets rows))

  unfoldable pub performance_input :
      ChartTimeframe
      → List AssetRow
      → List (LedgerAsset N)
      → List (Transaction N)
      → List (HistoricalBar N)
      → PerformanceInput N
  unfolding distinct_ids find date_key
  performance_input timeframe rows assets transactions bars = record {
    assets = assets;
    transactions = transactions;
    bars = bars;
    benchmark_asset_id = benchmark_id (benchmark_of rows);
    limit = pos (
        performance_limit_for_history timeframe
          (length (distinct_ids [] (map (λ b. date_key b.ts) bars))));
  }

  -- The last 100 transactions of the replay, the newest first, with their metadata.
  unfoldable pub shown_transactions :
      List (Transaction N × RawMetadata N)
      → List (ReplayedTransaction N)
      → List (ReplayedTransaction N × Option (RawMetadata N))
  unfolding metadata_of get
  shown_transactions pairs replayed =
      take 100 (reverse (map (λ t. (t, get t.source.id (metadata_of [] pairs))) replayed))

  unfoldable pub response_input :
      PortfolioCurrency
      → PortfolioRow
      → List (RawBar N)
      → List (Transaction N × RawMetadata N)
      → ReplayResult N
      → Performance N
      → ResponseInput N (ReplayedTransaction N × Option (RawMetadata N))
  unfolding sort text_lt shown_transactions
  response_input target portfolio raw_bars pairs ledger performance =
      let latest = as_of raw_bars in
      record {
        portfolio_id = portfolio.id;
        portfolio_name = portfolio.name;
        base_currency = currency_code target;
        positions = ledger.positions;
        transactions = shown_transactions pairs ledger.transactions;
        performance = performance.performance;
        benchmark = some performance.benchmark;
        realized_pnl = some ledger.realized_pnl;
        cumulative_buy_capital = some ledger.cumulative_buy_capital;
        data_as_of = as_of_ts latest;
        data_source = as_of_source latest;
      }

  unfoldable pub response_of_portfolio :
      (String → String → Sign)
      → (String → String)
      → Runtime N
      → BarQueries N
      → ChartTimeframe
      → PortfolioCurrency
      → PortfolioRow
      → Database N
      → Result RepositoryError (Response N (ReplayedTransaction N × Option (RawMetadata N)))
  unfolding rows_of raw_price_bars asset_rows rate_points map_result to_converted_bar
      to_response_transaction priced_assets replay_portfolio_ledger performance_input
      build_portfolio_performance build_portfolio_response response_input
  response_of_portfolio compare label runtime queries timeframe target portfolio db = do
    let rows = rows_of portfolio.id db.transactions
    let raw_bars = raw_price_bars compare queries db.assets rows
    bars ←
        map_result (to_converted_bar target (asset_rows db.assets rows) (rate_points db.fx_rates))
          raw_bars
    pairs ← map_result (to_response_transaction target db.assets) rows
    let transactions = map (λ p. p.0) pairs
    let assets = priced_assets target db.assets rows bars transactions
    ledger ← through of_ledger (replay_portfolio_ledger compare assets transactions)
    performance ← through of_ledger (
        build_portfolio_performance compare label
          (performance_input timeframe db.assets assets transactions bars))
    ok (
        build_portfolio_response runtime
          (response_input target portfolio raw_bars pairs ledger performance))

  unfoldable pub load_portfolio_response :
      (String → String → Sign)
      → (String → String)
      → Runtime N
      → BarQueries N
      → TenantContext
      → ChartTimeframe
      → PortfolioCurrency
      → Database N
      → Result RepositoryError (Response N (ReplayedTransaction N × Option (RawMetadata N)))
  unfolding portfolio_of response_of_portfolio
  load_portfolio_response compare label runtime queries context timeframe target db = do
    portfolio ← required (portfolio_of context.organization_id db.portfolios) portfolio_not_found
    response_of_portfolio compare label runtime queries timeframe target portfolio db

  unfoldable pub load_portfolio_performance :
      (String → String → Sign)
      → (String → String)
      → Runtime N
      → BarQueries N
      → TenantContext
      → ChartTimeframe
      → PortfolioCurrency
      → Database N
      → Result RepositoryError (List (PerformancePoint N))
  unfolding load_portfolio_response
  load_portfolio_performance compare label runtime queries context timeframe target db = do
    response ← load_portfolio_response compare label runtime queries context timeframe target db
    ok response.performance
