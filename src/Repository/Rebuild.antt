-- ===== src/Repository/Rebuild.antt =====
-- src/lib/backend/portfolio-repository.ts: rebuildPortfolioPositions, and the reading of the rows that
-- it needs.
use Prim.Native.String.{String}
use text.Mathlib.Text.{◌==◌}
use radar_asset.Base.{
  Option, none, some, Bool, not, ◌&&◌, ◌||◌, none, some, List, [], ◌∷◌, ◌++◌, map, if◌then◌else◌,
  Result, ok, err, ◌>>=◌, ◌>>◌, guard, required, find, keep, or_default, map_result,
}
use radar_asset.Base.Text.{text_lt}
use radar_asset.Base.Sort.{sort}
use radar_asset.Base.Assoc.{Dict, get, put}
use radar_asset.Base.Number.{Number, of_ℕ}
use radar_asset.Fx.{PortfolioCurrency, usd, vnd, ResolvedFxRate, convert_money, is_usable}
use radar_asset.Ledger.{
  AssetClass, crypto, equity, etf, index, fx, commodity, cash, TransactionType, buy, sell, Position,
  LedgerAsset, Transaction, ReplayResult, Sign, replay_portfolio_ledger,
}
use radar_asset.Performance.Bars.{date_key}
use radar_asset.Repository.State.{
  RepositoryError, type_unsupported, snapshot_invalid, asset_missing, of_ledger, of_fx, AssetRow,
  TransactionRow, PositionRow, Database,
}

-- An error that the called function throws goes through.
abbrev pub through {κ} :
    {E : Type 0} {A : Type κ} → (E → RepositoryError) → Result E A → Result RepositoryError A
through f (ok a) = ok a
through f (err e) = err (f e)

unfoldable pub assert_transaction_type : String → Result RepositoryError TransactionType
assert_transaction_type value =
    if value == "buy" then ok buy else if value == "sell" then ok sell else err type_unsupported

-- `assertAssetClass` of src/lib/backend/market-repository.ts.
unfoldable pub assert_asset_class : String → AssetClass
assert_asset_class value =
    if value == "crypto"
    then crypto
    else if value == "etf"
    then etf
    else if value == "index"
    then index
    else if value == "fx"
    then fx
    else if value == "commodity"
    then commodity
    else if value == "cash"
    then cash
    else equity

abbrev pub currency_code : PortfolioCurrency → String
currency_code usd = "USD"
currency_code vnd = "VND"

abbrev day_of : Option String → Option String
day_of none = none
day_of (some date) = some (date_key date)

module _ {ℓ} {N : Type ℓ} ⦃num : Number N⦄ where
  unfoldable pub transaction_snapshot : TransactionRow N → Result RepositoryError (ResolvedFxRate N)
  transaction_snapshot row = do
    guard (is_usable row.fx_rate_to_vnd) snapshot_invalid
    ok (record {
      effective_date = row.fx_effective_date;
      rate = row.fx_rate_to_vnd;
      source = or_default row.fx_source "fallback";
      fallback = row.fx_fallback;
    })

  unfoldable pub convert_at :
      N → String → PortfolioCurrency → ResolvedFxRate N → Result RepositoryError N
  unfolding convert_money
  convert_at value from to rate =
      through of_fx (convert_money value from (currency_code to) rate.rate)

  -- `portfolio.transactions.map`: a row as a transaction of the ledger, in the currency asked for. The
  -- foreign key promises that the asset is there.
  unfoldable pub to_ledger_transaction :
      PortfolioCurrency → List AssetRow → TransactionRow N → Result RepositoryError (Transaction N)
  unfolding find transaction_snapshot assert_transaction_type convert_at
  to_ledger_transaction target assets row = do
    asset ← required (find (λ a. a.id == row.asset_id) assets) asset_missing
    snapshot ← transaction_snapshot row
    kind ← assert_transaction_type row.kind
    price ← convert_at row.price row.currency target snapshot
    fee ← convert_at row.fee row.currency target snapshot
    ok (record {
      id = row.id;
      created_at = row.created_at;
      executed_at = row.executed_at;
      kind = kind;
      asset_id = row.asset_id;
      symbol = some asset.symbol;
      quantity = row.quantity;
      price = price;
      fee = fee;
      note = row.note;
      currency = some (currency_code target);
    })

  -- `for (const transaction of transactions) latestPrices.set(…)`.
  unfoldable pub latest_prices : Dict N → List (Transaction N) → Dict N
  unfolding put
  latest_prices m [] = m
  latest_prices m (t ∷ ts) = latest_prices (put t.asset_id t.price m) ts

  -- `new Map(rows.map((row) => [row.assetId, row.asset]))`.
  unfoldable pub assets_of_rows :
      Dict AssetRow → List AssetRow → List (TransactionRow N) → Dict AssetRow
  unfolding find put
  assets_of_rows m assets [] = m
  assets_of_rows m assets (row ∷ rows) =
      let rest = λ (m' : Dict AssetRow). assets_of_rows m' assets rows in
      elim (find (λ a. a.id == row.asset_id) assets) [
        | none ↦ rest m
        | some asset ↦ rest (put row.asset_id asset m)
      ]

  unfoldable pub to_ledger_asset : Dict N → PortfolioCurrency → String × AssetRow → LedgerAsset N
  unfolding get assert_asset_class
  to_ledger_asset prices target (asset_id, asset) = record {
    asset_id = asset_id;
    symbol = asset.symbol;
    name = asset.name;
    asset_class = assert_asset_class asset.asset_class;
    latest_price = or_default (get asset_id prices) (of_ℕ 0);
    currency = some (currency_code target);
  }

  -- `orderBy: [{ executedAt: "asc" }, { createdAt: "asc" }, { id: "asc" }]`.
  abbrev row_after : TransactionRow N → TransactionRow N → Bool
  row_after x y =
      text_lt y.executed_at x.executed_at
      || ((x.executed_at == y.executed_at)
          && (text_lt y.created_at x.created_at
              || ((x.created_at == y.created_at) && text_lt y.id x.id)))

  abbrev pub of_portfolio : String → TransactionRow N → Bool
  of_portfolio portfolio_id row = row.portfolio_id == portfolio_id

  unfoldable pub rows_of : String → List (TransactionRow N) → List (TransactionRow N)
  unfolding keep sort text_lt
  rows_of portfolio_id rows = sort row_after (keep (of_portfolio portfolio_id) rows)

  -- The replay of the rows of one portfolio, in VND.
  unfoldable pub replay_rows :
      (String → String → Sign)
      → List AssetRow
      → List (TransactionRow N)
      → Result RepositoryError (ReplayResult N)
  unfolding to_ledger_transaction latest_prices assets_of_rows to_ledger_asset
      replay_portfolio_ledger map_result
  replay_rows compare assets rows = do
    transactions ← map_result (to_ledger_transaction vnd assets) rows
    let prices = latest_prices [] transactions
    let ledger_assets = map (to_ledger_asset prices vnd) (assets_of_rows [] assets rows)
    through of_ledger (replay_portfolio_ledger compare ledger_assets transactions)

  abbrev pub to_position_row : String → Position N → PositionRow N
  to_position_row portfolio_id p = record {
    portfolio_id = portfolio_id;
    asset_id = p.asset_id;
    quantity = p.quantity;
    average_cost = p.average_cost;
  }

  abbrev pub is_position_of : String → PositionRow N → Bool
  is_position_of portfolio_id p = p.portfolio_id == portfolio_id

  -- `deleteMany`, then `createMany`.
  unfoldable pub replace_positions :
      String → List (Position N) → List (PositionRow N) → List (PositionRow N)
  unfolding keep
  replace_positions portfolio_id positions rows =
      keep (λ p. not (is_position_of portfolio_id p)) rows
      ++ map (to_position_row portfolio_id) positions

  unfoldable pub rebuild_portfolio_positions :
      (String → String → Sign) → String → Database N → Result RepositoryError (Database N)
  unfolding rows_of replay_rows replace_positions
  rebuild_portfolio_positions compare portfolio_id db = do
    ledger ← replay_rows compare db.assets (rows_of portfolio_id db.transactions)
    ok (record db { positions = replace_positions portfolio_id ledger.positions db.positions })
