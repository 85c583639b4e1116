-- ===== src/Ledger/Tests.antt =====
-- Runs and witnesses of the ledger.
use Prim.Native.String.{String}
use mathlib.Core.List.{Memᴰ, Perm}
use radar_asset.Base.{◌≡◌, refl, ◌⊎◌, true, All, find, keep, none, some, List, [], ◌∷◌, ok, err}
use radar_asset.Base.Assoc.{get}
use radar_asset.Base.Sort.{IsSorted}
use radar_asset.Base.Int.{ℤ, pos, negsuc, ◌+ℤ◌, ◌-ℤ◌, ◌*ℤ◌}
use radar_asset.Base.Number.{whole_numbers}
use radar_asset.Ledger.{
  TransactionType, buy, sell, crypto, asset_metadata_missing, insufficient_quantity, Position,
  LedgerAsset, Transaction, ReplayedTransaction, ReplayResult, asset_map, in_ledger_order,
  replay_portfolio_ledger, round,
}
use radar_asset.Ledger.Order.{by_code_points, by_code_points-IsComparison}
use radar_asset.Ledger.Steps.{is_open}
use radar_asset.Ledger.Replay.{
  asset_history, of_asset, HasDistinctAssets, replay_portfolio_ledger-history,
  replay_portfolio_ledger-valid,
}
use radar_asset.Ledger.Totals.{
  is_after, buy_capital, replay_portfolio_ledger-order, replay_portfolio_ledger-capital,
}
use radar_asset.Ledger.Failures.{
  IsOverdraw, replay_portfolio_ledger-fails, replay_portfolio_ledger-errors,
}

abbrev asset : String → LedgerAsset ℤ
asset id = record {
  asset_id = id;
  symbol = id;
  name = id;
  asset_class = crypto;
  latest_price = pos 25;
  currency = some "USD";
}

abbrev trade : String → String → TransactionType → String → ℤ → ℤ → ℤ → Transaction ℤ
trade id day kind asset_id quantity price fee = record {
  id = id;
  created_at = day;
  executed_at = day;
  kind = kind;
  asset_id = asset_id;
  symbol = none;
  quantity = quantity;
  price = price;
  fee = fee;
  note = none;
  currency = none;
}

abbrev known : List (LedgerAsset ℤ)
known = asset "btc" ∷ asset "eth" ∷ []

abbrev bought_btc : Transaction ℤ
bought_btc = trade "1" "2026-01-01" buy "btc" (pos 3) (pos 10) (pos 0)

abbrev sold_btc : Transaction ℤ
sold_btc = trade "2" "2026-01-03" sell "btc" (pos 1) (pos 20) (pos 2)

abbrev bought_eth : Transaction ℤ
bought_eth = trade "3" "2026-01-02" buy "eth" (pos 2) (pos 5) (pos 2)

abbrev ledger : List (Transaction ℤ)
ledger = sold_btc ∷ bought_eth ∷ bought_btc ∷ []

abbrev held : String → ℤ → ℤ → Position ℤ
held id quantity cost = record {
  asset_id = id;
  symbol = id;
  name = id;
  asset_class = crypto;
  quantity = quantity;
  average_cost = cost;
  latest_price = pos 25;
  currency = some "USD";
}

abbrev recorded : Transaction ℤ → ℤ → ℤ → ℤ → ℤ → ℤ → ReplayedTransaction ℤ
recorded t gross net basis gain left = record {
  source = t;
  currency = some "USD";
  gross_amount = gross;
  net_amount = net;
  released_cost_basis = basis;
  realized_pnl = gain;
  remaining_quantity = left;
}

abbrev replayed : ReplayResult ℤ
replayed = record {
  positions = held "btc" (pos 2) (pos 10) ∷ held "eth" (pos 2) (pos 6) ∷ [];
  transactions =
      recorded bought_btc (pos 30) (negsuc 29) (pos 0) (pos 0) (pos 3)
      ∷ recorded bought_eth (pos 10) (negsuc 11) (pos 0) (pos 0) (pos 2)
      ∷ recorded sold_btc (pos 20) (pos 18) (pos 10) (pos 8) (pos 2)
      ∷ [];
  realized_pnl = pos 8;
  cumulative_buy_capital = pos 42;
}

-- The same ledger with a sale of more than is held on its day.
abbrev overdrawn : List (Transaction ℤ)
overdrawn = trade "4" "2026-01-02" sell "btc" (pos 4) (pos 20) (pos 0) ∷ ledger

runs :
    (replay_portfolio_ledger by_code_points known ledger ≡ ok replayed)
    × (replay_portfolio_ledger by_code_points known overdrawn ≡ err insufficient_quantity)
    × (replay_portfolio_ledger by_code_points (asset "btc" ∷ []) ledger
        ≡ err asset_metadata_missing)
unfolding replay_portfolio_ledger round ◌+ℤ◌ ◌-ℤ◌ ◌*ℤ◌ by_code_points
runs = (refl, refl, refl)

replay_portfolio_ledger-history_example :
    asset_history (asset "btc") none (bought_btc ∷ sold_btc ∷ [])
    ≡ ok (some (held "btc" (pos 2) (pos 10)))
unfolding in_ledger_order by_code_points keep get asset_map find
replay_portfolio_ledger-history_example =
    replay_portfolio_ledger-history by_code_points known ledger "btc" refl runs.0

replay_portfolio_ledger-valid_example :
    HasDistinctAssets replayed.positions × All (λ p. is_open p.quantity ≡ true) replayed.positions
replay_portfolio_ledger-valid_example =
    replay_portfolio_ledger-valid by_code_points known ledger runs.0

replay_portfolio_ledger-order_example :
    Perm (bought_btc ∷ bought_eth ∷ sold_btc ∷ []) ledger
    × IsSorted (is_after by_code_points) (bought_btc ∷ bought_eth ∷ sold_btc ∷ [])
replay_portfolio_ledger-order_example =
    replay_portfolio_ledger-order by_code_points known ledger by_code_points-IsComparison runs.0

replay_portfolio_ledger-capital_example :
    pos 42 ≡ round (buy_capital (pos 0) (in_ledger_order by_code_points ledger)) 8
replay_portfolio_ledger-capital_example =
    replay_portfolio_ledger-capital by_code_points known ledger runs.0

replay_portfolio_ledger-fails_example :
    ((t : Transaction ℤ) × Memᴰ t (in_ledger_order by_code_points overdrawn)
      × (get t.asset_id (asset_map [] known) ≡ none)
      × (insufficient_quantity ≡ asset_metadata_missing))
    ⊎ ((k : String) × (a : LedgerAsset ℤ) × (get k (asset_map [] known) ≡ some a)
        × (asset_history a none (keep (of_asset k) (in_ledger_order by_code_points overdrawn))
            ≡ err insufficient_quantity))
replay_portfolio_ledger-fails_example =
    replay_portfolio_ledger-fails by_code_points known overdrawn runs.1

replay_portfolio_ledger-errors_example :
    (insufficient_quantity ≡ asset_metadata_missing) ⊎ IsOverdraw insufficient_quantity
replay_portfolio_ledger-errors_example =
    replay_portfolio_ledger-errors by_code_points known overdrawn runs.1
