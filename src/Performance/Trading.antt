-- ===== src/Performance/Trading.antt =====
-- The transactions of a day in src/lib/backend/portfolio.ts, buildPortfolioPerformance.
use Prim.Native.String.{String, [], ◌∷◌}
use radar_asset.Base.{Bool, not, List, [], ◌∷◌, if◌then◌else◌, Result, ok, ◌>>=◌, required}
use radar_asset.Base.Text.{text_lt}
use radar_asset.Base.Assoc.{Dict, get}
use radar_asset.Base.Number.{Number, of_ℕ}
use radar_asset.Ledger.{
  TransactionType, buy, sell, LedgerError, asset_metadata_missing, Position, LedgerAsset,
  Transaction, gross_amount, apply_portfolio_transaction, store_position,
}
use radar_asset.Performance.State.{Trading}
use radar_asset.Performance.Bars.{date_key}

module _ {ℓ} {N : Type ℓ} ⦃num : Number N⦄ where
  open num use {plus, minus, times, over, negate, lt, le, same, minimum}

  abbrev pub external_flow : TransactionType → Transaction N → N
  external_flow buy t = plus (gross_amount t) t.fee
  external_flow sell t = negate (minus (gross_amount t) t.fee)

  unfoldable pub labelled : LedgerAsset N → Position N → Position N
  labelled asset next = record next {
    symbol = asset.symbol;
    name = asset.name;
    asset_class = asset.asset_class;
    latest_price = asset.latest_price;
  }

  -- What a transaction changes, given the position after it.
  unfoldable pub book : Position N → Transaction N → Trading N → Trading N
  unfolding store_position
  book next t s =
      let flow = external_flow t.kind t in
      record {
        positions = store_position next t s.positions;
        pending_portfolio_flow = plus s.pending_portfolio_flow flow;
        pending_benchmark_flow = plus s.pending_benchmark_flow flow;
        total_contributions =
            if lt (of_ℕ 0) flow then plus s.total_contributions flow else s.total_contributions;
        total_withdrawals =
            if lt (of_ℕ 0) flow
            then s.total_withdrawals
            else plus s.total_withdrawals (negate flow);
      }

  -- One round of the loop over the transactions of a day.
  unfoldable pub trade_step :
      Dict (LedgerAsset N) → Trading N → Transaction N → Result LedgerError (Trading N)
  unfolding get apply_portfolio_transaction labelled book
  trade_step assets s t = do
    asset ← required (get t.asset_id assets) asset_metadata_missing
    next ← apply_portfolio_transaction (get t.asset_id s.positions) t
    ok (book (labelled asset next) t s)

  abbrev pub is_due : String → Transaction N → Bool
  is_due key t = not (text_lt key (date_key t.executed_at))

  -- The transactions dated on or before the day; the rest of them is returned.
  unfoldable pub trade_loop :
      Dict (LedgerAsset N)
      → String
      → Trading N
      → List (Transaction N)
      → Result LedgerError (Trading N × List (Transaction N))
  unfolding trade_step text_lt date_key
  trade_loop assets key s [] = ok (s, [])
  trade_loop assets key s (t ∷ ts) =
      let rest = (do next ← trade_step assets s t; trade_loop assets key next ts) in
      if is_due key t then rest else ok (s, t ∷ ts)
