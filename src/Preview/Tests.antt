-- ===== src/Preview/Tests.antt =====
-- Runs and witnesses of the preview.
use radar_asset.Base.{◌≡◌, refl, ◌↔◌, none, some, ok, err}
use radar_asset.Base.Int.{ℤ, pos, negsuc, ◌+ℤ◌, ◌-ℤ◌, ◌*ℤ◌}
use radar_asset.Base.Number.{whole_numbers}
use radar_asset.Fx.{vnd}
use radar_asset.Ledger.{
  TransactionType, buy, sell, crypto, Position, Transaction, apply_portfolio_transaction,
}
use radar_asset.Preview.{
  TransactionPreview, not_held, above_holding, quantity_not_positive, check_values,
  build_transaction_preview, transaction_currency_for_asset,
}
use radar_asset.Preview.Laws.{
  input_for, input_of, IsRealised, build_transaction_preview-IsRealised,
  build_transaction_preview-valid_iff,
}

abbrev held : Position ℤ
held = record {
  asset_id = "btc";
  symbol = "BTC";
  name = "Bitcoin";
  asset_class = crypto;
  quantity = pos 4;
  average_cost = pos 10;
  latest_price = pos 12;
  currency = none;
}

abbrev trade : TransactionType → ℤ → ℤ → Transaction ℤ
trade kind quantity price = record {
  id = "1";
  created_at = "2026-01-01";
  executed_at = "2026-01-01";
  kind = kind;
  asset_id = "btc";
  symbol = none;
  quantity = quantity;
  price = price;
  fee = pos 4;
  note = none;
  currency = none;
}

abbrev shown : TransactionPreview ℤ
shown = record {
  total = pos 60;
  projected_quantity = pos 8;
  projected_average_cost = pos 12;
  realized_pnl = pos 0;
}

runs :
    (build_transaction_preview (input_of held (trade buy (pos 4) (pos 14))) ≡ ok shown)
    × (build_transaction_preview (input_of held (trade sell (pos 5) (pos 14))) ≡ err above_holding)
    × (build_transaction_preview (input_for none (trade sell (pos 5) (pos 14))) ≡ err not_held)
    × (build_transaction_preview (input_of held (trade buy (negsuc 0) (pos 14)))
        ≡ err quantity_not_positive)
    × (transaction_currency_for_asset "crypto" " vnd" ≡ vnd)
unfolding build_transaction_preview transaction_currency_for_asset ◌+ℤ◌ ◌-ℤ◌ ◌*ℤ◌
runs = (refl, refl, refl, refl, refl)

build_transaction_preview-IsRealised_example :
    (next : Position ℤ) × (apply_portfolio_transaction (some held) (trade buy (pos 4) (pos 14))
      ≡ ok next)
    × IsRealised shown next
unfolding ◌+ℤ◌ ◌*ℤ◌
build_transaction_preview-IsRealised_example =
    build_transaction_preview-IsRealised held (trade buy (pos 4) (pos 14)) refl runs.0

build_transaction_preview-valid_iff_example :
    ((v : TransactionPreview ℤ) × (build_transaction_preview
          (input_for (some held) (trade sell (pos 3) (pos 14)))
        ≡ ok v))
    ↔ ((check_values (input_for (some held) (trade sell (pos 3) (pos 14))) ≡ ok tt)
        × ((next : Position ℤ) × (apply_portfolio_transaction
                (some held)
                (trade sell (pos 3) (pos 14))
              ≡ ok next)))
build_transaction_preview-valid_iff_example =
    build_transaction_preview-valid_iff (some held) (trade sell (pos 3) (pos 14))
