-- ===== src/Preview.antt =====
-- src/lib/portfolio-transaction-preview.ts: the check of the values that a user has typed in, and the
-- preview of the trade. The formatting of dates and prices is left out.
pub mod Laws
mod Tests
use Prim.Native.String.{String}
use radar_asset.Base.{
  Bool, true, false, not, ◌&&◌, ◌||◌, Option, none, some, if◌then◌else◌, Result, ok, err, ◌>>=◌,
  ◌>>◌, guard, required,
}
use radar_asset.Base.Words.{word_eq, codes, normalize_word}
use radar_asset.Base.Number.{Number, of_ℕ}
use radar_asset.Fx.{PortfolioCurrency, usd, vnd}
use radar_asset.Ledger.{TransactionType, buy, sell}

pub record Holding {ℓ} (N : Type ℓ) : Type ℓ where
  pub qty : N
  pub cost : N

pub record PreviewInput {ℓ} (N : Type ℓ) : Type ℓ where
  pub side : TransactionType
  pub quantity : N
  pub price : N
  pub fee : N
  pub holding : Option (Holding N)

-- The messages of the preview, by what they say.
pub data PreviewError : Type 0 where
  quantity_not_positive price_not_positive fee_negative not_held above_holding : PreviewError

pub record TransactionPreview {ℓ} (N : Type ℓ) : Type ℓ where
  pub total : N
  pub projected_quantity : N
  pub projected_average_cost : N
  pub realized_pnl : N

unfoldable pub transaction_currency_for_asset : String → String → PortfolioCurrency
unfolding word_eq normalize_word
transaction_currency_for_asset asset_class currency =
    if word_eq (normalize_word (codes currency)) (codes "VND")
      || word_eq (codes asset_class) (codes "vn_equity")
    then vnd
    else usd

unfoldable pub is_sell_selection_disabled : Bool → Bool → Bool
is_sell_selection_disabled is_backdated has_no_holdings = not is_backdated && has_no_holdings

module _ {ℓ} {N : Type ℓ} ⦃num : Number N⦄ where
  open num use {plus, minus, times, over, lt, le, same, is_finite}

  unfoldable pub check_values : PreviewInput N → Result PreviewError (Unit {0})
  check_values input = do
    guard (not (not (is_finite input.quantity) || le input.quantity (of_ℕ 0))) quantity_not_positive
    guard (not (not (is_finite input.price) || le input.price (of_ℕ 0))) price_not_positive
    guard (not (not (is_finite input.fee) || lt input.fee (of_ℕ 0))) fee_negative
    ok tt

  abbrev pub held_quantity : Option (Holding N) → N
  held_quantity none = of_ℕ 0
  held_quantity (some h) = h.qty

  abbrev pub held_cost : Option (Holding N) → N
  held_cost none = of_ℕ 0
  held_cost (some h) = h.cost

  unfoldable pub preview_buy : PreviewInput N → TransactionPreview N
  preview_buy input =
      let current_quantity = held_quantity input.holding in
      let projected = plus current_quantity input.quantity in
      let total = plus (times input.quantity input.price) input.fee in
      record {
        total = total;
        projected_quantity = projected;
        projected_average_cost =
            over (plus (times current_quantity (held_cost input.holding)) total) projected;
        realized_pnl = of_ℕ 0;
      }

  unfoldable pub preview_sell : PreviewInput N → Holding N → TransactionPreview N
  preview_sell input h =
      let projected = minus h.qty input.quantity in
      let total = minus (times input.quantity input.price) input.fee in
      record {
        total = total;
        projected_quantity = projected;
        projected_average_cost = if same projected (of_ℕ 0) then of_ℕ 0 else h.cost;
        realized_pnl = minus total (times input.quantity h.cost);
      }

  abbrev pub preview_side :
      TransactionType → PreviewInput N → Result PreviewError (TransactionPreview N)
  preview_side buy input = ok (preview_buy input)
  preview_side sell input = do
    h ← required input.holding not_held
    guard (not (lt h.qty input.quantity)) above_holding
    ok (preview_sell input h)

  unfoldable pub build_transaction_preview :
      PreviewInput N → Result PreviewError (TransactionPreview N)
  unfolding check_values preview_buy preview_sell
  build_transaction_preview input = do check_values input; preview_side input.side input
