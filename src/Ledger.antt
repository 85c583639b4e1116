-- ===== src/Ledger.antt =====
-- src/lib/backend/portfolio.ts, the ledger: rounding, one transaction on a position, and the replay of
-- a whole ledger. Amounts are of an abstract `Number`. `localeCompare` is a parameter, since its order
-- depends on the locale. A thrown error is a `LedgerError`; its message is left out.
pub mod Steps
pub mod Replay
pub mod Failures
pub mod Totals
pub mod Order
pub mod Support
pub mod Quantities
mod Tests
use Prim.Native.String.{String}
use text.Mathlib.Text.{◌==◌}
use radar_asset.Base.{
  ℕ, ◌^◌, Bool, true, false, not, ◌&&◌, ◌||◌, Option, none, some, List, [], ◌∷◌, ◌++◌,
  if◌then◌else◌, Result, ok, err, ◌>>=◌, ◌>>◌, guard, required,
}
use radar_asset.Base.Sort.{sort}
use radar_asset.Base.Assoc.{Dict, get, put, remove, values}
use radar_asset.Base.Number.{Number, of_ℕ}

pub data AssetClass : Type 0 where
  crypto equity etf index fx commodity cash : AssetClass

pub data TransactionType : Type 0 where
  buy sell : TransactionType

pub data LedgerError : Type 0 where
  asset_metadata_missing position_not_found insufficient_quantity : LedgerError
  sell_without_position sell_above_position : LedgerError

pub record Position {ℓ} (N : Type ℓ) : Type ℓ where
  pub asset_id : String
  pub symbol : String
  pub name : String
  pub asset_class : AssetClass
  pub quantity : N
  pub average_cost : N
  pub latest_price : N
  pub currency : Option String

pub record LedgerAsset {ℓ} (N : Type ℓ) : Type ℓ where
  pub asset_id : String
  pub symbol : String
  pub name : String
  pub asset_class : AssetClass
  pub latest_price : N
  pub currency : Option String

pub record Transaction {ℓ} (N : Type ℓ) : Type ℓ where
  pub id : String
  pub created_at : String
  pub executed_at : String
  pub kind : TransactionType
  pub asset_id : String
  pub symbol : Option String
  pub quantity : N
  pub price : N
  pub fee : N
  pub note : Option String
  pub currency : Option String

-- `PortfolioTransactionResponse`, as far as the replay fills it.
pub record ReplayedTransaction {ℓ} (N : Type ℓ) : Type ℓ where
  pub source : Transaction N
  pub currency : Option String
  pub gross_amount : N
  pub net_amount : N
  pub released_cost_basis : N
  pub realized_pnl : N
  pub remaining_quantity : N

pub record ReplayResult {ℓ} (N : Type ℓ) : Type ℓ where
  pub positions : List (Position N)
  pub transactions : List (ReplayedTransaction N)
  pub realized_pnl : N
  pub cumulative_buy_capital : N

-- The variables that the loop of the replay changes.
pub record ReplayState {ℓ} (N : Type ℓ) : Type ℓ where
  pub positions : Dict (Position N)
  pub transactions : List (ReplayedTransaction N)
  pub realized_pnl : N
  pub cumulative_buy_capital : N

-- The sign of `left.localeCompare(right)`.
pub data Sign : Type 0 where
  negative zero_sign positive : Sign

-- `||` on the results of comparisons.
abbrev pub or_sign : Sign → Sign → Sign
or_sign zero_sign s = s
or_sign s _ = s

abbrev pub is_positive : Sign → Bool
is_positive positive = true
is_positive _ = false

-- A text that is not empty, as a condition.
abbrev pub nonempty : Option String → Option String
nonempty none = none
nonempty (some s) = if s == "" then none else some s

abbrev pub prefer : Option String → Option String → Option String
prefer a b = elim (nonempty a) [ none ↦ b | some s ↦ some s ]

module _ {ℓ} {N : Type ℓ} (compare : String → String → Sign) where
  unfoldable pub compare_ledger_transactions : Transaction N → Transaction N → Sign
  compare_ledger_transactions left right =
      or_sign (compare left.executed_at right.executed_at)
        (or_sign (compare left.created_at right.created_at) (compare left.id right.id))

  unfoldable pub in_ledger_order : List (Transaction N) → List (Transaction N)
  unfolding sort compare_ledger_transactions
  in_ledger_order = sort (λ x y. is_positive (compare_ledger_transactions x y))

module _ {ℓ} {N : Type ℓ} ⦃num : Number N⦄ where
  open num use {plus, minus, times, over, negate, lt, le, same, round_whole, epsilon}

  unfoldable pub round : N → ℕ → N
  round value digits =
      let scale = of_ℕ (10 ^ digits) in over (round_whole (times (plus value epsilon) scale)) scale

  -- The buy that opens a position. The names are filled in by the replay.
  unfoldable pub opened : Transaction N → Position N
  opened t = record {
    asset_id = t.asset_id;
    symbol = "";
    name = "";
    asset_class = equity;
    quantity = t.quantity;
    average_cost =
        if same t.quantity (of_ℕ 0)
        then of_ℕ 0
        else over (plus (times t.quantity t.price) t.fee) t.quantity;
    latest_price = t.price;
    currency = none;
  }

  unfoldable pub bought : Position N → Transaction N → Position N
  unfolding round
  bought current t =
      let next_quantity = plus current.quantity t.quantity in
      let next_cost =
        plus (plus (times current.quantity current.average_cost) (times t.quantity t.price))
          t.fee in
      record current {
        quantity = round next_quantity 8;
        average_cost = if same next_quantity (of_ℕ 0) then of_ℕ 0 else over next_cost next_quantity;
      }

  unfoldable pub sold : Position N → Transaction N → Position N
  unfolding round
  sold current t =
      let next_quantity = minus current.quantity t.quantity in
      record current {
        quantity = round next_quantity 8;
        average_cost = if same next_quantity (of_ℕ 0) then of_ℕ 0 else current.average_cost;
      }

  abbrev pub dispatch :
      TransactionType → Option (Position N) → Transaction N → Result LedgerError (Position N)
  dispatch sell none t = err sell_without_position
  dispatch buy none t = ok (opened t)
  dispatch buy (some current) t = ok (bought current t)
  dispatch sell (some current) t = do
    guard (not (lt current.quantity t.quantity)) sell_above_position
    ok (sold current t)

  unfoldable pub apply_portfolio_transaction :
      Option (Position N) → Transaction N → Result LedgerError (Position N)
  unfolding opened bought sold
  apply_portfolio_transaction current t = dispatch t.kind current t

  -- The two checks of the replay before it applies a transaction.
  unfoldable pub check_available :
      TransactionType → Option (Position N) → Transaction N → Result LedgerError (Unit {0})
  check_available buy current t = ok tt
  check_available sell none t = err position_not_found
  check_available sell (some current) t =
      guard (not (lt current.quantity t.quantity)) insufficient_quantity

  unfoldable pub enrich : LedgerAsset N → Position N → Position N
  enrich asset next = record next {
    symbol = asset.symbol;
    name = asset.name;
    asset_class = asset.asset_class;
    latest_price = asset.latest_price;
    currency = prefer asset.currency next.currency;
  }

  abbrev pub gross_amount : Transaction N → N
  gross_amount t = times t.quantity t.price

  abbrev released : TransactionType → Option (Position N) → Transaction N → N
  released sell (some current) t = times t.quantity current.average_cost
  released _ _ t = of_ℕ 0

  abbrev pub net_amount : TransactionType → Transaction N → N
  net_amount buy t = negate (plus (gross_amount t) t.fee)
  net_amount sell t = minus (gross_amount t) t.fee

  abbrev realized : TransactionType → N → N → N
  realized sell net basis = minus net basis
  realized buy net basis = of_ℕ 0

  abbrev capital : TransactionType → Transaction N → N → N
  capital buy t total = plus total (plus (gross_amount t) t.fee)
  capital sell t total = total

  unfoldable pub store_position : Position N → Transaction N → Dict (Position N) → Dict (Position N)
  unfolding put remove
  store_position p t positions =
      if le p.quantity (of_ℕ 0) then remove t.asset_id positions else put t.asset_id p positions

  -- The rest of a round, once the asset, the position before and the position after are known.
  unfoldable pub record_transaction :
      LedgerAsset N
      → Option (Position N)
      → Position N
      → Transaction N
      → ReplayState N
      → ReplayState N
  unfolding round store_position
  record_transaction asset current next t s =
      let basis = released t.kind current t in
      let net = net_amount t.kind t in
      let gain = realized t.kind net basis in
      record {
        positions = store_position next t s.positions;
        transactions =
            s.transactions
            ++ record {
              source = t;
              currency = prefer t.currency (prefer asset.currency t.currency);
              gross_amount = round (gross_amount t) 8;
              net_amount = round net 8;
              released_cost_basis = round basis 8;
              realized_pnl = round gain 8;
              remaining_quantity = round next.quantity 8;
            }
              ∷ [];
        realized_pnl = plus s.realized_pnl gain;
        cumulative_buy_capital = capital t.kind t s.cumulative_buy_capital;
      }

  -- One round of the loop.
  unfoldable pub replay_step :
      Dict (LedgerAsset N) → ReplayState N → Transaction N → Result LedgerError (ReplayState N)
  unfolding get check_available apply_portfolio_transaction enrich record_transaction
  replay_step assets s t = do
    asset ← required (get t.asset_id assets) asset_metadata_missing
    let current = get t.asset_id s.positions
    check_available t.kind current t
    next ← apply_portfolio_transaction current t
    ok (record_transaction asset current (enrich asset next) t s)

  unfoldable pub replay_loop :
      Dict (LedgerAsset N)
      → ReplayState N
      → List (Transaction N)
      → Result LedgerError (ReplayState N)
  unfolding replay_step
  replay_loop assets s [] = ok s
  replay_loop assets s (t ∷ ts) = do next ← replay_step assets s t; replay_loop assets next ts

  -- `new Map(assets.map((asset) => [asset.assetId, asset]))`: a later entry replaces an earlier one.
  unfoldable pub asset_map : Dict (LedgerAsset N) → List (LedgerAsset N) → Dict (LedgerAsset N)
  unfolding put
  asset_map m [] = m
  asset_map m (a ∷ rest) = asset_map (put a.asset_id a m) rest

  abbrev pub replay_start : ReplayState N
  replay_start = record {
    positions = [];
    transactions = [];
    realized_pnl = of_ℕ 0;
    cumulative_buy_capital = of_ℕ 0;
  }

  unfoldable pub replay_portfolio_ledger :
      (String → String → Sign)
      → List (LedgerAsset N)
      → List (Transaction N)
      → Result LedgerError (ReplayResult N)
  unfolding asset_map in_ledger_order replay_loop values round
  replay_portfolio_ledger compare assets transactions = do
    s ← replay_loop (asset_map [] assets) replay_start (in_ledger_order compare transactions)
    ok (record {
      positions = values s.positions;
      transactions = s.transactions;
      realized_pnl = round s.realized_pnl 8;
      cumulative_buy_capital = round s.cumulative_buy_capital 8;
    })
