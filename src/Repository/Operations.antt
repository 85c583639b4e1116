-- ===== src/Repository/Operations.antt =====
-- src/lib/backend/portfolio-repository.ts: the creation, change and deletion of a transaction. Each is one
-- transaction of the database, so an error leaves the rows as they were; the response that is loaded
-- afterwards is not part of it.
use Prim.Native.String.{String}
use text.Mathlib.Text.{◌==◌}
use radar_asset.Base.{
  Bool, true, false, not, ◌&&◌, ◌||◌, Option, none, some, List, [], ◌∷◌, ◌++◌, if◌then◌else◌,
  Result, ok, ◌>>=◌, ◌>>◌, guard, required, find, keep, any, or_default,
}
use radar_asset.Base.Text.{text_lt}
use radar_asset.Base.Sort.{sort}
use radar_asset.Base.Words.{codes, word_eq, normalize_word}
use radar_asset.Base.Number.{Number, of_ℕ}
use radar_asset.Fx.{ResolvedFxRate, normalize_currency, select_rate_on_or_before}
use radar_asset.Ledger.{TransactionType, buy, sell, Sign, nonempty}
use radar_asset.Ledger.Support.{is_supported_portfolio_asset}
use radar_asset.Performance.Bars.{date_key}
use radar_asset.Access.{TenantContext}
use radar_asset.Repository.State.{
  RepositoryError, portfolio_not_found, asset_not_found, asset_unsupported, transaction_not_found,
  signal_used_twice, signal_already_acted, signal_scope_mismatch, signal_side_mismatch, of_fx,
  PortfolioRow, AssetRow, TransactionRow, SignalRow, FxRow, Database, TransactionInput, Moment,
}
use radar_asset.Repository.Rebuild.{through, currency_code, rebuild_portfolio_positions}

abbrev pub type_code : TransactionType → String
type_code buy = "buy"
type_code sell = "sell"

unfoldable pub validate_source_signal_execution :
    SignalRow → String → String → TransactionType → Result RepositoryError (Unit {0})
validate_source_signal_execution signal portfolio_id asset_id side = do
  guard (not ((signal.status == "executed") || (signal.status == "dismissed"))) signal_already_acted
  guard (not (not (signal.portfolio_id == portfolio_id) || not (signal.asset_id == asset_id)))
      signal_scope_mismatch
  guard (signal.signal_type == type_code side) signal_side_mismatch

-- `findFirst` names no order: the first row of the list stands for whichever the database returns.
unfoldable pub portfolio_of : String → List PortfolioRow → Option PortfolioRow
unfolding find
portfolio_of organization_id portfolios =
    find (λ p. p.organization_id == organization_id) portfolios

-- `portfolio: { organizationId }` as a condition on a row of that portfolio.
unfoldable pub is_owned : String → List PortfolioRow → String → Bool
unfolding any
is_owned organization_id portfolios portfolio_id =
    any (λ p. (p.id == portfolio_id) && (p.organization_id == organization_id)) portfolios

unfoldable pub set_signal : String → String → Option String → List SignalRow → List SignalRow
set_signal id status execution_at [] = []
set_signal id status execution_at (s ∷ signals) =
    (if s.id == id then record s { status = status; execution_at = execution_at } else s)
    ∷ set_signal id status execution_at signals

abbrev pub found_signal : TenantContext → String → List SignalRow → Option SignalRow
found_signal context id signals =
    find (λ s. (s.id == id) && (s.organization_id == context.organization_id)) signals

-- The signal that a transaction acts on, checked; none if the input names none.
abbrev pub source_signal :
    TenantContext
    → Option String
    → String
    → String
    → TransactionType
    → List SignalRow
    → Result RepositoryError (Option SignalRow)
source_signal context none portfolio_id asset_id side signals = ok none
source_signal context (some id) portfolio_id asset_id side signals = do
  signal ← required (found_signal context id signals) signal_scope_mismatch
  validate_source_signal_execution signal portfolio_id asset_id side
  ok (some signal)

abbrev pub signal_id : Option SignalRow → Option String
signal_id none = none
signal_id (some s) = some s.id

abbrev same_text : Option String → String → Bool
same_text none id = false
same_text (some s) id = s == id

module _ {ℓ} {N : Type ℓ} ⦃num : Number N⦄ where
  abbrev rate_after : FxRow N → FxRow N → Bool
  rate_after x y =
      text_lt x.effective_date y.effective_date
      || ((x.effective_date == y.effective_date) && text_lt x.fetched_at y.fetched_at)

  abbrev first_rate : List (FxRow N) → String → Result RepositoryError (ResolvedFxRate N)
  first_rate [] executed_at = through of_fx (select_rate_on_or_before [] (date_key executed_at))
  first_rate (row ∷ rows) executed_at = ok (record {
    effective_date = some (date_key row.effective_date);
    rate = row.mid;
    source = row.source;
    fallback = false;
  })

  -- The newest rate of a day at or before the execution, and of that day the last fetched.
  unfoldable pub latest_fx_snapshot :
      List (FxRow N) → String → Result RepositoryError (ResolvedFxRate N)
  unfolding keep sort text_lt select_rate_on_or_before date_key
  latest_fx_snapshot rows executed_at =
      first_rate (sort rate_after (keep (λ r. not (text_lt executed_at r.effective_date)) rows))
        executed_at

  unfoldable pub portfolio_and_asset :
      TenantContext → String → Database N → Result RepositoryError (PortfolioRow × AssetRow)
  unfolding portfolio_of find normalize_word word_eq is_supported_portfolio_asset
  portfolio_and_asset context symbol db = do
    portfolio ← required (portfolio_of context.organization_id db.portfolios) portfolio_not_found
    asset ←
        required (find (λ a. word_eq (codes a.symbol) (normalize_word (codes symbol))) db.assets)
          asset_not_found
    guard (is_supported_portfolio_asset (some asset.symbol) asset.asset_class asset.market)
        asset_unsupported
    ok (portfolio, asset)

  abbrev pub executed_time : Moment → TransactionInput N → String
  executed_time moment input = or_default (nonempty input.executed_at) moment.now

  -- The columns that a creation and a change write alike.
  unfoldable pub written :
      AssetRow
      → String
      → ResolvedFxRate N
      → String
      → TransactionInput N
      → TransactionRow N
      → TransactionRow N
  written asset currency snapshot executed_at input row = record row {
    asset_id = asset.id;
    kind = type_code input.kind;
    quantity = input.quantity;
    price = input.price;
    fee = or_default input.fee (of_ℕ 0);
    currency = currency;
    fx_rate_to_vnd = snapshot.rate;
    fx_effective_date = snapshot.effective_date;
    fx_source = some snapshot.source;
    fx_fallback = snapshot.fallback;
    note = or_default input.note row.note;
    executed_at = executed_at;
  }

  abbrev pub blank_row : Moment → String → Option String → TransactionRow N
  blank_row moment portfolio_id source = record {
    id = moment.new_id;
    portfolio_id = portfolio_id;
    asset_id = "";
    source_signal_id = source;
    kind = "";
    quantity = of_ℕ 0;
    price = of_ℕ 0;
    fee = of_ℕ 0;
    currency = "";
    fx_rate_to_vnd = of_ℕ 0;
    fx_effective_date = none;
    fx_source = none;
    fx_fallback = false;
    note = none;
    executed_at = "";
    created_at = moment.now;
  }

  -- `sourceSignalId` is unique among the transactions.
  abbrev pub is_unused : Option String → List (TransactionRow N) → Bool
  is_unused none rows = true
  is_unused (some id) rows = not (any (λ r. same_text r.source_signal_id id) rows)

  abbrev pub acted_on : Moment → Option SignalRow → Database N → Database N
  acted_on moment none db = db
  acted_on moment (some s) db = record db {
    signals = set_signal s.id "executed" (some moment.now) db.signals;
  }

  unfoldable pub create_portfolio_transaction :
      (String → String → Sign)
      → TenantContext
      → Moment
      → TransactionInput N
      → Database N
      → Result RepositoryError (Database N)
  unfolding portfolio_and_asset find validate_source_signal_execution latest_fx_snapshot
      normalize_currency written any rebuild_portfolio_positions set_signal
  create_portfolio_transaction compare context moment input db = do
    found ← portfolio_and_asset context input.symbol db
    let executed_at = executed_time moment input
    signal ←
        source_signal context (nonempty input.source_signal_id) found.0.id found.1.id input.kind
          db.signals
    snapshot ← latest_fx_snapshot db.fx_rates executed_at
    currency ← through of_fx (normalize_currency (or_default input.currency found.1.currency))
    guard (is_unused (signal_id signal) db.transactions) signal_used_twice
    let row =
        written found.1 (currency_code currency) snapshot executed_at input
          (blank_row moment found.0.id (signal_id signal))
    rebuilt ←
        rebuild_portfolio_positions compare found.0.id
          (record db { transactions = db.transactions ++ row ∷ [] })
    ok (acted_on moment signal rebuilt)

  abbrev pub is_transaction : TenantContext → String → Database N → TransactionRow N → Bool
  is_transaction context id db row =
      (row.id == id) && is_owned context.organization_id db.portfolios row.portfolio_id

  unfoldable pub change_row :
      String
      → (TransactionRow N → TransactionRow N)
      → List (TransactionRow N)
      → List (TransactionRow N)
  change_row id change [] = []
  change_row id change (row ∷ rows) =
      (if row.id == id then change row else row) ∷ change_row id change rows

  unfoldable pub update_portfolio_transaction :
      (String → String → Sign)
      → TenantContext
      → Moment
      → String
      → TransactionInput N
      → Database N
      → Result RepositoryError (Database N)
  unfolding portfolio_and_asset find is_owned latest_fx_snapshot normalize_currency written
      change_row rebuild_portfolio_positions
  update_portfolio_transaction compare context moment id input db = do
    found ← portfolio_and_asset context input.symbol db
    existing ← required (find (is_transaction context id db) db.transactions) transaction_not_found
    let executed_at = executed_time moment input
    snapshot ← latest_fx_snapshot db.fx_rates executed_at
    currency ← through of_fx (normalize_currency (or_default input.currency found.1.currency))
    let change = written found.1 (currency_code currency) snapshot executed_at input
    rebuild_portfolio_positions compare found.0.id
        (record db { transactions = change_row existing.id change db.transactions })

  unfoldable pub without_row : String → List (TransactionRow N) → List (TransactionRow N)
  unfolding keep
  without_row id rows = keep (λ row. not (row.id == id)) rows

  abbrev pub given_back : Option String → Database N → Database N
  given_back none db = db
  given_back (some id) db = record db { signals = set_signal id "suggested" none db.signals }

  unfoldable pub delete_portfolio_transaction :
      (String → String → Sign)
      → TenantContext
      → String
      → Database N
      → Result RepositoryError (Database N)
  unfolding find is_owned without_row rebuild_portfolio_positions set_signal
  delete_portfolio_transaction compare context id db = do
    existing ← required (find (is_transaction context id db) db.transactions) transaction_not_found
    rebuilt ←
        rebuild_portfolio_positions compare existing.portfolio_id
          (record db { transactions = without_row existing.id db.transactions })
    ok (given_back (nonempty existing.source_signal_id) rebuilt)
