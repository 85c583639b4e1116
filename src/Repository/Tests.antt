-- ===== src/Repository/Tests.antt =====
-- Runs and witnesses of the stored portfolios.
use mathlib.Core.List.{Memᴰ}
use radar_asset.Base.{
  map, Option, ◌≡◌, refl, ap, sym, ◌∙◌, ◌≢◌, false, none, some, [], ◌∷◌, ok, err, find, keep, any,
}
use radar_asset.Base.Int.{ℤ, pos, negsuc, ◌+ℤ◌, ◌-ℤ◌, ◌*ℤ◌}
use radar_asset.Base.Number.{whole_numbers}
use radar_asset.Fx.{usd}
use radar_asset.Performance.Report.{empty_benchmark}
use radar_asset.Response.State.{Runtime, Response}
use radar_asset.Response.Build.{build_portfolio_response}
use radar_asset.Repository.Bars.{BarQueries, all_history}
use radar_asset.Repository.Load.{RawMetadata, load_portfolio_response}
use radar_asset.Repository.Quantities.{held_of, stored_of, load_portfolio_response-quantities}
use radar_asset.Ledger.{crypto, Transaction, ReplayedTransaction, buy, sell, position_not_found}
use radar_asset.Ledger.Order.{by_code_points}
use radar_asset.Access.{TenantContext, owner}
use radar_asset.Repository.State.{
  asset_not_found, signal_already_acted, of_ledger, PortfolioRow, AssetRow, TransactionRow,
  PositionRow, SignalRow, Database, TransactionInput, Moment,
}
use radar_asset.Repository.Rebuild.{of_portfolio, rows_of, replay_rows}
use radar_asset.Repository.Operations.{
  portfolio_of, is_owned, create_portfolio_transaction, update_portfolio_transaction,
}
use radar_asset.Base.Equality.{eq_apart}
use radar_asset.Repository.Mirror.{positions_of, IsMirrored}
use radar_asset.Repository.Keys.{HasOnePortfolio, IsKeyed}
use radar_asset.Repository.Laws.{created, start, next, IsConsistent, Reaches-IsConsistent}
use radar_asset.Repository.Tenancy.{organization_of-others}
use radar_asset.Repository.RoundTrip.{IsUndone, create-delete}
use radar_asset.Repository.Signals.{create-once, IsChanged, update-rebuilds_first}

abbrev context : TenantContext
context = record { user_id = "u"; organization_id = "org"; role = owner }

abbrev bitcoin : AssetRow
bitcoin = record {
  id = "a1";
  symbol = "BTC";
  name = "Bitcoin";
  asset_class = "crypto";
  market = "crypto_spot";
  currency = "USD";
}

abbrev entry_signal : SignalRow
entry_signal = record {
  id = "s1";
  organization_id = "org";
  portfolio_id = "p1";
  asset_id = "a1";
  signal_type = "buy";
  status = "suggested";
  execution_at = none;
}

abbrev empty_db : Database ℤ
empty_db = record {
  portfolios = record { id = "p1"; organization_id = "org"; name = "Main" } ∷ [];
  assets = bitcoin ∷ [];
  transactions = [];
  positions = [];
  signals = entry_signal ∷ [];
  fx_rates =
      record {
        effective_date = "2026-01-02";
        fetched_at = "2026-01-02";
        mid = pos 20;
        source = "vietcombank";
      }
      ∷ [];
}

abbrev moment : Moment
moment = record { now = "2026-01-05"; new_id = "t1" }

abbrev purchase : TransactionInput ℤ
purchase = record {
  symbol = "btc";
  kind = buy;
  quantity = pos 2;
  price = pos 10;
  fee = none;
  currency = none;
  note = none;
  executed_at = some "2026-01-03";
  source_signal_id = some "s1";
}

abbrev sale : TransactionInput ℤ
sale = record purchase { kind = sell; source_signal_id = none }

abbrev bought : TransactionRow ℤ
bought = record {
  id = "t1";
  portfolio_id = "p1";
  asset_id = "a1";
  source_signal_id = some "s1";
  kind = "buy";
  quantity = pos 2;
  price = pos 10;
  fee = pos 0;
  currency = "USD";
  fx_rate_to_vnd = pos 20;
  fx_effective_date = some "2026-01-02";
  fx_source = some "vietcombank";
  fx_fallback = false;
  note = none;
  executed_at = "2026-01-03";
  created_at = "2026-01-05";
}

abbrev bought_db : Database ℤ
bought_db = record empty_db {
  transactions = bought ∷ [];
  positions =
      record { portfolio_id = "p1"; asset_id = "a1"; quantity = pos 2; average_cost = pos 200 }
      ∷ [];
  signals = record entry_signal { status = "executed"; execution_at = some "2026-01-05" } ∷ [];
}

runs :
    (create_portfolio_transaction by_code_points context moment purchase empty_db ≡ ok bought_db)
    × (create_portfolio_transaction by_code_points context moment sale empty_db
        ≡ err (of_ledger position_not_found))
    × (create_portfolio_transaction by_code_points context moment purchase bought_db
        ≡ err signal_already_acted)
    × (create_portfolio_transaction by_code_points context moment
          (record sale { symbol = "XMR" })
          empty_db
        ≡ err asset_not_found)
unfolding create_portfolio_transaction ◌+ℤ◌ ◌-ℤ◌ ◌*ℤ◌ by_code_points
runs = (refl, refl, refl, refl)

empty_db-HasOnePortfolio : HasOnePortfolio empty_db
unfolding HasOnePortfolio
empty_db-HasOnePortfolio p q (Memᴰ.head e) (Memᴰ.head f) h =
    ap (λ (x : PortfolioRow). x.id) (e ∙ sym f)
empty_db-HasOnePortfolio p q (Memᴰ.head e) (Memᴰ.tail n) h = elim n [ ]
empty_db-HasOnePortfolio p q (Memᴰ.tail m) n h = elim m [ ]

empty_db-IsConsistent : IsConsistent by_code_points empty_db
unfolding rows_of replay_rows HasOnePortfolio IsKeyed keep ◌+ℤ◌ ◌-ℤ◌ ◌*ℤ◌
empty_db-IsConsistent = record {
  one = empty_db-HasOnePortfolio;
  keyed = λ a b m k e. elim m [ ];
  mirrored = λ q. record {
    ledger = record {
      positions = [];
      transactions = [];
      realized_pnl = pos 0;
      cumulative_buy_capital = pos 0;
    };
    replayed = refl;
    stored = refl;
  };
}

Reaches-IsConsistent_example : IsConsistent by_code_points bought_db
Reaches-IsConsistent_example =
    Reaches-IsConsistent by_code_points empty_db bought_db
      (next start (created context moment purchase (λ row m e. elim m [ ]) runs.0))
      empty_db-IsConsistent

create-delete_example : IsUndone by_code_points context "t1" empty_db bought_db
create-delete_example =
    create-delete by_code_points context moment purchase empty_db bought_db (λ row m e. elim m [ ])
      empty_db-IsConsistent.mirrored runs.0

create-once_example :
    create_portfolio_transaction by_code_points context moment purchase bought_db ≢ ok empty_db
create-once_example =
    create-once by_code_points context context moment moment purchase purchase "s1" empty_db
      bought_db empty_db refl refl runs.0

-- Another organisation has a portfolio, with a transaction and a position.
abbrev theirs : TransactionRow ℤ
theirs = record bought { id = "t9"; portfolio_id = "p9"; source_signal_id = none }

abbrev their_position : PositionRow ℤ
their_position = record {
  portfolio_id = "p9";
  asset_id = "a1";
  quantity = pos 2;
  average_cost = pos 200;
}

abbrev shared_db : Database ℤ
shared_db = record empty_db {
  portfolios =
      record { id = "p9"; organization_id = "them"; name = "Theirs" } ∷ empty_db.portfolios;
  transactions = theirs ∷ [];
  positions = their_position ∷ [];
}

abbrev shared_bought_db : Database ℤ
shared_bought_db = record bought_db {
  portfolios = shared_db.portfolios;
  transactions = theirs ∷ bought ∷ [];
  positions = their_position ∷ bought_db.positions;
}

shares :
    create_portfolio_transaction by_code_points context moment purchase shared_db
    ≡ ok shared_bought_db
unfolding create_portfolio_transaction ◌+ℤ◌ ◌-ℤ◌ ◌*ℤ◌ by_code_points
shares = refl

their_id : (row : TransactionRow ℤ) → Memᴰ row (theirs ∷ []) → row.id ≢ "t1"
their_id row (Memᴰ.head e) h =
    eq_apart "t9" "t1" refl (sym (ap (λ (r : TransactionRow ℤ). r.id) e) ∙ h)
their_id row (Memᴰ.tail m) h = elim m [ ]

shared_db-IsKeyed : IsKeyed shared_db.transactions
unfolding IsKeyed
shared_db-IsKeyed a b (Memᴰ.head e) (Memᴰ.head f) h =
    ap (λ (r : TransactionRow ℤ). r.portfolio_id) (e ∙ sym f)
shared_db-IsKeyed a b (Memᴰ.head e) (Memᴰ.tail n) h = elim n [ ]
shared_db-IsKeyed a b (Memᴰ.tail m) n h = elim m [ ]

organization_of-others_example :
    (keep (of_portfolio "p9") shared_bought_db.transactions
      ≡ keep (of_portfolio "p9") shared_db.transactions)
    × (positions_of "p9" shared_bought_db.positions ≡ positions_of "p9" shared_db.positions)
unfolding is_owned any
organization_of-others_example =
    organization_of-others by_code_points "p9" shared_db shared_bought_db
      (created context moment purchase their_id shares) shared_db-IsKeyed refl

-- The organisation has two portfolios, and the transaction is of the second.
abbrev two_portfolios : Database ℤ
two_portfolios = record bought_db {
  portfolios =
      record { id = "p0"; organization_id = "org"; name = "Other" }
      ∷ record { id = "p1"; organization_id = "org"; name = "Main" }
      ∷ [];
}

abbrev changed : Database ℤ
changed = record two_portfolios { transactions = record bought { quantity = pos 9 } ∷ [] }

changes :
    update_portfolio_transaction by_code_points context moment "t1"
      (record purchase { quantity = pos 9 })
      two_portfolios
    ≡ ok changed
unfolding update_portfolio_transaction ◌+ℤ◌ ◌-ℤ◌ ◌*ℤ◌ by_code_points
changes = refl

update-rebuilds_first_example :
    IsChanged "t1" (record purchase { quantity = pos 9 }) two_portfolios changed
    × (IsMirrored by_code_points "p0" changed
        × (positions_of "p1" changed.positions ≡ positions_of "p1" two_portfolios.positions))
unfolding portfolio_of find
update-rebuilds_first_example =
    update-rebuilds_first by_code_points context moment "t1" "p1"
      (record purchase { quantity = pos 9 })
      (record { id = "p0"; organization_id = "org"; name = "Other" }) two_portfolios changed refl
      (eq_apart "p0" "p1" refl) changes

abbrev plain : Runtime ℤ
plain = record {
  to_fixed = λ x digits. "n";
  to_usd = λ x. "$";
  shown = λ x. "n";
  array_index = λ x. none;
}

abbrev no_bars : BarQueries ℤ
no_bars = record { dataset_bars = λ ids. []; market_bars = λ ids. [] }

abbrev bought_trade : Transaction ℤ
bought_trade = record {
  id = "t1";
  created_at = "2026-01-05";
  executed_at = "2026-01-03";
  kind = buy;
  asset_id = "a1";
  symbol = some "BTC";
  quantity = pos 2;
  price = pos 10;
  fee = pos 0;
  note = none;
  currency = some "USD";
}

abbrev shown_response : Response ℤ (ReplayedTransaction ℤ × Option (RawMetadata ℤ))
shown_response = build_portfolio_response plain (record {
  portfolio_id = "p1";
  portfolio_name = "Main";
  base_currency = "USD";
  positions =
      record {
        asset_id = "a1";
        symbol = "BTC";
        name = "Bitcoin";
        asset_class = crypto;
        quantity = pos 2;
        average_cost = pos 10;
        latest_price = pos 10;
        currency = some "USD";
      }
      ∷ [];
  transactions =
      (
        record {
          source = bought_trade;
          currency = some "USD";
          gross_amount = pos 20;
          net_amount = negsuc 19;
          released_cost_basis = pos 0;
          realized_pnl = pos 0;
          remaining_quantity = pos 2;
        },
        some (record {
          raw_price = pos 10;
          raw_fee = pos 0;
          raw_currency = usd;
          snapshot = record {
            effective_date = some "2026-01-02";
            rate = pos 20;
            source = "vietcombank";
            fallback = false;
          };
        }),
      )
      ∷ [];
  performance = [];
  benchmark = some empty_benchmark;
  realized_pnl = some (pos 0);
  cumulative_buy_capital = some (pos 20);
  data_as_of = none;
  data_source = some "local";
})

loads :
    load_portfolio_response by_code_points
      (λ key. key)
      plain
      no_bars
      context
      all_history
      usd
      bought_db
    ≡ ok shown_response
unfolding load_portfolio_response ◌+ℤ◌ ◌-ℤ◌ ◌*ℤ◌ by_code_points
loads = refl

load_portfolio_response-quantities_example :
    map held_of shown_response.holdings ≡ map stored_of (positions_of "p1" bought_db.positions)
unfolding portfolio_of find
load_portfolio_response-quantities_example =
    load_portfolio_response-quantities by_code_points (λ key. key) plain no_bars context all_history
      usd (record { id = "p1"; organization_id = "org"; name = "Main" }) bought_db refl
      (Reaches-IsConsistent_example.mirrored "p1") loads
