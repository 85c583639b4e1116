-- ===== src/Repository/Quantities.antt =====
-- The quantities that the response shows are those of the stored positions, in either currency.
use Prim.Native.String.{String}
use text.Mathlib.Text.{◌==◌}
use radar_asset.Base.{
  ◌≡◌, refl, sym, ap, ap₂, ◌∙◌, Option, some, List, [], ◌∷◌, map, Result, ok, err, required,
  >>=-eq-ok, ok_inj, find, map_result,
}
use radar_asset.Base.Number.{Number, of_ℕ}
use radar_asset.Fx.{PortfolioCurrency, vnd, normalize_currency}
use radar_asset.Ledger.{
  TransactionType, LedgerAsset, Transaction, ReplayedTransaction, ReplayResult, Sign,
  replay_portfolio_ledger,
}
use radar_asset.Ledger.Quantities.{
  Trade, trade_of, amount_of, amounts_held, replay_portfolio_ledger-amounts,
}
use radar_asset.Response.State.{Runtime, HoldingResponse, ResponseInput, Response}
use radar_asset.Response.Risk.{sum_of}
use radar_asset.Response.Build.{to_holding, build_portfolio_response}
use radar_asset.Performance.Build.{build_portfolio_performance}
use radar_asset.Access.{TenantContext}
use radar_asset.Repository.State.{
  RepositoryError, asset_missing, of_ledger, of_fx, PortfolioRow, AssetRow, TransactionRow,
  PositionRow, Database,
}
use radar_asset.Repository.Rebuild.{
  through, transaction_snapshot, assert_transaction_type, convert_at, to_ledger_transaction,
  latest_prices, assets_of_rows, to_ledger_asset, replay_rows, rows_of, to_position_row,
}
use radar_asset.Repository.Operations.{portfolio_of}
use radar_asset.Repository.Mirror.{positions_of, IsMirrored}
use radar_asset.Repository.Bars.{ChartTimeframe, BarQueries, rate_points, to_converted_bar}
use radar_asset.Repository.Load.{
  RawMetadata, to_response_transaction, response_of_portfolio, load_portfolio_response,
  raw_price_bars, asset_rows, priced_assets, performance_input, response_input,
}

through-eq-ok {κ} :
    {E : Type 0} {A : Type κ} (f : E → RepositoryError) (r : Result E A) {a : A}
    → through f r ≡ ok a
    → r ≡ ok a
through-eq-ok f (ok b) e = ap (λ b. ok b) (ok_inj e)
through-eq-ok f (err x) e = cc

map-map {ℓ κ μ} :
    {A : Type ℓ} {B : Type κ} {C : Type μ} (g : B → C) (f : A → B) (h : A → C)
    → ((x : A) → g (f x) ≡ h x)
    → (xs : List A) → map g (map f xs) ≡ map h xs
map-map g f h same [] = refl
map-map g f h same (x ∷ xs) = ap₂ (λ y ys. y ∷ ys) (same x) (map-map g f h same xs)

-- Two maps over one list that return make results of the same trades.
map_result-same {ℓ κ μ ν} :
    {A : Type ℓ} {B : Type κ} {C : Type μ} {D : Type ν} {E : Type 0} (f : A → Result E B)
    (g : A → Result E C) (l : B → D) (r : C → D)
    → ((x : A) (y : B) (z : C) → f x ≡ ok y → g x ≡ ok z → l y ≡ r z)
    → (xs : List A) {ys : List B} {zs : List C} → map_result f xs ≡ ok ys
    → map_result g xs ≡ ok zs
    → map l ys ≡ map r zs
unfolding map_result
map_result-same f g l r same [] e k = ap (map l) (sym (ok_inj e)) ∙ ap (map r) (ok_inj k)
map_result-same f g l r same (x ∷ xs) e k =
    let (y, e0, e1) = >>=-eq-ok (f x) _ e in
    let (ys, e2, e3) = >>=-eq-ok (map_result f xs) _ e1 in
    let (z, k0, k1) = >>=-eq-ok (g x) _ k in
    let (zs, k2, k3) = >>=-eq-ok (map_result g xs) _ k1 in
    ap (map l) (sym (ok_inj e3))
    ∙ ap₂ (λ a b. a ∷ b) (same x y z e0 k0) (map_result-same f g l r same xs e2 k2)
    ∙ ap (map r) (ok_inj k3)

module _ {ℓ} {N : Type ℓ} ⦃num : Number N⦄ where
  -- The trade of a row, if its type is a type of transactions.
  row_trade : TransactionRow N → TransactionType → Trade N
  row_trade row kind = record {
    id = row.id;
    created_at = row.created_at;
    executed_at = row.executed_at;
    kind = kind;
    asset_id = row.asset_id;
    quantity = row.quantity;
  }

  to_ledger_transaction-trade :
      (target : PortfolioCurrency) (assets : List AssetRow) (row : TransactionRow N)
      {t : Transaction N}
      → to_ledger_transaction target assets row ≡ ok t
      → (kind : TransactionType) × (assert_transaction_type row.kind ≡ ok kind)
        × (trade_of t ≡ row_trade row kind)
  unfolding to_ledger_transaction row_trade
  to_ledger_transaction-trade target assets row e =
      let (asset, a, e1) =
        >>=-eq-ok (required (find (λ a. a.id == row.asset_id) assets) asset_missing) _ e in
      let (snapshot, s, e2) = >>=-eq-ok (transaction_snapshot row) _ e1 in
      let (kind, k, e3) = >>=-eq-ok (assert_transaction_type row.kind) _ e2 in
      let (price, p, e4) = >>=-eq-ok (convert_at row.price row.currency target snapshot) _ e3 in
      let (fee, f, e5) = >>=-eq-ok (convert_at row.fee row.currency target snapshot) _ e4 in
      (kind, k, ap trade_of (sym (ok_inj e5)))

  -- A row makes the same trade whatever the currency of the report.
  same_trade :
      (target : PortfolioCurrency) (assets : List AssetRow) (row : TransactionRow N)
      (t : Transaction N) (p : Transaction N × RawMetadata N)
      → to_ledger_transaction vnd assets row ≡ ok t
      → to_response_transaction target assets row ≡ ok p
      → trade_of t ≡ trade_of p.0
  unfolding to_response_transaction
  same_trade target assets row t p e k =
      let (snapshot, s, k1) = >>=-eq-ok (transaction_snapshot row) _ k in
      let (currency, c, k2) = >>=-eq-ok (through of_fx (normalize_currency row.currency)) _ k1 in
      let (u, w, k3) = >>=-eq-ok (to_ledger_transaction target assets row) _ k2 in
      let (kind, a, x) = to_ledger_transaction-trade vnd assets row e in
      let (kind', b, y) = to_ledger_transaction-trade target assets row w in
      x
      ∙ ap (row_trade row) (ok_inj (sym a ∙ b))
      ∙ sym y
      ∙ ap (λ (q : Transaction N × RawMetadata N). trade_of q.0) (ok_inj k3)

  abbrev pub held_of : HoldingResponse N → String × N
  held_of h = (h.asset_id, h.qty)

  abbrev pub stored_of : PositionRow N → String × N
  stored_of row = (row.asset_id, row.quantity)

  -- What the response shows comes from a replay of the rows.
  record IsReplayed {T : Type ℓ} (compare : String → String → Sign) (target : PortfolioCurrency)
      (id : String) (db : Database N) (response : Response N T) : Type ℓ where
    pub pairs : List (Transaction N × RawMetadata N)
    pub assets : List (LedgerAsset N)
    pub ledger : ReplayResult N
    pub mapped :
        map_result (to_response_transaction target db.assets) (rows_of id db.transactions)
        ≡ ok pairs
    pub replayed : replay_portfolio_ledger compare assets (map (λ p. p.0) pairs) ≡ ok ledger
    pub shown : map held_of response.holdings ≡ map amount_of ledger.positions

  build_portfolio_response-held :
      {T : Type ℓ} (runtime : Runtime N) (input : ResponseInput N T)
      → map held_of (build_portfolio_response runtime input).holdings
        ≡ map amount_of input.positions
  unfolding build_portfolio_response to_holding
  build_portfolio_response-held runtime input =
      let whole = sum_of (λ p. num.times p.quantity p.latest_price) (of_ℕ 0) input.positions in
      map-map held_of (to_holding whole) amount_of (λ p. refl) input.positions

  response_of_portfolio-IsReplayed :
      (compare : String → String → Sign) (label : String → String) (runtime : Runtime N)
      (queries : BarQueries N) (timeframe : ChartTimeframe) (target : PortfolioCurrency)
      (portfolio : PortfolioRow) (db : Database N)
      {response : Response N (ReplayedTransaction N × Option (RawMetadata N))}
      → response_of_portfolio compare label runtime queries timeframe target portfolio db
        ≡ ok response
      → IsReplayed compare target portfolio.id db response
  unfolding response_of_portfolio response_input
  response_of_portfolio-IsReplayed compare label runtime queries timeframe target portfolio db e =
      let rows = rows_of portfolio.id db.transactions in
      let raw_bars = raw_price_bars compare queries db.assets rows in
      let (bars, b, e1) =
        >>=-eq-ok
          (map_result
            (to_converted_bar target (asset_rows db.assets rows) (rate_points db.fx_rates))
            raw_bars)
          _ e in
      let (pairs, m, e2) =
        >>=-eq-ok (map_result (to_response_transaction target db.assets) rows) _ e1 in
      let transactions = map (λ p. p.0) pairs in
      let assets = priced_assets target db.assets rows bars transactions in
      let replay = replay_portfolio_ledger compare assets transactions in
      let (ledger, l, e3) = >>=-eq-ok (through of_ledger replay) _ e2 in
      let (performance, p, e4) =
        >>=-eq-ok
          (through of_ledger (
            build_portfolio_performance compare label
              (performance_input timeframe db.assets assets transactions bars)))
          _ e3 in
      record {
        pairs = pairs;
        assets = assets;
        ledger = ledger;
        mapped = m;
        replayed = through-eq-ok of_ledger replay l;
        shown =
            ap
              (λ (x : Response N (ReplayedTransaction N × Option (RawMetadata N))).
                map held_of x.holdings)
              (sym (ok_inj e4))
            ∙ build_portfolio_response-held runtime
                (response_input target portfolio raw_bars pairs ledger performance);
      }

  -- Where the stored positions of the organisation's portfolio are those of its replay, a response that
  -- loads shows, in either currency and whatever the bars and rates are, the assets of the stored
  -- positions with their quantities, in their order.
  pub load_portfolio_response-quantities :
      (compare : String → String → Sign) (label : String → String) (runtime : Runtime N)
      (queries : BarQueries N) (context : TenantContext) (timeframe : ChartTimeframe)
      (target : PortfolioCurrency) (p : PortfolioRow) (db : Database N)
      {response : Response N (ReplayedTransaction N × Option (RawMetadata N))}
      → portfolio_of context.organization_id db.portfolios ≡ some p
      → IsMirrored compare p.id db
      → load_portfolio_response compare label runtime queries context timeframe target db
        ≡ ok response
      → map held_of response.holdings ≡ map stored_of (positions_of p.id db.positions)
  unfolding load_portfolio_response replay_rows
  load_portfolio_response-quantities compare label runtime queries context timeframe target p db
        found mirrored e =
      let r =
        response_of_portfolio-IsReplayed compare label runtime queries timeframe target p db
          (rw found at e) in
      let rows = rows_of p.id db.transactions in
      let (ts, t, e1) =
        >>=-eq-ok (map_result (to_ledger_transaction vnd db.assets) rows) _ mirrored.replayed in
      let own =
        map (to_ledger_asset (latest_prices [] ts) vnd) (assets_of_rows [] db.assets rows) in
      r.shown
      ∙ replay_portfolio_ledger-amounts compare r.assets (map (λ p. p.0) r.pairs) r.replayed
      ∙ ap (amounts_held compare) (
          map-map trade_of (λ p. p.0) (λ p. trade_of p.0) (λ p. refl) r.pairs
          ∙ sym (
              map_result-same (to_ledger_transaction vnd db.assets)
                (to_response_transaction target db.assets) trade_of (λ p. trade_of p.0)
                (same_trade target db.assets) rows t r.mapped))
      ∙ sym (
          replay_portfolio_ledger-amounts compare own ts
            (through-eq-ok of_ledger (replay_portfolio_ledger compare own ts) e1))
      ∙ sym
          (map-map stored_of (to_position_row p.id) amount_of (λ q. refl) mirrored.ledger.positions)
      ∙ ap (map stored_of) (sym mirrored.stored)
