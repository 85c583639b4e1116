-- ===== src/Repository/Steps.antt =====
-- What the operations on transactions have done where they return.
use Prim.Native.String.{String}
use radar_asset.Base.{
  ◌≡◌, refl, sym, ap, ◌∙◌, Option, some, [], ◌∷◌, ◌++◌, ok, required, >>=-eq-ok, guard-eq-ok,
  required-eq-ok, ok_inj, find, or_default,
}
use radar_asset.Base.Number.{Number}
use radar_asset.Fx.{normalize_currency}
use radar_asset.Ledger.{Sign, nonempty}
use radar_asset.Ledger.Support.{is_supported_portfolio_asset}
use radar_asset.Base.Words.{codes, word_eq, normalize_word}
use radar_asset.Access.{TenantContext}
use radar_asset.Repository.State.{
  portfolio_not_found, asset_not_found, asset_unsupported, transaction_not_found, signal_used_twice,
  of_fx, PortfolioRow, AssetRow, TransactionRow, SignalRow, Database, TransactionInput, Moment,
}
use radar_asset.Repository.Rebuild.{through, currency_code, rebuild_portfolio_positions}
use radar_asset.Repository.Operations.{
  source_signal, signal_id, portfolio_of, latest_fx_snapshot, portfolio_and_asset, executed_time,
  written, blank_row, is_unused, acted_on, create_portfolio_transaction, is_transaction, change_row,
  update_portfolio_transaction, without_row, given_back, delete_portfolio_transaction,
}
use radar_asset.Repository.Mirror.{IsRebuilt, rebuild_portfolio_positions-IsRebuilt}

module _ {ℓ} {N : Type ℓ} ⦃num : Number N⦄ (compare : String → String → Sign)
    (context : TenantContext) where
  pub record IsCreated (moment : Moment) (input : TransactionInput N) (db out : Database N)
      : Type ℓ where
    pub portfolio : PortfolioRow
    pub asset : AssetRow
    pub signal : Option SignalRow
    pub row : TransactionRow N
    pub rebuilt : Database N
    pub found : portfolio_and_asset context input.symbol db ≡ ok (portfolio, asset)
    pub checked :
        source_signal context
          (nonempty input.source_signal_id)
          portfolio.id
          asset.id
          input.kind
          db.signals
        ≡ ok signal
    pub same_id : row.id ≡ moment.new_id
    pub same_portfolio : row.portfolio_id ≡ portfolio.id
    pub same_source : row.source_signal_id ≡ signal_id signal
    pub step :
        IsRebuilt compare portfolio.id
          (record db { transactions = db.transactions ++ row ∷ [] })
          rebuilt
    pub result : out ≡ acted_on moment signal rebuilt

  pub create-IsCreated :
      (moment : Moment) (input : TransactionInput N) (db : Database N) {out : Database N}
      → create_portfolio_transaction compare context moment input db ≡ ok out
      → IsCreated moment input db out
  unfolding create_portfolio_transaction written
  create-IsCreated moment input db e =
      let (found, e0, e1) = >>=-eq-ok (portfolio_and_asset context input.symbol db) _ e in
      let executed_at = executed_time moment input in
      let (signal, checked, e2) =
        >>=-eq-ok
          (source_signal context (nonempty input.source_signal_id) found.0.id found.1.id input.kind
            db.signals)
          _ e1 in
      let (snapshot, rated, e3) = >>=-eq-ok (latest_fx_snapshot db.fx_rates executed_at) _ e2 in
      let (currency, known, e4) =
        >>=-eq-ok (through of_fx (normalize_currency (or_default input.currency found.1.currency)))
          _ e3 in
      let (unused, e5) =
        guard-eq-ok (is_unused (signal_id signal) db.transactions) signal_used_twice _ e4 in
      let row =
        written found.1 (currency_code currency) snapshot executed_at input
          (blank_row moment found.0.id (signal_id signal)) in
      let (rebuilt, step, same) =
        >>=-eq-ok
          (rebuild_portfolio_positions compare found.0.id
            (record db { transactions = db.transactions ++ row ∷ [] }))
          _ e5 in
      record {
        portfolio = found.0;
        asset = found.1;
        signal = signal;
        row = row;
        rebuilt = rebuilt;
        found = e0;
        checked = checked;
        same_id = refl;
        same_portfolio = refl;
        same_source = refl;
        step = rebuild_portfolio_positions-IsRebuilt compare found.0.id _ step;
        result = sym (ok_inj same);
      }

  pub record IsUpdated (id : String) (input : TransactionInput N) (db out : Database N)
      : Type ℓ where
    pub portfolio : PortfolioRow
    pub asset : AssetRow
    pub existing : TransactionRow N
    pub change : TransactionRow N → TransactionRow N
    pub found : portfolio_and_asset context input.symbol db ≡ ok (portfolio, asset)
    pub there : find (is_transaction context id db) db.transactions ≡ some existing
    pub same_portfolio : (row : TransactionRow N) → (change row).portfolio_id ≡ row.portfolio_id
    pub same_id : (row : TransactionRow N) → (change row).id ≡ row.id
    pub as_asked :
        (row : TransactionRow N)
        → ((change row).quantity ≡ input.quantity) × ((change row).price ≡ input.price)
    pub step :
        IsRebuilt compare portfolio.id
          (record db { transactions = change_row existing.id change db.transactions })
          out

  pub update-IsUpdated :
      (moment : Moment) (id : String) (input : TransactionInput N) (db : Database N)
      {out : Database N}
      → update_portfolio_transaction compare context moment id input db ≡ ok out
      → IsUpdated id input db out
  unfolding update_portfolio_transaction written
  update-IsUpdated moment id input db e =
      let (found, e0, e1) = >>=-eq-ok (portfolio_and_asset context input.symbol db) _ e in
      let executed_at = executed_time moment input in
      let (existing, there, e2) =
        >>=-eq-ok
          (required (find (is_transaction context id db) db.transactions) transaction_not_found) _
          e1 in
      let (snapshot, rated, e3) = >>=-eq-ok (latest_fx_snapshot db.fx_rates executed_at) _ e2 in
      let (currency, known, e4) =
        >>=-eq-ok (through of_fx (normalize_currency (or_default input.currency found.1.currency)))
          _ e3 in
      record {
        portfolio = found.0;
        asset = found.1;
        existing = existing;
        change = written found.1 (currency_code currency) snapshot executed_at input;
        found = e0;
        there = required-eq-ok (find (is_transaction context id db) db.transactions) _ there;
        same_portfolio = λ row. refl;
        same_id = λ row. refl;
        as_asked = λ row. (refl, refl);
        step = rebuild_portfolio_positions-IsRebuilt compare found.0.id _ e4;
      }

  pub record IsDeleted (id : String) (db out : Database N) : Type ℓ where
    pub existing : TransactionRow N
    pub rebuilt : Database N
    pub there : find (is_transaction context id db) db.transactions ≡ some existing
    pub step :
        IsRebuilt compare existing.portfolio_id
          (record db { transactions = without_row existing.id db.transactions })
          rebuilt
    pub result : out ≡ given_back (nonempty existing.source_signal_id) rebuilt

  pub delete-IsDeleted :
      (id : String) (db : Database N) {out : Database N}
      → delete_portfolio_transaction compare context id db ≡ ok out
      → IsDeleted id db out
  unfolding delete_portfolio_transaction
  delete-IsDeleted id db e =
      let (existing, there, e1) =
        >>=-eq-ok
          (required (find (is_transaction context id db) db.transactions) transaction_not_found) _
          e in
      let (rebuilt, step, same) =
        >>=-eq-ok
          (rebuild_portfolio_positions compare existing.portfolio_id
            (record db { transactions = without_row existing.id db.transactions }))
          _ e1 in
      record {
        existing = existing;
        rebuilt = rebuilt;
        there = required-eq-ok (find (is_transaction context id db) db.transactions) _ there;
        step = rebuild_portfolio_positions-IsRebuilt compare existing.portfolio_id _ step;
        result = sym (ok_inj same);
      }

module _ {ℓ} {N : Type ℓ} ⦃num : Number N⦄ (context : TenantContext) where
  pub portfolio_and_asset-portfolio :
      (symbol : String) (db : Database N) {p : PortfolioRow} {a : AssetRow}
      → portfolio_and_asset context symbol db ≡ ok (p, a)
      → portfolio_of context.organization_id db.portfolios ≡ some p
  unfolding portfolio_and_asset
  portfolio_and_asset-portfolio symbol db {p} {a} e =
      let (q, there, e1) =
        >>=-eq-ok
          (required (portfolio_of context.organization_id db.portfolios) portfolio_not_found) _ e in
      let (b, known, e2) =
        >>=-eq-ok
          (required (find (λ a. word_eq (codes a.symbol) (normalize_word (codes symbol))) db.assets)
            asset_not_found)
          _ e1 in
      let (supported, e3) =
        guard-eq-ok (is_supported_portfolio_asset (some b.symbol) b.asset_class b.market)
          asset_unsupported _ e2 in
      required-eq-ok (portfolio_of context.organization_id db.portfolios) portfolio_not_found there
      ∙ ap (λ (x : PortfolioRow × AssetRow). some x.0) (ok_inj e3)
