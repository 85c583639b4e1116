-- ===== src/Repository/Tenancy.antt =====
-- The requests of one organisation leave the portfolios of the others alone.
use Prim.Native.String.{String}
use text.Mathlib.Text.{◌==◌}
use radar_asset.Base.{
  ◌≡◌, sym, ap, ◌∙◌, ◌≢◌, Bool, true, false, &&-eq-true, some, find, keep, find-true,
}
use radar_asset.Base.Number.{Number}
use radar_asset.Ledger.{Sign, nonempty}
use radar_asset.Access.{TenantContext}
use radar_asset.Repository.State.{TransactionRow, Database}
use radar_asset.Repository.Rebuild.{of_portfolio}
use radar_asset.Repository.Operations.{is_owned, is_transaction}
use radar_asset.Repository.Mirror.{positions_of, IsRebuilt-others}
use radar_asset.Base.{find-Memᴰ}
use radar_asset.Repository.Keys.{
  IsKeyed, IsElsewhere, IsKeyed-IsElsewhere, keep-change_row, keep-without_row,
  portfolio_of-is_owned,
}
use radar_asset.Repository.Steps.{
  create-IsCreated, update-IsUpdated, delete-IsDeleted, portfolio_and_asset-portfolio,
}
use radar_asset.Repository.RoundTrip.{acted_on-rows, given_back-rows}
use radar_asset.Repository.Laws.{Step, created, updated, deleted, keep-other_row}

not_owned : (a b : String) (owned : String → Bool) → owned a ≡ true → owned b ≡ false → a ≢ b
not_owned a b owned y n e = cc (y, n, ap owned e)

module _ {ℓ} {N : Type ℓ} ⦃num : Number N⦄ where
  existing-apart :
      (context : TenantContext) (id q : String) (db : Database N) (row : TransactionRow N)
      → find (is_transaction context id db) db.transactions ≡ some row
      → is_owned context.organization_id db.portfolios q ≡ false
      → row.portfolio_id ≢ q
  existing-apart context id q db row there foreign =
      let org = context.organization_id in
      not_owned row.portfolio_id q (is_owned org db.portfolios)
        (&&-eq-true (row.id == id) (is_owned org db.portfolios row.portfolio_id)
          (find-true (is_transaction context id db) db.transactions there)).1
        foreign

  elsewhere :
      (context : TenantContext) (id q : String) (db : Database N) (row : TransactionRow N)
      → IsKeyed db.transactions
      → find (is_transaction context id db) db.transactions ≡ some row
      → is_owned context.organization_id db.portfolios q ≡ false
      → IsElsewhere row.id q db.transactions
  elsewhere context id q db row keyed there foreign =
      IsKeyed-IsElsewhere q row db.transactions keyed
        (find-Memᴰ (is_transaction context id db) db.transactions there)
        (existing-apart context id q db row there foreign)

module _ {ℓ} {N : Type ℓ} ⦃num : Number N⦄ (compare : String → String → Sign) where
  -- The organisation that makes the request.
  abbrev pub organization_of : {db out : Database N} → Step compare db out → String
  organization_of (created context moment input fresh e) = context.organization_id
  organization_of (updated context moment id input e) = context.organization_id
  organization_of (deleted context id e) = context.organization_id

  -- A request that returns, where the rows of one id are of one portfolio, leaves the transactions and the
  -- positions of every portfolio that is not one of its organisation's.
  pub organization_of-others :
      (q : String) (db out : Database N) (step : Step compare db out)
      → IsKeyed db.transactions
      → is_owned (organization_of step) db.portfolios q ≡ false
      → (keep (of_portfolio q) out.transactions ≡ keep (of_portfolio q) db.transactions)
        × (positions_of q out.positions ≡ positions_of q db.positions)
  organization_of-others q db out (created context moment input fresh e) keyed foreign =
      let c = create-IsCreated compare context moment input db e in
      let org = context.organization_id in
      let own =
        portfolio_of-is_owned org db.portfolios c.portfolio
          (portfolio_and_asset-portfolio context input.symbol db c.found) in
      let apart = not_owned c.portfolio.id q (is_owned org db.portfolios) own foreign in
      let rows = acted_on-rows moment c.signal c.rebuilt in
      (
        ap (λ (x : Database N). keep (of_portfolio q) x.transactions) c.result
            ∙ ap (keep (of_portfolio q))
                (rows.0 ∙ ap (λ (x : Database N). x.transactions) c.step.result)
            ∙ keep-other_row q c.row db.transactions (λ h. apart (sym c.same_portfolio ∙ h)),
        ap (λ (x : Database N). positions_of q x.positions) c.result
            ∙ ap (positions_of q) rows.1
            ∙ IsRebuilt-others compare c.portfolio.id q _ c.step apart,
      )
  organization_of-others q db out (updated context moment id input e) keyed foreign =
      let u = update-IsUpdated compare context moment id input db e in
      let org = context.organization_id in
      let own =
        portfolio_of-is_owned org db.portfolios u.portfolio
          (portfolio_and_asset-portfolio context input.symbol db u.found) in
      (
        ap (λ (x : Database N). keep (of_portfolio q) x.transactions) u.step.result
            ∙ keep-change_row u.existing.id q u.change db.transactions u.same_portfolio
                (elsewhere context id q db u.existing keyed u.there foreign),
        IsRebuilt-others compare u.portfolio.id q _ u.step
            (not_owned u.portfolio.id q (is_owned org db.portfolios) own foreign),
      )
  organization_of-others q db out (deleted context id e) keyed foreign =
      let d = delete-IsDeleted compare context id db e in
      let rows = given_back-rows (nonempty d.existing.source_signal_id) d.rebuilt in
      (
        ap (λ (x : Database N). keep (of_portfolio q) x.transactions) d.result
            ∙ ap (keep (of_portfolio q))
                (rows.0 ∙ ap (λ (x : Database N). x.transactions) d.step.result)
            ∙ keep-without_row d.existing.id q db.transactions
                (elsewhere context id q db d.existing keyed d.there foreign),
        ap (λ (x : Database N). positions_of q x.positions) d.result
            ∙ ap (positions_of q) rows.1
            ∙ IsRebuilt-others compare d.existing.portfolio_id q _ d.step
                (existing-apart context id q db d.existing d.there foreign),
      )
