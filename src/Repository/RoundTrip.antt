-- ===== src/Repository/RoundTrip.antt =====
-- A creation, and the deletion of what it created.
use Prim.Native.String.{String}
use mathlib.Core.List.{append-nil}
use text.Mathlib.Text.{◌==◌}
use text.Mathlib.TextEquality.{eq_iff}
use text.Mathlib.TextPositions.{eq_refl}
use radar_asset.Base.{
  find-append, ◌≡◌, refl, sym, ap, ap₂, ◌∙◌, subst, inl, inr, true, false, not, Option, none, some,
  List, [], ◌∷◌, ◌++◌, map, Bool-cases, All-of-Memᴰ, ok, find, keep-append, keep-none, keep_whole,
}
use radar_asset.Base.Number.{Number}
use radar_asset.Ledger.{ReplayResult, Sign, nonempty}
use radar_asset.Access.{TenantContext}
use radar_asset.Repository.State.{
  PortfolioRow, TransactionRow, SignalRow, Database, TransactionInput, Moment,
}
use radar_asset.Repository.Rebuild.{
  rows_of, replay_rows, to_position_row, replace_positions, rebuild_portfolio_positions,
}
use radar_asset.Repository.Operations.{
  portfolio_of, is_owned, acted_on, create_portfolio_transaction, is_transaction, without_row,
  given_back, delete_portfolio_transaction,
}
use radar_asset.Base.Equality.{eq_false, eq_apart}
use radar_asset.Repository.Mirror.{
  positions_of, IsMirrored, IsRebuilt, own_positions, other_positions,
}
use radar_asset.Repository.Keys.{IsFresh, portfolio_of-is_owned}
use radar_asset.Repository.Steps.{create-IsCreated, portfolio_and_asset-portfolio}

module _ {ℓ} {N : Type ℓ} ⦃num : Number N⦄ where
  without_row-append :
      (row : TransactionRow N) (rows : List (TransactionRow N))
      → IsFresh row.id rows
      → without_row row.id (rows ++ row ∷ []) ≡ rows
  unfolding without_row
  without_row-append row rows fresh =
      let other = λ (x : TransactionRow N). not (x.id == row.id) in
      keep-append other rows (row ∷ [])
      ∙ ap₂ (λ a b. a ++ b)
          (keep_whole other rows (
            All-of-Memᴰ (λ x. other x ≡ true) rows
              (λ x m. ap not (eq_false x.id row.id (fresh x m)))))
          (keep-none other (row ∷ []) (ap not (eq_refl row.id), tt))
      ∙ append-nil rows

  -- The row that was appended is the one that a request of its organisation finds.
  found_again :
      (context : TenantContext) (db : Database N) (rows : List (TransactionRow N))
      (row : TransactionRow N) (p : PortfolioRow)
      → IsFresh row.id rows
      → portfolio_of context.organization_id db.portfolios ≡ some p
      → row.portfolio_id ≡ p.id
      → find (is_transaction context row.id db) (rows ++ row ∷ []) ≡ some row
  unfolding find is_owned portfolio_of
  found_again context db rows row p fresh found same =
      let org = context.organization_id in
      let owned =
        subst (λ q. is_owned org db.portfolios q ≡ true) (sym same)
          (portfolio_of-is_owned org db.portfolios p found) in
      find-append (is_transaction context row.id db) rows (row ∷ []) (
        All-of-Memᴰ (λ x. is_transaction context row.id db x ≡ false) rows
          (λ x m. rw (eq_false x.id row.id (fresh x m)) refl))
      ∙ rw (eq_refl row.id, owned) refl

  delete-returns :
      (compare : String → String → Sign) (context : TenantContext) (id : String) (db : Database N)
      (row : TransactionRow N)
      → find (is_transaction context id db) db.transactions ≡ some row
      → {ledger : ReplayResult N}
      → replay_rows compare db.assets
          (rows_of row.portfolio_id (without_row row.id db.transactions))
        ≡ ok ledger
      → delete_portfolio_transaction compare context id db
        ≡ ok (
            given_back (nonempty row.source_signal_id) (record db {
              transactions = without_row row.id db.transactions;
              positions = replace_positions row.portfolio_id ledger.positions db.positions;
            }))
  unfolding delete_portfolio_transaction rebuild_portfolio_positions
  delete-returns compare context id db row there replayed = rw (there, replayed) refl

  -- The transaction acts on the signals only.
  acted_on-signals :
      (moment : Moment) (signal : Option SignalRow) (db : Database N)
      → (signals : List SignalRow) × (acted_on moment signal db ≡ record db { signals = signals })
  acted_on-signals moment none db = (db.signals, refl)
  acted_on-signals moment (some s) db = (_, refl)

  pub acted_on-rows :
      (moment : Moment) (signal : Option SignalRow) (db : Database N)
      → ((acted_on moment signal db).transactions ≡ db.transactions)
        × ((acted_on moment signal db).positions ≡ db.positions)
  acted_on-rows moment none db = (refl, refl)
  acted_on-rows moment (some s) db = (refl, refl)

  pub given_back-rows :
      (source : Option String) (db : Database N)
      → ((given_back source db).transactions ≡ db.transactions)
        × ((given_back source db).positions ≡ db.positions)
  given_back-rows none db = (refl, refl)
  given_back-rows (some id) db = (refl, refl)

  -- What the deletion of a created transaction comes back to.
  pub record IsUndone (compare : String → String → Sign) (context : TenantContext) (id : String)
      (db out : Database N) : Type ℓ where
    pub back : Database N
    pub deleted : delete_portfolio_transaction compare context id out ≡ ok back
    pub transactions : back.transactions ≡ db.transactions
    pub positions : (q : String) → positions_of q back.positions ≡ positions_of q db.positions

  undone :
      (compare : String → String → Sign) (context : TenantContext) (db : Database N)
      (p : PortfolioRow) (row : TransactionRow N) (signals : List SignalRow)
      (before after : ReplayResult N)
      → IsFresh row.id db.transactions
      → portfolio_of context.organization_id db.portfolios ≡ some p
      → row.portfolio_id ≡ p.id
      → replay_rows compare db.assets (rows_of row.portfolio_id db.transactions) ≡ ok before
      → positions_of row.portfolio_id db.positions
        ≡ map (to_position_row row.portfolio_id) before.positions
      → IsUndone compare context row.id db (record db {
        transactions = db.transactions ++ row ∷ [];
        positions = replace_positions row.portfolio_id after.positions db.positions;
        signals = signals;
      })
  undone compare context db p row signals before after fresh found same replayed stored =
      let out = record db {
        transactions = db.transactions ++ row ∷ [];
        positions = replace_positions row.portfolio_id after.positions db.positions;
        signals = signals;
      } in
      let rows = without_row-append row db.transactions fresh in
      let source = nonempty row.source_signal_id in
      let back = record out {
        transactions = without_row row.id out.transactions;
        positions = replace_positions row.portfolio_id before.positions out.positions;
      } in
      record {
        back = given_back source back;
        deleted =
            delete-returns compare context row.id out row
              (found_again context db db.transactions row p fresh found same)
              (ap (λ rs. replay_rows compare db.assets (rows_of row.portfolio_id rs)) rows
                ∙ replayed);
        transactions = (given_back-rows source back).0 ∙ rows;
        positions = λ q.
            ap (positions_of q) (given_back-rows source back).1
            ∙ elim (Bool-cases (row.portfolio_id == q)) [
              | inl y ↦
                  subst (λ q. positions_of q back.positions ≡ positions_of q db.positions)
                    ((eq_iff row.portfolio_id q).0 y)
                    (own_positions row.portfolio_id before.positions out.positions ∙ sym stored)
              | inr n ↦
                  let apart = λ (e : row.portfolio_id ≡ q). eq_apart row.portfolio_id q n e in
                  other_positions row.portfolio_id q before.positions out.positions apart
                  ∙ other_positions row.portfolio_id q after.positions db.positions apart
            ];
      }

  -- Where a creation with a fresh id returns, and the stored positions of every portfolio are those of its
  -- replay, a deletion of the created transaction by the same organisation returns as well, and leaves the
  -- transactions that were there before the creation and, for every portfolio, the positions that were
  -- stored for it.
  pub create-delete :
      (compare : String → String → Sign) (context : TenantContext) (moment : Moment)
      (input : TransactionInput N) (db out : Database N)
      → IsFresh moment.new_id db.transactions
      → ((q : String) → IsMirrored compare q db)
      → create_portfolio_transaction compare context moment input db ≡ ok out
      → IsUndone compare context moment.new_id db out
  create-delete compare context moment input db out fresh mirrored e =
      let c = create-IsCreated compare context moment input db e in
      let (signals, acted) = acted_on-signals moment c.signal c.rebuilt in
      let id = c.same_id in
      let m = mirrored c.row.portfolio_id in
      let own = sym c.same_portfolio in
      let step =
        subst
          (λ q.
            IsRebuilt compare q (record db { transactions = db.transactions ++ c.row ∷ [] })
              c.rebuilt)
          own c.step in
      let whole =
        c.result ∙ acted ∙ ap (λ (x : Database N). record x { signals = signals }) step.result in
      subst (λ i. IsUndone compare context i db out) id
        (subst (IsUndone compare context c.row.id db) (sym whole) (
          undone compare context db c.portfolio c.row signals m.ledger step.ledger
            (subst (λ i. IsFresh i db.transactions) (sym id) fresh)
            (portfolio_and_asset-portfolio context input.symbol db c.found) c.same_portfolio
            m.replayed m.stored))
