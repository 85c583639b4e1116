-- ===== src/Repository/Laws.antt =====
-- What the sequences of creations, changes and deletions of transactions keep.
use Prim.Native.String.{String}
use mathlib.Core.List.{append-nil}
use text.Mathlib.Text.{◌==◌}
use text.Mathlib.TextEquality.{eq_iff}
use radar_asset.Base.{
  ◌≡◌, refl, sym, ap, ◌∙◌, subst, ◌≢◌, inl, inr, Option, none, some, List, [], ◌∷◌, ◌++◌,
  Bool-cases, ok, keep, keep-append, keep-none, find-true,
}
use radar_asset.Base.Number.{Number}
use radar_asset.Ledger.{Sign, nonempty}
use radar_asset.Access.{TenantContext}
use radar_asset.Repository.State.{TransactionRow, SignalRow, Database, TransactionInput, Moment}
use radar_asset.Repository.Rebuild.{of_portfolio}
use radar_asset.Repository.Operations.{
  acted_on, create_portfolio_transaction, is_transaction, change_row, update_portfolio_transaction,
  without_row, given_back, delete_portfolio_transaction,
}
use radar_asset.Base.Equality.{eq_false, eq_apart}
use radar_asset.Repository.Mirror.{
  IsMirrored, IsRebuilt, IsRebuilt-IsMirrored, IsRebuilt-others, unchanged-IsMirrored,
}
use radar_asset.Base.{find-Memᴰ}
use radar_asset.Repository.Keys.{
  HasOnePortfolio, IsKeyed, IsFresh, IsKeyed-IsElsewhere, append-IsKeyed, keep-change_row,
  keep-without_row, change_row-IsKeyed, without_row-IsKeyed, is_transaction-portfolio,
}
use radar_asset.Repository.Steps.{
  create-IsCreated, update-IsUpdated, delete-IsDeleted, portfolio_and_asset-portfolio,
}

module _ {ℓ} {N : Type ℓ} ⦃num : Number N⦄ where
  pub keep-other_row :
      (other : String) (row : TransactionRow N) (rows : List (TransactionRow N))
      → row.portfolio_id ≢ other
      → keep (of_portfolio other) (rows ++ row ∷ []) ≡ keep (of_portfolio other) rows
  keep-other_row other row rows apart =
      keep-append (of_portfolio other) rows (row ∷ [])
      ∙ ap (λ k. keep (of_portfolio other) rows ++ k)
          (keep-none (of_portfolio other) (row ∷ []) (eq_false row.portfolio_id other apart, tt))
      ∙ append-nil (keep (of_portfolio other) rows)

module _ {ℓ} {N : Type ℓ} ⦃num : Number N⦄ (compare : String → String → Sign) where
  -- One request that returns: the database gives a new row an id of its own.
  pub data Step (db out : Database N) : Type ℓ where
    created :
        (context : TenantContext) (moment : Moment) (input : TransactionInput N)
        → IsFresh moment.new_id db.transactions
        → create_portfolio_transaction compare context moment input db ≡ ok out
        → Step db out
    updated :
        (context : TenantContext) (moment : Moment) (id : String) (input : TransactionInput N)
        → update_portfolio_transaction compare context moment id input db ≡ ok out
        → Step db out
    deleted :
        (context : TenantContext) (id : String)
        → delete_portfolio_transaction compare context id db ≡ ok out
        → Step db out

  -- The databases that requests lead to, one after another.
  pub data Reaches (db : Database N) : Database N → Type ℓ where
    start : Reaches db db
    next : {mid out : Database N} → Reaches db mid → Step mid out → Reaches db out

  -- Every portfolio's stored positions are those of its replay, and the ids of the rows are keys.
  pub record IsConsistent (db : Database N) : Type ℓ where
    pub one : HasOnePortfolio db
    pub keyed : IsKeyed db.transactions
    pub mirrored : (portfolio_id : String) → IsMirrored compare portfolio_id db

  -- What a rebuild after a change of the rows does, where the rows of the other portfolios are as before.
  rebuilt-IsConsistent :
      (portfolio_id : String) (rows : List (TransactionRow N)) (db out : Database N)
      → IsKeyed rows
      → ((other : String)
          → portfolio_id ≢ other
          → keep (of_portfolio other) rows ≡ keep (of_portfolio other) db.transactions)
      → IsRebuilt compare portfolio_id (record db { transactions = rows }) out
      → IsConsistent db
      → IsConsistent out
  unfolding HasOnePortfolio
  rebuilt-IsConsistent portfolio_id rows db out keyed others step h = record {
    one = subst HasOnePortfolio (sym step.result) h.one;
    keyed = subst (λ (x : Database N). IsKeyed x.transactions) (sym step.result) keyed;
    mirrored = λ other. elim (Bool-cases (portfolio_id == other)) [
      | inl y ↦
          subst (λ q. IsMirrored compare q out) ((eq_iff portfolio_id other).0 y)
            (IsRebuilt-IsMirrored compare portfolio_id (record db { transactions = rows }) step)
      | inr n ↦
          let apart = λ (e : portfolio_id ≡ other). eq_apart portfolio_id other n e in
          unchanged-IsMirrored compare other db out (ap (λ (x : Database N). x.assets) step.result)
            (ap (λ (x : Database N). keep (of_portfolio other) x.transactions) step.result
              ∙ others other apart)
            (IsRebuilt-others compare portfolio_id other (record db { transactions = rows }) step
              apart)
            (h.mirrored other)
    ];
  }

  signals-IsConsistent :
      (signals : List SignalRow) (db : Database N)
      → IsConsistent db
      → IsConsistent (record db { signals = signals })
  unfolding HasOnePortfolio
  signals-IsConsistent signals db h = record {
    one = h.one;
    keyed = h.keyed;
    mirrored = λ q.
        unchanged-IsMirrored compare q db (record db { signals = signals }) refl refl refl
          (h.mirrored q);
  }

  acted_on-IsConsistent :
      (moment : Moment) (signal : Option SignalRow) (db : Database N)
      → IsConsistent db
      → IsConsistent (acted_on moment signal db)
  acted_on-IsConsistent moment none db h = h
  acted_on-IsConsistent moment (some s) db h = signals-IsConsistent _ db h

  given_back-IsConsistent :
      (source : Option String) (db : Database N)
      → IsConsistent db
      → IsConsistent (given_back source db)
  given_back-IsConsistent none db h = h
  given_back-IsConsistent (some id) db h = signals-IsConsistent _ db h

  -- A request keeps the database consistent.
  Step-IsConsistent : (db out : Database N) → Step db out → IsConsistent db → IsConsistent out
  Step-IsConsistent db out (created context moment input fresh e) h =
      let c = create-IsCreated compare context moment input db e in
      let rows = db.transactions ++ c.row ∷ [] in
      subst IsConsistent (sym c.result) (
        acted_on-IsConsistent moment c.signal c.rebuilt (
          rebuilt-IsConsistent c.portfolio.id rows db c.rebuilt
            (append-IsKeyed c.row db.transactions
              (subst (λ id. IsFresh id db.transactions) (sym c.same_id) fresh) h.keyed)
            (λ other apart.
              keep-other_row other c.row db.transactions (λ e'. apart (sym c.same_portfolio ∙ e')))
            c.step h))
  Step-IsConsistent db out (updated context moment id input e) h =
      let u = update-IsUpdated compare context moment id input db e in
      let own =
        is_transaction-portfolio context id db u.portfolio u.existing h.one
          (portfolio_and_asset-portfolio context input.symbol db u.found)
          (find-true (is_transaction context id db) db.transactions u.there) in
      rebuilt-IsConsistent u.portfolio.id (change_row u.existing.id u.change db.transactions) db out
        (change_row-IsKeyed u.existing.id u.change u.same_portfolio u.same_id db.transactions
          h.keyed)
        (λ other apart.
          keep-change_row u.existing.id other u.change db.transactions u.same_portfolio (
            IsKeyed-IsElsewhere other u.existing db.transactions h.keyed
              (find-Memᴰ (is_transaction context id db) db.transactions u.there)
              (λ e'. apart (sym own ∙ e'))))
        u.step h
  Step-IsConsistent db out (deleted context id e) h =
      let d = delete-IsDeleted compare context id db e in
      subst IsConsistent (sym d.result) (
        given_back-IsConsistent (nonempty d.existing.source_signal_id) d.rebuilt (
          rebuilt-IsConsistent d.existing.portfolio_id (without_row d.existing.id db.transactions)
            db d.rebuilt (without_row-IsKeyed d.existing.id db.transactions h.keyed)
            (λ other apart. keep-without_row d.existing.id other db.transactions (
              IsKeyed-IsElsewhere other d.existing db.transactions h.keyed
                (find-Memᴰ (is_transaction context id db) db.transactions d.there) apart))
            d.step h))

  -- Whatever creations, changes and deletions of transactions follow one another, with a fresh id for each
  -- created row: from a database in which no organisation has two portfolios, transaction rows of one id
  -- are of one portfolio, and the stored positions of every portfolio are those that the replay of its
  -- stored transactions gives, they lead only to databases of which the same is true.
  pub Reaches-IsConsistent :
      (db out : Database N) → Reaches db out → IsConsistent db → IsConsistent out
  Reaches-IsConsistent db out start h = h
  Reaches-IsConsistent db out (next {mid} before step) h =
      Step-IsConsistent mid out step (Reaches-IsConsistent db mid before h)
