-- ===== src/Repository/Keys.antt =====
-- The identities of the rows: what the primary key of the transactions and the owners of the portfolios
-- say of the rows that an operation touches.
use Prim.Native.String.{String}
use mathlib.Core.List.{Memᴰ}
use text.Mathlib.Text.{◌==◌}
use text.Mathlib.TextEquality.{eq_iff}
use text.Mathlib.TextPositions.{eq_refl}
use radar_asset.Base.{
  find-Memᴰ, any-Memᴰ, any-of_Memᴰ, Memᴰ-append, Memᴰ-keep, ◌≡◌, refl, sym, ap, ◌∙◌, ◌≢◌, inl, inr,
  true, not, ◌&&◌, &&-eq-true, some, List, [], ◌∷◌, ◌++◌, Bool-cases, All-of-Memᴰ, find-true, keep,
  keep-keep,
}
use radar_asset.Base.Number.{Number}
use radar_asset.Access.{TenantContext}
use radar_asset.Repository.State.{PortfolioRow, TransactionRow, Database}
use radar_asset.Repository.Rebuild.{of_portfolio}
use radar_asset.Repository.Operations.{
  portfolio_of, is_owned, is_transaction, change_row, without_row,
}
use radar_asset.Base.Equality.{eq_false}

-- The portfolio found for an organisation is one of its own.
pub portfolio_of-is_owned :
    (org : String) (portfolios : List PortfolioRow) (p : PortfolioRow)
    → portfolio_of org portfolios ≡ some p
    → is_owned org portfolios p.id ≡ true
unfolding portfolio_of is_owned
portfolio_of-is_owned org portfolios p found =
    any-of_Memᴰ (λ q. (q.id == p.id) && (q.organization_id == org)) portfolios p
      (find-Memᴰ (λ p. p.organization_id == org) portfolios found)
      (rw (eq_refl p.id, find-true (λ p. p.organization_id == org) portfolios found) refl)

-- An organisation has at most one portfolio.
unfoldable pub HasOnePortfolio {ℓ} : {N : Type ℓ} → Database N → Type 0
HasOnePortfolio db =
    (p q : PortfolioRow)
    → Memᴰ p db.portfolios
    → Memᴰ q db.portfolios
    → p.organization_id ≡ q.organization_id
    → p.id ≡ q.id

-- The primary key: rows of one id are of one portfolio.
unfoldable pub IsKeyed {ℓ} : {N : Type ℓ} → List (TransactionRow N) → Type ℓ
IsKeyed {N = N} rows =
    (a b : TransactionRow N)
    → Memᴰ a rows
    → Memᴰ b rows
    → a.id ≡ b.id
    → a.portfolio_id ≡ b.portfolio_id

module _ {ℓ} {N : Type ℓ} where
  -- The rows of the id are not of the portfolio.
  abbrev pub IsElsewhere : String → String → List (TransactionRow N) → Type ℓ
  IsElsewhere id portfolio_id rows =
      (row : TransactionRow N) → Memᴰ row rows → row.id ≡ id → row.portfolio_id ≢ portfolio_id

  pub IsKeyed-IsElsewhere :
      (portfolio_id : String) (row : TransactionRow N) (rows : List (TransactionRow N))
      → IsKeyed rows
      → Memᴰ row rows
      → row.portfolio_id ≢ portfolio_id
      → IsElsewhere row.id portfolio_id rows
  unfolding IsKeyed
  IsKeyed-IsElsewhere portfolio_id row rows keyed m apart other k same e =
      apart (sym (keyed other row k m same) ∙ e)

  -- No row has the id yet.
  abbrev pub IsFresh : String → List (TransactionRow N) → Type ℓ
  IsFresh id rows = (row : TransactionRow N) → Memᴰ row rows → row.id ≢ id

  pub append-IsKeyed :
      (row : TransactionRow N) (rows : List (TransactionRow N))
      → IsFresh row.id rows
      → IsKeyed rows
      → IsKeyed (rows ++ row ∷ [])
  unfolding IsKeyed
  append-IsKeyed row rows fresh keyed a b m k e = elim (Memᴰ-append rows (row ∷ []) m) [
    | inl m' ↦ elim (Memᴰ-append rows (row ∷ []) k) [
      | inl k' ↦ keyed a b m' k' e
      | inr (Memᴰ.head eb) ↦ elim (fresh a m' (e ∙ ap (λ r. r.id) eb)) [ ]
      | inr (Memᴰ.tail n) ↦ elim n [ ]
    ]
    | inr (Memᴰ.head ea) ↦ elim (Memᴰ-append rows (row ∷ []) k) [
      | inl k' ↦ elim (fresh b k' (sym e ∙ ap (λ r. r.id) ea)) [ ]
      | inr (Memᴰ.head eb) ↦ ap (λ r. r.portfolio_id) (ea ∙ sym eb)
      | inr (Memᴰ.tail n) ↦ elim n [ ]
    ]
    | inr (Memᴰ.tail n) ↦ elim n [ ]
  ]

module _ {ℓ} {N : Type ℓ} ⦃num : Number N⦄ where
  pub keep-change_row :
      (id portfolio_id : String) (change : TransactionRow N → TransactionRow N)
      (rows : List (TransactionRow N))
      → ((row : TransactionRow N) → (change row).portfolio_id ≡ row.portfolio_id)
      → IsElsewhere id portfolio_id rows
      → keep (of_portfolio portfolio_id) (change_row id change rows)
        ≡ keep (of_portfolio portfolio_id) rows
  unfolding keep change_row
  keep-change_row id portfolio_id change [] same h = refl
  keep-change_row id portfolio_id change (row ∷ rows) same h =
      let ih = keep-change_row id portfolio_id change rows same (λ r m. h r (Memᴰ.tail m)) in
      elim (Bool-cases (row.id == id)) [
        | inl y ↦
            let e =
              eq_false row.portfolio_id portfolio_id
                (h row (Memᴰ.head refl) ((eq_iff row.id id).0 y)) in
            rw (y, same row, e, ih) refl
        | inr n ↦ rw (n, ih) refl
      ]

  pub keep-without_row :
      (id portfolio_id : String) (rows : List (TransactionRow N))
      → IsElsewhere id portfolio_id rows
      → keep (of_portfolio portfolio_id) (without_row id rows)
        ≡ keep (of_portfolio portfolio_id) rows
  unfolding without_row
  keep-without_row id portfolio_id rows h =
      keep-keep (λ row. not (row.id == id)) (of_portfolio portfolio_id) rows
        (All-of-Memᴰ (λ x. of_portfolio portfolio_id x ≡ true → not (x.id == id) ≡ true) rows
          (λ x m own.
            ap not (eq_false x.id id (λ e. h x m e ((eq_iff x.portfolio_id portfolio_id).0 own)))))

  -- A row of the changed list stands for one of the list, with its id and its portfolio.
  pub Memᴰ-change_row :
      (id : String) (change : TransactionRow N → TransactionRow N)
      → ((row : TransactionRow N) → (change row).portfolio_id ≡ row.portfolio_id)
      → ((row : TransactionRow N) → (change row).id ≡ row.id)
      → (rows : List (TransactionRow N)) (a : TransactionRow N) → Memᴰ a (change_row id change rows)
      → (b : TransactionRow N) × Memᴰ b rows × (a.id ≡ b.id) × (a.portfolio_id ≡ b.portfolio_id)
  unfolding change_row
  Memᴰ-change_row id change same same_id [] a m = elim m [ ]
  Memᴰ-change_row id change same same_id (row ∷ rows) a (Memᴰ.head e) =
      elim (Bool-cases (row.id == id)) [
        | inl y ↦
            let e1 = rw y at e in
            (
              row,
              Memᴰ.head refl,
              ap (λ r. r.id) e1 ∙ same_id row,
              ap (λ r. r.portfolio_id) e1 ∙ same row,
            )
        | inr n ↦
            let e1 = rw n at e in
            (row, Memᴰ.head refl, ap (λ r. r.id) e1, ap (λ r. r.portfolio_id) e1)
      ]
  Memᴰ-change_row id change same same_id (row ∷ rows) a (Memᴰ.tail m) =
      let (b, k, e, e') = Memᴰ-change_row id change same same_id rows a m in (b, Memᴰ.tail k, e, e')

  pub change_row-IsKeyed :
      (id : String) (change : TransactionRow N → TransactionRow N)
      → ((row : TransactionRow N) → (change row).portfolio_id ≡ row.portfolio_id)
      → ((row : TransactionRow N) → (change row).id ≡ row.id)
      → (rows : List (TransactionRow N)) → IsKeyed rows
      → IsKeyed (change_row id change rows)
  unfolding IsKeyed
  change_row-IsKeyed id change same same_id rows keyed a b m k e =
      let (a', m', ea, pa) = Memᴰ-change_row id change same same_id rows a m in
      let (b', k', eb, pb) = Memᴰ-change_row id change same same_id rows b k in
      pa ∙ keyed a' b' m' k' (sym ea ∙ e ∙ eb) ∙ sym pb

  pub without_row-IsKeyed :
      (id : String) (rows : List (TransactionRow N)) → IsKeyed rows → IsKeyed (without_row id rows)
  unfolding IsKeyed without_row
  without_row-IsKeyed id rows keyed a b m k e =
      let p = λ (row : TransactionRow N). not (row.id == id) in
      keyed a b (Memᴰ-keep p rows m) (Memᴰ-keep p rows k) e

  -- The transaction that a request finds is of the portfolio that it finds.
  pub is_transaction-portfolio :
      (context : TenantContext) (id : String) (db : Database N) (p : PortfolioRow)
      (row : TransactionRow N)
      → HasOnePortfolio db
      → portfolio_of context.organization_id db.portfolios ≡ some p
      → is_transaction context id db row ≡ true
      → row.portfolio_id ≡ p.id
  unfolding HasOnePortfolio portfolio_of is_owned
  is_transaction-portfolio context id db p row one found e =
      let org = context.organization_id in
      let (q, m, both) =
        any-Memᴰ (λ p. (p.id == row.portfolio_id) && (p.organization_id == org)) db.portfolios
          (&&-eq-true (row.id == id) (is_owned org db.portfolios row.portfolio_id) e).1 in
      let same = one q p m (find-Memᴰ (λ p. p.organization_id == org) db.portfolios found) (
        (eq_iff q.organization_id org).0
          (&&-eq-true (q.id == row.portfolio_id) (q.organization_id == org) both).1
        ∙ sym (
            (eq_iff p.organization_id org).0
              (find-true (λ p. p.organization_id == org) db.portfolios found))) in
      sym (
        (eq_iff q.id row.portfolio_id).0
          (&&-eq-true (q.id == row.portfolio_id) (q.organization_id == org) both).0)
      ∙ same
