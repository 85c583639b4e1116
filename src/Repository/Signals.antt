-- ===== src/Repository/Signals.antt =====
-- A source signal is acted on once, and which stored positions a change of a transaction rebuilds.
use Prim.Native.String.{String}
use mathlib.Core.List.{Memᴰ}
use mathlib.Core.Option.{some-injective}
use text.Mathlib.Text.{◌==◌}
use text.Mathlib.TextEquality.{eq_iff}
use radar_asset.Base.{
  ◌≡◌, refl, sym, ap, ◌∙◌, subst, ◌≢◌, inl, inr, true, ◌&&◌, &&-eq-true, Option, some, List, [],
  ◌∷◌, Bool-cases, All, ok, required, >>=-eq-ok, required-eq-ok, ok_inj, find-sound, find-true,
  find-Memᴰ,
}
use radar_asset.Base.Number.{Number}
use radar_asset.Ledger.{TransactionType, Sign, nonempty}
use radar_asset.Access.{TenantContext}
use radar_asset.Repository.State.{
  signal_scope_mismatch, PortfolioRow, SignalRow, TransactionRow, Database, TransactionInput,
  Moment,
}
use radar_asset.Repository.Operations.{
  validate_source_signal_execution, portfolio_of, set_signal, found_signal, source_signal, acted_on,
  create_portfolio_transaction, update_portfolio_transaction, is_transaction, is_owned, change_row,
}
use radar_asset.Repository.Mirror.{positions_of, IsMirrored, IsRebuilt-IsMirrored, IsRebuilt-others}
use radar_asset.Repository.Steps.{create-IsCreated, update-IsUpdated, portfolio_and_asset-portfolio}

-- The signals of the id have been executed.
abbrev pub IsExecuted : String → List SignalRow → Type 0
IsExecuted id signals = All (λ s. (s.id == id) ≡ true → s.status ≡ "executed") signals

set_signal-IsExecuted :
    (id : String) (at : Option String) (signals : List SignalRow)
    → IsExecuted id (set_signal id "executed" at signals)
unfolding set_signal
set_signal-IsExecuted id at [] = tt
set_signal-IsExecuted id at (s ∷ signals) =
    let rest = set_signal-IsExecuted id at signals in
    elim (Bool-cases (s.id == id)) [
      | inl y ↦ rw y ((λ e. refl), rest)
      | inr n ↦ rw n ((λ e. cc), rest)
    ]

source_signal-found :
    (context : TenantContext) (id portfolio_id asset_id : String) (side : TransactionType)
    (signals : List SignalRow) {found : Option SignalRow}
    → source_signal context (some id) portfolio_id asset_id side signals ≡ ok found
    → (s : SignalRow) × (found ≡ some s)
      × (found_signal context id signals ≡ some s)
      × (validate_source_signal_execution s portfolio_id asset_id side ≡ ok tt)
source_signal-found context id portfolio_id asset_id side signals e =
    let (s, there, e1) =
      >>=-eq-ok (required (found_signal context id signals) signal_scope_mismatch) _ e in
    let (u, valid, e2) =
      >>=-eq-ok (validate_source_signal_execution s portfolio_id asset_id side) _ e1 in
    (
      s,
      sym (ok_inj e2),
      required-eq-ok (found_signal context id signals) signal_scope_mismatch there,
      valid,
    )

-- A signal that has been executed passes no check.
executed-fails :
    (context : TenantContext) (id portfolio_id asset_id : String) (side : TransactionType)
    (signals : List SignalRow) {found : Option SignalRow}
    → IsExecuted id signals
    → source_signal context (some id) portfolio_id asset_id side signals ≢ ok found
unfolding validate_source_signal_execution
executed-fails context id portfolio_id asset_id side signals h e =
    let (s, same, there, valid) =
      source_signal-found context id portfolio_id asset_id side signals e in
    let p = λ (s : SignalRow). (s.id == id) && (s.organization_id == context.organization_id) in
    let known = find-sound (λ s. (s.id == id) ≡ true → s.status ≡ "executed") p signals there h in
    let own =
      (&&-eq-true (s.id == id) (s.organization_id == context.organization_id)
        (find-true p signals there)).0 in
    cc (rw (known own) at valid)

module _ {ℓ} {N : Type ℓ} ⦃num : Number N⦄ where
  change_row-Memᴰ :
      (id : String) (change : TransactionRow N → TransactionRow N) (rows : List (TransactionRow N))
      {row : TransactionRow N}
      → Memᴰ row rows
      → row.id ≡ id
      → Memᴰ (change row) (change_row id change rows)
  unfolding change_row
  change_row-Memᴰ id change (r ∷ rows) (Memᴰ.head e) same =
      rw (← e, (eq_iff _ id).1 same) (Memᴰ.head refl)
  change_row-Memᴰ id change (r ∷ rows) (Memᴰ.tail m) same =
      Memᴰ.tail (change_row-Memᴰ id change rows m same)
  change_row-Memᴰ id change [] m same = elim m [ ]

  -- The row of the id, before and after a change.
  pub record IsChanged (id : String) (input : TransactionInput N) (db out : Database N)
      : Type ℓ where
    pub existing : TransactionRow N
    pub changed : TransactionRow N
    pub stored : Memᴰ existing db.transactions
    pub kept : Memᴰ changed out.transactions
    pub existing_id : existing.id ≡ id
    pub same_id : changed.id ≡ id
    pub same_portfolio : changed.portfolio_id ≡ existing.portfolio_id
    pub quantity : changed.quantity ≡ input.quantity
    pub price : changed.price ≡ input.price

module _ {ℓ} {N : Type ℓ} ⦃num : Number N⦄ (compare : String → String → Sign) where
  -- The creation of a transaction with a source signal leaves the signal executed.
  create-IsExecuted :
      (context : TenantContext) (moment : Moment) (input : TransactionInput N) (id : String)
      (db out : Database N)
      → nonempty input.source_signal_id ≡ some id
      → create_portfolio_transaction compare context moment input db ≡ ok out
      → IsExecuted id out.signals
  create-IsExecuted context moment input id db out named e =
      let c = create-IsCreated compare context moment input db e in
      let (s, same, there, valid) =
        source_signal-found context id c.portfolio.id c.asset.id input.kind db.signals
          (rw named at c.checked) in
      let p = λ (s : SignalRow). (s.id == id) && (s.organization_id == context.organization_id) in
      let own =
        (eq_iff s.id id).0
          (&&-eq-true (s.id == id) (s.organization_id == context.organization_id)
            (find-true p db.signals there)).0 in
      subst (λ (x : Database N). IsExecuted id x.signals)
        (sym (c.result ∙ ap (λ o. acted_on moment o c.rebuilt) same))
        (subst (λ i. IsExecuted i (set_signal s.id "executed" (some moment.now) c.rebuilt.signals))
          own (set_signal-IsExecuted s.id (some moment.now) c.rebuilt.signals))

  -- In the database that a creation leaves which returns and names a source signal, no creation that
  -- names the same signal returns, whatever else its request says and whoever makes it.
  pub create-once :
      (context other : TenantContext) (moment later : Moment) (input again : TransactionInput N)
      (id : String) (db out twice : Database N)
      → nonempty input.source_signal_id ≡ some id
      → nonempty again.source_signal_id ≡ some id
      → create_portfolio_transaction compare context moment input db ≡ ok out
      → create_portfolio_transaction compare other later again out ≢ ok twice
  create-once context other moment later input again id db out twice named named_again e e' =
      let c = create-IsCreated compare other later again out e' in
      executed-fails other id c.portfolio.id c.asset.id again.kind out.signals
        (create-IsExecuted context moment input id db out named e) (rw named_again at c.checked)

  update-IsChanged :
      (context : TenantContext) (moment : Moment) (id : String) (input : TransactionInput N)
      (db out : Database N)
      → update_portfolio_transaction compare context moment id input db ≡ ok out
      → IsChanged id input db out
  update-IsChanged context moment id input db out e =
      let u = update-IsUpdated compare context moment id input db e in
      let row = u.existing in
      let own =
        (eq_iff row.id id).0
          (&&-eq-true (row.id == id)
            (is_owned context.organization_id db.portfolios row.portfolio_id)
            (find-true (is_transaction context id db) db.transactions u.there)).0 in
      let there = find-Memᴰ (is_transaction context id db) db.transactions u.there in
      record {
        existing = row;
        changed = u.change row;
        stored = there;
        kept =
            subst (λ (x : Database N). Memᴰ (u.change row) x.transactions) (sym u.step.result)
              (change_row-Memᴰ row.id u.change db.transactions there refl);
        existing_id = own;
        same_id = u.same_id row ∙ own;
        same_portfolio = u.same_portfolio row;
        quantity = (u.as_asked row).0;
        price = (u.as_asked row).1;
      }

  -- A change of a transaction that returns stores the new quantity and price in the row of the id, which
  -- stays in its portfolio, and rebuilds the first portfolio p found for the organisation: the stored
  -- positions of p are then those of the replay of its transactions after the change. Those of every
  -- other portfolio are what they were before it, also where the row of the id is of that portfolio.
  pub update-rebuilds_first :
      (context : TenantContext) (moment : Moment) (id other : String) (input : TransactionInput N)
      (p : PortfolioRow) (db out : Database N)
      → portfolio_of context.organization_id db.portfolios ≡ some p
      → p.id ≢ other
      → update_portfolio_transaction compare context moment id input db ≡ ok out
      → IsChanged id input db out
        × (IsMirrored compare p.id out
            × (positions_of other out.positions ≡ positions_of other db.positions))
  update-rebuilds_first context moment id other input p db out found apart e =
      let u = update-IsUpdated compare context moment id input db e in
      let there = portfolio_and_asset-portfolio context input.symbol db u.found in
      let same = ap (λ (x : PortfolioRow). x.id) (some-injective _ _ (sym there ∙ found)) in
      (
        update-IsChanged context moment id input db out e,
        (
          subst (λ i. IsMirrored compare i out) same
              (IsRebuilt-IsMirrored compare u.portfolio.id _ u.step),
          IsRebuilt-others compare u.portfolio.id other _ u.step (λ q. apart (sym same ∙ q)),
        ),
      )
