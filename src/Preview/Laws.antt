-- ===== src/Preview/Laws.antt =====
-- The preview and the ledger agree on a trade.
use radar_asset.Base.{
  ◌≡◌, refl, ◌↔◌, inl, inr, Option, none, some, if◌then◌else◌, Bool-cases, ok, >>=-eq-ok, ok_inj,
  arith,
}
use radar_asset.Base.Number.{Number, of_ℕ}
use radar_asset.Ledger.{
  TransactionType, buy, sell, Position, Transaction, round, dispatch, opened, bought, sold,
  apply_portfolio_transaction,
}
use radar_asset.Preview.{
  Holding, PreviewInput, TransactionPreview, check_values, preview_buy, preview_sell, preview_side,
  build_transaction_preview,
}

module _ {ℓ} {N : Type ℓ} ⦃num : Number N⦄ where
  abbrev holding_of : Option (Position N) → Option (Holding N)
  holding_of none = none
  holding_of (some p) = some (record { qty = p.quantity; cost = p.average_cost })

  -- The trade that a preview is of, given the position that it shows as the holding.
  abbrev pub input_for : Option (Position N) → Transaction N → PreviewInput N
  input_for current t = record {
    side = t.kind;
    quantity = t.quantity;
    price = t.price;
    fee = t.fee;
    holding = holding_of current;
  }

  abbrev pub input_of : Position N → Transaction N → PreviewInput N
  input_of p t = input_for (some p) t

  -- What the ledger makes of the trade: the previewed quantity, rounded, and the previewed cost.
  abbrev pub IsRealised : TransactionPreview N → Position N → Type ℓ
  IsRealised v next =
      (next.quantity ≡ round v.projected_quantity 8)
      × (next.average_cost
          ≡ (if num.same v.projected_quantity (of_ℕ 0) then of_ℕ 0 else v.projected_average_cost))

  sold_alike :
      (p : Position N) (t : Transaction N)
      → IsRealised
          (preview_sell (input_of p t) (record { qty = p.quantity; cost = p.average_cost }))
          (sold p t)
  unfolding preview_sell sold
  sold_alike p t = (refl, ground arith)

  -- The sums of the two agree if the addition of costs may be regrouped for this trade.
  bought_alike :
      (p : Position N) (t : Transaction N)
      → num.plus
          (num.plus (num.times p.quantity p.average_cost) (num.times t.quantity t.price))
          t.fee
        ≡ num.plus
            (num.times p.quantity p.average_cost)
            (num.plus (num.times t.quantity t.price) t.fee)
      → IsRealised (preview_buy (input_of p t)) (bought p t)
  unfolding preview_buy bought
  bought_alike p t regroup = (refl, rw regroup refl)

  realised :
      (kind : TransactionType) (p : Position N) (t : Transaction N) {v : TransactionPreview N}
      → num.plus
          (num.plus (num.times p.quantity p.average_cost) (num.times t.quantity t.price))
          t.fee
        ≡ num.plus
            (num.times p.quantity p.average_cost)
            (num.plus (num.times t.quantity t.price) t.fee)
      → preview_side kind (input_of p t) ≡ ok v
      → (next : Position N) × (dispatch kind (some p) t ≡ ok next) × IsRealised v next
  realised buy p t regroup h = (bought p t, refl, rw (← ok_inj h) (bought_alike p t regroup))
  realised sell p t regroup h = elim (Bool-cases (num.lt p.quantity t.quantity)) [
    | inl above ↦ cc (rw above at h)
    | inr within ↦ (sold p t, rw within refl, rw (← ok_inj (rw within at h)) (sold_alike p t))
  ]

  -- A trade whose preview on a held position is valid is one that the ledger accepts on that position.
  -- The ledger's new quantity is the previewed one, rounded to 8 digits; its new average cost is the
  -- previewed one, or 0 where the previewed quantity is 0. The condition is that the costs of this trade
  -- add up to the same number in either grouping.
  pub build_transaction_preview-IsRealised :
      (p : Position N) (t : Transaction N) {v : TransactionPreview N}
      → num.plus
          (num.plus (num.times p.quantity p.average_cost) (num.times t.quantity t.price))
          t.fee
        ≡ num.plus
            (num.times p.quantity p.average_cost)
            (num.plus (num.times t.quantity t.price) t.fee)
      → build_transaction_preview (input_of p t) ≡ ok v
      → (next : Position N) × (apply_portfolio_transaction (some p) t ≡ ok next) × IsRealised v next
  unfolding build_transaction_preview apply_portfolio_transaction
  build_transaction_preview-IsRealised p t regroup h =
      let (u, checked, rest) = >>=-eq-ok (check_values (input_of p t)) _ h in
      realised t.kind p t regroup rest

  previewed :
      (kind : TransactionType) (current : Option (Position N)) (t : Transaction N)
      {next : Position N}
      → dispatch kind current t ≡ ok next
      → (v : TransactionPreview N) × (preview_side kind (input_for current t) ≡ ok v)
  previewed buy current t h = (preview_buy (input_for current t), refl)
  previewed sell none t h = cc
  previewed sell (some p) t h = elim (Bool-cases (num.lt p.quantity t.quantity)) [
    | inl above ↦ cc (rw above at h)
    | inr within ↦ (
      preview_sell (input_of p t) (record { qty = p.quantity; cost = p.average_cost }),
      rw within refl,
    )
  ]

  dispatched :
      (kind : TransactionType) (current : Option (Position N)) (t : Transaction N)
      {v : TransactionPreview N}
      → preview_side kind (input_for current t) ≡ ok v
      → (next : Position N) × (dispatch kind current t ≡ ok next)
  dispatched buy none t h = (opened t, refl)
  dispatched buy (some p) t h = (bought p t, refl)
  dispatched sell none t h = cc
  dispatched sell (some p) t h = elim (Bool-cases (num.lt p.quantity t.quantity)) [
    | inl above ↦ cc (rw above at h)
    | inr within ↦ (sold p t, rw within refl)
  ]

  -- The preview of a trade, on a position or on none, is valid exactly where the check of its values
  -- passes and the ledger accepts the trade.
  pub build_transaction_preview-valid_iff :
      (current : Option (Position N)) (t : Transaction N)
      → ((v : TransactionPreview N) × (build_transaction_preview (input_for current t) ≡ ok v)) ↔ (
          (check_values (input_for current t) ≡ ok tt)
          × ((next : Position N) × (apply_portfolio_transaction current t ≡ ok next)))
  unfolding build_transaction_preview apply_portfolio_transaction
  build_transaction_preview-valid_iff current t = (
    λ (v, h).
        let (u, checked, rest) = >>=-eq-ok (check_values (input_for current t)) _ h in
        (checked, dispatched t.kind current t rest),
    λ (checked, (next, accepted)).
        let (v, shown) = previewed t.kind current t accepted in (v, rw checked shown),
  )
