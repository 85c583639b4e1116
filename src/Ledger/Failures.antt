-- ===== src/Ledger/Failures.antt =====
-- When a replay throws: only where an asset is unknown or the ledger of one asset alone throws.
use Prim.Native.String.{String}
use mathlib.Core.List.{Memᴰ}
use text.Mathlib.TextPositions.{eq_refl}
use radar_asset.Base.{
  ◌≡◌, refl, sym, ap, ◌∙◌, ◌⊎◌, inl, inr, Option, none, some, List, [], ◌∷◌, if◌then◌else◌,
  Bool-cases, Option-cases, Result-cases, keep, ok, err, err_inj,
}
use radar_asset.Base.Assoc.{Dict, get}
use radar_asset.Base.Number.{Number}
use radar_asset.Ledger.{
  Sign, LedgerError, asset_metadata_missing, position_not_found, insufficient_quantity, buy, sell,
  TransactionType, enrich, Position, LedgerAsset, opened, bought, sold, dispatch, Transaction,
  ReplayState, replay_start, check_available, apply_portfolio_transaction, replay_step, replay_loop,
  asset_map, in_ledger_order, replay_portfolio_ledger,
}
use radar_asset.Ledger.Steps.{is_open, history_step, IsLedger, replay_step-Round, Round-IsLedger}
use radar_asset.Ledger.Replay.{asset_history, of_asset, empty-IsLedger, Round-rest}

abbrev pub IsOverdraw : LedgerError → Type 0
IsOverdraw e = (e ≡ position_not_found) ⊎ (e ≡ insufficient_quantity)

module _ {ℓ} {N : Type ℓ} ⦃num : Number N⦄ where
  dispatched :
      (kind : TransactionType) (current : Option (Position N)) (t : Transaction N)
      → check_available kind current t ≡ ok tt
      → (p : Position N) × (dispatch kind current t ≡ ok p)
  unfolding check_available
  dispatched buy none t h = (opened t, refl)
  dispatched buy (some p) t h = (bought p t, refl)
  dispatched sell none t h = cc
  dispatched sell (some p) t h = elim (Bool-cases (num.lt p.quantity t.quantity)) [
    | inl e ↦ cc (rw e at h)
    | inr e ↦ (sold p t, rw e)
  ]

  -- Once a transaction is available, applying it does not throw.
  pub applies :
      (current : Option (Position N)) (t : Transaction N)
      → check_available t.kind current t ≡ ok tt
      → (p : Position N) × (apply_portfolio_transaction current t ≡ ok p)
  unfolding apply_portfolio_transaction
  applies current t h = dispatched t.kind current t h

  pub data IsRefused (assets : Dict (LedgerAsset N)) (s : ReplayState N) (t : Transaction N)
      (e : LedgerError) : Type ℓ where
    unknown_asset :
        get t.asset_id assets ≡ none → e ≡ asset_metadata_missing → IsRefused assets s t e
    unavailable :
        (asset : LedgerAsset N)
        → get t.asset_id assets ≡ some asset
        → check_available t.kind (get t.asset_id s.positions) t ≡ err e
        → IsRefused assets s t e

  replay_step-IsRefused :
      (assets : Dict (LedgerAsset N)) (s : ReplayState N) (t : Transaction N) {e : LedgerError}
      → replay_step assets s t ≡ err e
      → IsRefused assets s t e
  unfolding replay_step
  replay_step-IsRefused assets s t {e} h = elim (Option-cases (get t.asset_id assets)) [
    | inl missing ↦ unknown_asset missing (sym (err_inj (rw missing at h)))
    | inr (asset, known) ↦
        let current = get t.asset_id s.positions in
        elim (Result-cases (check_available t.kind current t)) [
          | inr (x, refused) ↦
              unavailable asset known (refused ∙ ap err (err_inj (rw (known, refused) at h)))
          | inl (u, available) ↦
              let (p, applied) = applies current t available in
              cc (rw (known, available, applied) at h)
        ]
  ]

  -- Where a replay throws, an asset of the ledger is not known, or the ledger of one asset alone
  -- throws the same error.
  replay_loop-fails :
      (assets : Dict (LedgerAsset N)) (s : ReplayState N) (ts : List (Transaction N))
      {e : LedgerError}
      → IsLedger s.positions
      → replay_loop assets s ts ≡ err e
      → ((t : Transaction N) × Memᴰ t ts
          × (get t.asset_id assets ≡ none)
          × (e ≡ asset_metadata_missing))
        ⊎ ((k : String) × (asset : LedgerAsset N) × (get k assets ≡ some asset)
            × (asset_history asset (get k s.positions) (keep (of_asset k) ts) ≡ err e))
  unfolding replay_loop asset_history keep history_step
  replay_loop-fails assets s [] inv h = cc
  replay_loop-fails assets s (t ∷ ts) {e} inv h = elim (Result-cases (replay_step assets s t)) [
    | inr (x, refused) ↦
        elim (replay_step-IsRefused assets s t
          (refused ∙ ap err (err_inj (rw (refused, replay_loop) at h)))) [
            | unknown_asset missing same ↦ inl (t, Memᴰ.head refl, missing, same)
            | unavailable asset known bad ↦
                inr (t.asset_id, asset, known, rw (eq_refl t.asset_id, bad))
          ]
    | inl (next, stepped) ↦
        let r = replay_step-Round assets s t stepped in
        elim (replay_loop-fails assets next ts (Round-IsLedger r inv)
          (rw (stepped, replay_loop) at h)) [
            | inl (u, m, missing, same) ↦ inl (u, Memᴰ.tail m, missing, same)
            | inr (k, asset, known, bad) ↦ inr (k, asset, known, Round-rest r k ts inv known ∙ bad)
          ]
  ]

  -- A replay throws only if an asset of the ledger has no metadata, with that error, or if the ledger
  -- of one asset alone, in the same order, throws the error.
  pub replay_portfolio_ledger-fails :
      (compare : String → String → Sign) (assets : List (LedgerAsset N)) (ts : List (Transaction N))
      {e : LedgerError}
      → replay_portfolio_ledger compare assets ts ≡ err e
      → ((t : Transaction N) × Memᴰ t (in_ledger_order compare ts)
          × (get t.asset_id (asset_map [] assets) ≡ none)
          × (e ≡ asset_metadata_missing))
        ⊎ ((k : String) × (asset : LedgerAsset N) × (get k (asset_map [] assets) ≡ some asset)
            × (asset_history asset none (keep (of_asset k) (in_ledger_order compare ts)) ≡ err e))
  unfolding replay_portfolio_ledger get
  replay_portfolio_ledger-fails compare assets ts {e} h =
      elim (Result-cases
        (replay_loop (asset_map [] assets) replay_start (in_ledger_order compare ts))) [
          | inl (s, looped) ↦ cc (rw looped at h)
          | inr (x, looped) ↦
              replay_loop-fails (asset_map [] assets) replay_start (in_ledger_order compare ts)
                empty-IsLedger (looped ∙ ap err (err_inj (rw looped at h)))
        ]

  check_available-IsOverdraw :
      (kind : TransactionType) (current : Option (Position N)) (t : Transaction N) {e : LedgerError}
      → check_available kind current t ≡ err e
      → IsOverdraw e
  unfolding check_available
  check_available-IsOverdraw buy current t h = cc
  check_available-IsOverdraw sell none t h = inl (sym (err_inj h))
  check_available-IsOverdraw sell (some p) t h = elim (Bool-cases (num.lt p.quantity t.quantity)) [
    | inl e ↦ inr (sym (err_inj (rw e at h)))
    | inr e ↦ cc (rw e at h)
  ]

  asset_history-IsOverdraw :
      (asset : LedgerAsset N) (current : Option (Position N)) (ts : List (Transaction N))
      {e : LedgerError}
      → asset_history asset current ts ≡ err e
      → IsOverdraw e
  unfolding asset_history
  asset_history-IsOverdraw asset current [] h = cc
  asset_history-IsOverdraw asset current (t ∷ ts) {e} h =
      elim (Result-cases (check_available t.kind current t)) [
        | inr (x, refused) ↦
            check_available-IsOverdraw t.kind current t
              (refused ∙ ap err (err_inj (rw (refused, asset_history) at h)))
        | inl (u, available) ↦
            let (p, applied) = applies current t available in
            asset_history-IsOverdraw asset
              (if is_open p.quantity then some (enrich asset p) else none) ts
              (rw (available, applied, asset_history) at h)
      ]

  -- The only errors of a replay are a missing asset, a sale with no position and a sale above the
  -- position: the checks come first, so the plain errors of `applyPortfolioTransaction` are not reached.
  pub replay_portfolio_ledger-errors :
      (compare : String → String → Sign) (assets : List (LedgerAsset N)) (ts : List (Transaction N))
      {e : LedgerError}
      → replay_portfolio_ledger compare assets ts ≡ err e
      → (e ≡ asset_metadata_missing) ⊎ IsOverdraw e
  replay_portfolio_ledger-errors compare assets ts h =
      elim (replay_portfolio_ledger-fails compare assets ts h) [
        | inl (t, m, missing, same) ↦ inl same
        | inr (k, asset, known, bad) ↦ inr (asset_history-IsOverdraw asset none _ bad)
      ]
