-- ===== src/Ledger/Replay.antt =====
-- The whole replay: what its positions are, asset by asset.
use Prim.Native.String.{String}
use mathlib.Core.Option.{some-injective}
use text.Mathlib.Text.{◌==◌}
use text.Mathlib.TextEquality.{eq_iff}
use radar_asset.Base.{
  ◌≡◌, refl, sym, ap, ◌∙◌, subst, inl, inr, Bool, true, false, Option, none, some, List, [], ◌∷◌,
  Bool-cases, All, keep, find, Result, ok, ◌>>=◌, >>=-eq-ok, ok_inj,
}
use radar_asset.Base.Assoc.{Dict, get, values, HasDistinctKeys}
use radar_asset.Base.Number.{Number}
use radar_asset.Ledger.{
  Sign, LedgerError, Position, LedgerAsset, Transaction, ReplayState, ReplayResult, replay_start,
  replay_step, replay_loop, asset_map, in_ledger_order, replay_portfolio_ledger, round,
}
use radar_asset.Ledger.Steps.{
  is_open, history_step, IsLedger, Round, replay_step-Round, Round-IsLedger, Round-history,
  Round-others,
}

module _ {ℓ} {N : Type ℓ} ⦃num : Number N⦄ where
  -- The ledger of one asset alone.
  unfoldable pub asset_history :
      LedgerAsset N
      → Option (Position N)
      → List (Transaction N)
      → Result LedgerError (Option (Position N))
  unfolding history_step
  asset_history asset current [] = ok current
  asset_history asset current (t ∷ ts) = do
    next ← history_step asset current t
    asset_history asset next ts

  abbrev pub of_asset : String → Transaction N → Bool
  of_asset k t = t.asset_id == k

  pub replay_loop-IsLedger :
      (assets : Dict (LedgerAsset N)) (s : ReplayState N) (ts : List (Transaction N))
      {out : ReplayState N}
      → IsLedger s.positions
      → replay_loop assets s ts ≡ ok out
      → IsLedger out.positions
  unfolding replay_loop
  replay_loop-IsLedger assets s [] h e =
      subst (λ (x : ReplayState N). IsLedger x.positions) (ok_inj e) h
  replay_loop-IsLedger assets s (t ∷ ts) h e =
      let (next, stepped, rest) = >>=-eq-ok (replay_step assets s t) _ e in
      replay_loop-IsLedger assets next ts (Round-IsLedger (replay_step-Round assets s t stepped) h)
        rest

  pub Round-own :
      {assets : Dict (LedgerAsset N)} {s : ReplayState N} {t : Transaction N} {out : ReplayState N}
      (r : Round assets s t out) (k : String) {asset : LedgerAsset N}
      → IsLedger s.positions
      → get k assets ≡ some asset
      → t.asset_id ≡ k
      → history_step asset (get k s.positions) t ≡ ok (get k out.positions)
  Round-own {assets} {t} r k {asset} h known same =
      let found : r.asset ≡ asset =
        some-injective _ _ (sym r.known ∙ (ap (λ j. get j assets) same ∙ known)) in
      rw (← same, ← found) (Round-history r h)

  -- A round puts the transaction behind it, in the ledger of whichever asset.
  pub Round-rest :
      {assets : Dict (LedgerAsset N)} {s : ReplayState N} {t : Transaction N} {out : ReplayState N}
      (r : Round assets s t out) (k : String) (ts : List (Transaction N)) {asset : LedgerAsset N}
      → IsLedger s.positions
      → get k assets ≡ some asset
      → asset_history asset (get k s.positions) (keep (of_asset k) (t ∷ ts))
        ≡ asset_history asset (get k out.positions) (keep (of_asset k) ts)
  unfolding keep asset_history
  Round-rest {t} r k ts h known = elim (Bool-cases (t.asset_id == k)) [
    | inl own ↦ rw (own, Round-own r k h known ((eq_iff t.asset_id k).0 own))
    | inr other ↦ rw (other, Round-others r k h other)
  ]

  replay_loop-history :
      (assets : Dict (LedgerAsset N)) (s : ReplayState N) (ts : List (Transaction N)) (k : String)
      {asset : LedgerAsset N} {out : ReplayState N}
      → IsLedger s.positions
      → get k assets ≡ some asset
      → replay_loop assets s ts ≡ ok out
      → asset_history asset (get k s.positions) (keep (of_asset k) ts) ≡ ok (get k out.positions)
  unfolding replay_loop keep asset_history
  replay_loop-history assets s [] k h known e =
      ap (λ (x : ReplayState N). ok (get k x.positions)) (ok_inj e)
  replay_loop-history assets s (t ∷ ts) k {asset} {out} h known e =
      let (next, stepped, rest) = >>=-eq-ok (replay_step assets s t) _ e in
      let r = replay_step-Round assets s t stepped in
      Round-rest r k ts h known
      ∙ replay_loop-history assets next ts k (Round-IsLedger r h) known rest

  abbrev pub holding : String → List (Position N) → Option (Position N)
  holding k = find (λ p. p.asset_id == k)

  holding-values :
      (m : Dict (Position N)) (k : String)
      → All (λ e. e.1.asset_id ≡ e.0) m
      → holding k (values m) ≡ get k m
  unfolding find values get
  holding-values [] k h = refl
  holding-values ((j, p) ∷ m) k (h, hs) = rw (h, holding-values m k hs)

  pub empty-IsLedger : IsLedger (replay_start {N = N}).positions
  empty-IsLedger = record { distinct = tt; keyed = tt; positive = tt }

  -- The state in which the loop of a replay that returns has ended.
  pub record IsReplayed (compare : String → String → Sign) (assets : List (LedgerAsset N))
      (ts : List (Transaction N)) (r : ReplayResult N) : Type ℓ where
    pub final : ReplayState N
    pub looped :
        replay_loop (asset_map [] assets) replay_start (in_ledger_order compare ts) ≡ ok final
    pub positions : r.positions ≡ values final.positions
    pub transactions : r.transactions ≡ final.transactions
    pub capital : r.cumulative_buy_capital ≡ round final.cumulative_buy_capital 8

  pub replay_portfolio_ledger-IsReplayed :
      (compare : String → String → Sign) (assets : List (LedgerAsset N)) (ts : List (Transaction N))
      {r : ReplayResult N}
      → replay_portfolio_ledger compare assets ts ≡ ok r
      → IsReplayed compare assets ts r
  unfolding replay_portfolio_ledger
  replay_portfolio_ledger-IsReplayed compare assets ts e =
      let (final, looped, same) =
        >>=-eq-ok (replay_loop (asset_map [] assets) replay_start (in_ledger_order compare ts)) _
          e in
      record {
        final = final;
        looped = looped;
        positions = ap (λ (x : ReplayResult N). x.positions) (sym (ok_inj same));
        transactions = ap (λ (x : ReplayResult N). x.transactions) (sym (ok_inj same));
        capital = ap (λ (x : ReplayResult N). x.cumulative_buy_capital) (sym (ok_inj same));
      }

  -- In a replay that returns, the holding of a known asset is what the ledger of that asset alone ends
  -- in: no transaction of another asset has touched it.
  pub replay_portfolio_ledger-history :
      (compare : String → String → Sign) (assets : List (LedgerAsset N)) (ts : List (Transaction N))
      (k : String) {asset : LedgerAsset N} {r : ReplayResult N}
      → get k (asset_map [] assets) ≡ some asset
      → replay_portfolio_ledger compare assets ts ≡ ok r
      → asset_history asset none (keep (of_asset k) (in_ledger_order compare ts))
        ≡ ok (holding k r.positions)
  unfolding get
  replay_portfolio_ledger-history compare assets ts k known e =
      let d = replay_portfolio_ledger-IsReplayed compare assets ts e in
      let inv =
        replay_loop-IsLedger (asset_map [] assets) replay_start (in_ledger_order compare ts)
          empty-IsLedger d.looped in
      rw (d.positions, holding-values d.final.positions k inv.keyed)
        (replay_loop-history (asset_map [] assets) replay_start (in_ledger_order compare ts) k
          empty-IsLedger known d.looped)

  abbrev pub HasDistinctAssets : List (Position N) → Type 0
  HasDistinctAssets [] = Unit
  HasDistinctAssets (p ∷ ps) =
      All (λ q. (q.asset_id == p.asset_id) ≡ false) ps × HasDistinctAssets ps

  values-All :
      (P : Position N → Type 0) (m : Dict (Position N)) → All (λ e. P e.1) m → All P (values m)
  unfolding values
  values-All P [] h = tt
  values-All P ((j, p) ∷ m) (h, hs) = (h, values-All P m hs)

  values-distinct :
      (m : Dict (Position N))
      → All (λ e. e.1.asset_id ≡ e.0) m
      → HasDistinctKeys m
      → HasDistinctAssets (values m)
  unfolding values
  values-distinct [] h d = tt
  values-distinct ((j, p) ∷ m) (h, hs) (n, d) = (rw h (absent m hs n), values-distinct m hs d)
    where
      absent :
          (l : Dict (Position N))
          → All (λ e. e.1.asset_id ≡ e.0) l
          → All (λ e. (e.0 == j) ≡ false) l
          → All (λ q. (q.asset_id == j) ≡ false) (values l)
      absent [] a b = tt
      absent ((i, q) ∷ l) (a, as') (b, bs) = (rw a b, absent l as' bs)

  -- A replay that returns holds each asset at most once, and no quantity of zero or less.
  pub replay_portfolio_ledger-valid :
      (compare : String → String → Sign) (assets : List (LedgerAsset N)) (ts : List (Transaction N))
      {r : ReplayResult N}
      → replay_portfolio_ledger compare assets ts ≡ ok r
      → HasDistinctAssets r.positions × All (λ p. is_open p.quantity ≡ true) r.positions
  replay_portfolio_ledger-valid compare assets ts e =
      let d = replay_portfolio_ledger-IsReplayed compare assets ts e in
      let inv =
        replay_loop-IsLedger (asset_map [] assets) replay_start (in_ledger_order compare ts)
          empty-IsLedger d.looped in
      rw d.positions (
        values-distinct d.final.positions inv.keyed inv.distinct,
        values-All (λ p. is_open p.quantity ≡ true) d.final.positions inv.positive,
      )
