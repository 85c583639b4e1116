-- ===== src/Ledger/Steps.antt =====
-- One round of the replay: what it does to the position of its own asset, and of any other.
use Prim.Native.String.{String}
use mathlib.Core.Option.{some-injective}
use text.Mathlib.Text.{◌==◌}
use text.Mathlib.TextEquality.{eq_iff}
use text.Mathlib.TextPositions.{eq_refl}
use radar_asset.Base.{
  ◌≡◌, refl, sym, ap, ◌∙◌, inl, inr, Bool, true, false, not, Option, none, some, [], ◌∷◌,
  if◌then◌else◌, Bool-cases, All, Result, ok, ◌>>=◌, ◌>>◌, required, >>=-eq-ok, required-eq-ok,
  ok_inj, arith,
}
use radar_asset.Base.Assoc.{
  Dict, get, HasDistinctKeys, get-put, get-remove, put-HasDistinctKeys, remove-HasDistinctKeys,
  put-All, remove-All,
}
use radar_asset.Base.Number.{Number, of_ℕ}
use radar_asset.Ledger.{
  LedgerError, Position, LedgerAsset, Transaction, ReplayState, apply_portfolio_transaction,
  check_available, enrich, store_position, record_transaction, replay_step,
}

module _ {ℓ} {N : Type ℓ} ⦃num : Number N⦄ where
  abbrev pub is_open : N → Bool
  is_open q = not (num.le q (of_ℕ 0))

  -- The position of one asset after one of its transactions; `none` once it is closed.
  unfoldable pub history_step :
      LedgerAsset N → Option (Position N) → Transaction N → Result LedgerError (Option (Position N))
  history_step asset current t = do
    check_available t.kind current t
    next ← apply_portfolio_transaction current t
    ok (if is_open next.quantity then some (enrich asset next) else none)

  -- What is true of the positions between two rounds.
  pub record IsLedger (m : Dict (Position N)) : Type ℓ where
    pub distinct : HasDistinctKeys m
    pub keyed : All (λ e. e.1.asset_id ≡ e.0) m
    pub positive : All (λ e. is_open e.1.quantity ≡ true) m

  get-keyed :
      (m : Dict (Position N)) (k : String) {p : Position N}
      → All (λ e. e.1.asset_id ≡ e.0) m
      → get k m ≡ some p
      → p.asset_id ≡ k
  unfolding get
  get-keyed [] k h e = cc
  get-keyed ((j, q) ∷ m) k (h, hs) e = elim (Bool-cases (j == k)) [
    | inl same ↦
        ap (λ (x : Position N). x.asset_id) (sym (some-injective _ _ (rw same at e)))
        ∙ (h ∙ (eq_iff j k).0 same)
    | inr apart ↦ get-keyed m k hs (rw apart at e)
  ]

  apply-asset_id :
      (current : Option (Position N)) (t : Transaction N) {next : Position N}
      → ((p : Position N) → current ≡ some p → p.asset_id ≡ t.asset_id)
      → apply_portfolio_transaction current t ≡ ok next
      → next.asset_id ≡ t.asset_id
  unfolding apply_portfolio_transaction
  apply-asset_id none t same e = ground arith
  apply-asset_id (some p) t same e = ground (arith, same p refl)

  -- What a round that returns went through.
  pub record Round (assets : Dict (LedgerAsset N)) (s : ReplayState N) (t : Transaction N)
      (out : ReplayState N) : Type ℓ where
    pub asset : LedgerAsset N
    pub next : Position N
    pub known : get t.asset_id assets ≡ some asset
    pub available : check_available t.kind (get t.asset_id s.positions) t ≡ ok tt
    pub applied : apply_portfolio_transaction (get t.asset_id s.positions) t ≡ ok next
    pub result : out ≡ record_transaction asset (get t.asset_id s.positions) (enrich asset next) t s

  pub replay_step-Round :
      (assets : Dict (LedgerAsset N)) (s : ReplayState N) (t : Transaction N) {out : ReplayState N}
      → replay_step assets s t ≡ ok out
      → Round assets s t out
  unfolding replay_step
  replay_step-Round assets s t e =
      let current = get t.asset_id s.positions in
      let (asset, known, e1) = >>=-eq-ok (required (get t.asset_id assets) _) _ e in
      let (_, available, e2) = >>=-eq-ok (check_available t.kind current t) _ e1 in
      let (next, applied, e3) = >>=-eq-ok (apply_portfolio_transaction current t) _ e2 in
      record {
        asset = asset;
        next = next;
        known = required-eq-ok (get t.asset_id assets) _ known;
        available = available;
        applied = applied;
        result = sym (ok_inj e3);
      }

  pub store_position-IsLedger :
      (p : Position N) (t : Transaction N) (m : Dict (Position N))
      → p.asset_id ≡ t.asset_id
      → IsLedger m
      → IsLedger (store_position p t m)
  unfolding store_position
  store_position-IsLedger p t m same h = elim (Bool-cases (num.le p.quantity (of_ℕ 0))) [
    | inl e ↦ rw e (record {
      distinct = remove-HasDistinctKeys t.asset_id m h.distinct;
      keyed = remove-All (λ x. x.1.asset_id ≡ x.0) t.asset_id m h.keyed;
      positive = remove-All (λ x. is_open x.1.quantity ≡ true) t.asset_id m h.positive;
    })
    | inr e ↦ rw e (record {
      distinct = put-HasDistinctKeys t.asset_id p m h.distinct;
      keyed = put-All (λ x. x.1.asset_id ≡ x.0) t.asset_id p m (λ j k. same ∙ sym k) h.keyed;
      positive = put-All (λ x. is_open x.1.quantity ≡ true) t.asset_id p m (λ j k. rw e) h.positive;
    })
  ]

  pub get-store_position :
      (p : Position N) (t : Transaction N) (m : Dict (Position N)) (k : String)
      → HasDistinctKeys m
      → get k (store_position p t m)
        ≡ (if t.asset_id == k then (if is_open p.quantity then some p else none) else get k m)
  unfolding store_position
  get-store_position p t m k h =
      ground (arith, get-put t.asset_id k p m, get-remove t.asset_id k m h)

  enrich-quantity :
      (asset : LedgerAsset N) (p : Position N) → (enrich asset p).quantity ≡ p.quantity
  unfolding enrich
  enrich-quantity asset p = refl

  enrich-asset_id :
      (asset : LedgerAsset N) (p : Position N) → (enrich asset p).asset_id ≡ p.asset_id
  unfolding enrich
  enrich-asset_id asset p = refl

  positions-record_transaction :
      (asset : LedgerAsset N) (current : Option (Position N)) (p : Position N) (t : Transaction N)
      (s : ReplayState N)
      → (record_transaction asset current p t s).positions ≡ store_position p t s.positions
  unfolding record_transaction
  positions-record_transaction asset current p t s = refl

  pub Round-positions :
      {assets : Dict (LedgerAsset N)} {s : ReplayState N} {t : Transaction N} {out : ReplayState N}
      (r : Round assets s t out)
      → out.positions ≡ store_position (enrich r.asset r.next) t s.positions
  Round-positions {s} {t} r =
      ap (λ (x : ReplayState N). x.positions) r.result
      ∙ positions-record_transaction r.asset _ (enrich r.asset r.next) t s

  pub Round-IsLedger :
      {assets : Dict (LedgerAsset N)} {s : ReplayState N} {t : Transaction N} {out : ReplayState N}
      → Round assets s t out
      → IsLedger s.positions
      → IsLedger out.positions
  Round-IsLedger {s} {t} r h =
      let own : r.next.asset_id ≡ t.asset_id =
        apply-asset_id (get t.asset_id s.positions) t
          (λ p e. get-keyed s.positions t.asset_id h.keyed e) r.applied in
      rw (Round-positions r) (
        store_position-IsLedger (enrich r.asset r.next) t s.positions
          (enrich-asset_id r.asset r.next ∙ own) h)

  -- The asset of the round moves as its own history says; any other keeps its position.
  pub Round-history :
      {assets : Dict (LedgerAsset N)} {s : ReplayState N} {t : Transaction N} {out : ReplayState N}
      (r : Round assets s t out)
      → IsLedger s.positions
      → history_step r.asset (get t.asset_id s.positions) t ≡ ok (get t.asset_id out.positions)
  unfolding history_step
  Round-history {s} {t} r h = rw (
    Round-positions r,
    get-store_position (enrich r.asset r.next) t s.positions t.asset_id h.distinct,
    eq_refl t.asset_id,
    r.available,
    r.applied,
    enrich-quantity r.asset r.next,
  )

  pub Round-others :
      {assets : Dict (LedgerAsset N)} {s : ReplayState N} {t : Transaction N} {out : ReplayState N}
      (r : Round assets s t out) (k : String)
      → IsLedger s.positions
      → (t.asset_id == k) ≡ false
      → get k out.positions ≡ get k s.positions
  Round-others {s} {t} r k h other = rw (
    Round-positions r,
    get-store_position (enrich r.asset r.next) t s.positions k h.distinct,
    other,
  )
