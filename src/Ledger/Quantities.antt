-- ===== src/Ledger/Quantities.antt =====
-- What the replay does to quantities alone: it does not depend on prices, fees or currencies.
use Prim.Native.String.{String}
use text.Mathlib.Text.{◌==◌}
use radar_asset.Base.{
  ◌≡◌, refl, sym, ap, ◌∙◌, inl, inr, Bool, not, Option, none, some, List, [], ◌∷◌, map,
  if◌then◌else◌, Bool-cases, Result, ok, err, ◌>>◌, required, >>=-eq-ok, guard-eq-ok, ok_inj,
}
use radar_asset.Base.Sort.{sort, insert}
use radar_asset.Base.Assoc.{Dict, get, put, remove, values}
use radar_asset.Base.Number.{Number, of_ℕ}
use radar_asset.Ledger.{
  TransactionType, buy, sell, LedgerError, asset_metadata_missing, Position, LedgerAsset,
  Transaction, ReplayState, ReplayResult, Sign, or_sign, is_positive, in_ledger_order,
  compare_ledger_transactions, round, opened, bought, sold, apply_portfolio_transaction,
  check_available, enrich, store_position, record_transaction, replay_step, replay_loop, asset_map,
  replay_start, replay_portfolio_ledger,
}

-- What a transaction says of quantities, and where it stands in the ledger.
pub record Trade {ℓ} (N : Type ℓ) : Type ℓ where
  pub id : String
  pub created_at : String
  pub executed_at : String
  pub kind : TransactionType
  pub asset_id : String
  pub quantity : N

module _ {ℓ} {N : Type ℓ} where
  abbrev pub trade_of : Transaction N → Trade N
  trade_of t = record {
    id = t.id;
    created_at = t.created_at;
    executed_at = t.executed_at;
    kind = t.kind;
    asset_id = t.asset_id;
    quantity = t.quantity;
  }

  abbrev pub amount_of : Position N → String × N
  amount_of p = (p.asset_id, p.quantity)

  abbrev trade_after : (String → String → Sign) → Trade N → Trade N → Bool
  trade_after compare x y = is_positive (
      or_sign (compare x.executed_at y.executed_at)
        (or_sign (compare x.created_at y.created_at) (compare x.id y.id)))

  -- The entries of a `Map`, each value changed.
  abbrev amounts : Dict (Position N) → Dict (String × N)
  amounts m = map (λ e. (e.0, amount_of e.1)) m

  abbrev amount? : Option (Position N) → Option (String × N)
  amount? none = none
  amount? (some p) = some (amount_of p)

  get-amounts : (k : String) (m : Dict (Position N)) → get k (amounts m) ≡ amount? (get k m)
  unfolding get
  get-amounts k [] = refl
  get-amounts k ((j, p) ∷ m) = elim (Bool-cases (j == k)) [
    | inl y ↦ rw y refl
    | inr n ↦ rw n (get-amounts k m)
  ]

  put-amounts :
      (k : String) (p : Position N) (m : Dict (Position N))
      → amounts (put k p m) ≡ put k (amount_of p) (amounts m)
  unfolding put
  put-amounts k p [] = refl
  put-amounts k p ((j, q) ∷ m) = elim (Bool-cases (j == k)) [
    | inl y ↦ rw y refl
    | inr n ↦ rw n (ap (λ r. (j, amount_of q) ∷ r) (put-amounts k p m))
  ]

  remove-amounts :
      (k : String) (m : Dict (Position N)) → amounts (remove k m) ≡ remove k (amounts m)
  unfolding remove
  remove-amounts k [] = refl
  remove-amounts k ((j, q) ∷ m) = elim (Bool-cases (j == k)) [
    | inl y ↦ rw y refl
    | inr n ↦ rw n (ap (λ r. (j, amount_of q) ∷ r) (remove-amounts k m))
  ]

  values-amounts : (m : Dict (Position N)) → map amount_of (values m) ≡ values (amounts m)
  unfolding values
  values-amounts [] = refl
  values-amounts ((j, p) ∷ m) = ap (λ r. amount_of p ∷ r) (values-amounts m)

map-insert {ℓ κ} :
    {A : Type ℓ} {B : Type κ} (f : A → B) (after : A → A → Bool) (after_image : B → B → Bool)
    → ((x y : A) → after x y ≡ after_image (f x) (f y))
    → (x : A) (xs : List A) → map f (insert after x xs) ≡ insert after_image (f x) (map f xs)
unfolding insert
map-insert f after after_image same x [] = refl
map-insert f after after_image same x (y ∷ ys) = elim (Bool-cases (after x y)) [
  | inl e ↦
      rw (e, sym (same x y) ∙ e) (ap (λ r. f y ∷ r) (map-insert f after after_image same x ys))
  | inr e ↦ rw (e, sym (same x y) ∙ e) refl
]

map-sort {ℓ κ} :
    {A : Type ℓ} {B : Type κ} (f : A → B) (after : A → A → Bool) (after_image : B → B → Bool)
    → ((x y : A) → after x y ≡ after_image (f x) (f y))
    → (xs : List A) → map f (sort after xs) ≡ sort after_image (map f xs)
unfolding sort
map-sort f after after_image same [] = refl
map-sort f after after_image same (x ∷ xs) =
    map-insert f after after_image same x (sort after xs)
    ∙ ap (insert after_image (f x)) (map-sort f after after_image same xs)

module _ {ℓ} {N : Type ℓ} ⦃num : Number N⦄ where
  open num use {plus, minus, le}

  -- The quantities after a trade that the checks have let through.
  abbrev amount_after : TransactionType → Option (String × N) → Trade N → String × N
  amount_after kind none t = (t.asset_id, t.quantity)
  amount_after buy (some a) t = (a.0, round (plus a.1 t.quantity) 8)
  amount_after sell (some a) t = (a.0, round (minus a.1 t.quantity) 8)

  abbrev keep_amount : String × N → Trade N → Dict (String × N) → Dict (String × N)
  keep_amount a t m = if le a.1 (of_ℕ 0) then remove t.asset_id m else put t.asset_id a m

  trade_step : Dict (String × N) → Trade N → Dict (String × N)
  trade_step m t = keep_amount (amount_after t.kind (get t.asset_id m) t) t m

  trade_loop : Dict (String × N) → List (Trade N) → Dict (String × N)
  trade_loop m [] = m
  trade_loop m (t ∷ ts) = trade_loop (trade_step m t) ts

  store_position-amounts :
      (p : Position N) (t : Transaction N) (m : Dict (Position N))
      → amounts (store_position p t m) ≡ keep_amount (amount_of p) (trade_of t) (amounts m)
  unfolding store_position
  store_position-amounts p t m = elim (Bool-cases (le p.quantity (of_ℕ 0))) [
    | inl y ↦ rw y (remove-amounts t.asset_id m)
    | inr n ↦ rw n (put-amounts t.asset_id p m)
  ]

  apply-amount :
      (kind : TransactionType) (current : Option (Position N)) (t : Transaction N)
      {next : Position N}
      → t.kind ≡ kind
      → check_available kind current t ≡ ok tt
      → apply_portfolio_transaction current t ≡ ok next
      → amount_of next ≡ amount_after kind (amount? current) (trade_of t)
  unfolding check_available apply_portfolio_transaction opened bought sold
  apply-amount buy none t k c e = ap amount_of (sym (ok_inj (rw k at e)))
  apply-amount buy (some p) t k c e = ap amount_of (sym (ok_inj (rw k at e)))
  apply-amount sell none t k c e = cc
  apply-amount sell (some p) t k c e =
      let (u, e1) = guard-eq-ok (not (num.lt p.quantity t.quantity)) _ _ (rw k at e) in
      ap amount_of (sym (ok_inj e1))

  replay_step-amounts :
      (assets : Dict (LedgerAsset N)) (s : ReplayState N) (t : Transaction N) {out : ReplayState N}
      → replay_step assets s t ≡ ok out
      → amounts out.positions ≡ trade_step (amounts s.positions) (trade_of t)
  unfolding replay_step trade_step enrich record_transaction
  replay_step-amounts assets s t e =
      let current = get t.asset_id s.positions in
      let (asset, a, e1) =
        >>=-eq-ok (required (get t.asset_id assets) asset_metadata_missing) _ e in
      let (c, e2) = check-eq-ok (check_available t.kind current t) _ e1 in
      let (next, n, e3) = >>=-eq-ok (apply_portfolio_transaction current t) _ e2 in
      ap (λ (x : ReplayState N). amounts x.positions) (sym (ok_inj e3))
      ∙ store_position-amounts (enrich asset next) t s.positions
      ∙ ap (λ a. keep_amount a (trade_of t) (amounts s.positions))
          (apply-amount t.kind current t refl c n
            ∙ ap (λ o. amount_after t.kind o (trade_of t))
                (sym (get-amounts t.asset_id s.positions)))
    where
      check-eq-ok :
          (r : Result LedgerError (Unit {0})) (f : Result LedgerError (ReplayState N))
          {out : ReplayState N}
          → (r >> f) ≡ ok out
          → (r ≡ ok tt) × (f ≡ ok out)
      check-eq-ok (ok u) f e = (refl, e)
      check-eq-ok (err x) f e = cc

  replay_loop-amounts :
      (assets : Dict (LedgerAsset N)) (s : ReplayState N) (ts : List (Transaction N))
      {out : ReplayState N}
      → replay_loop assets s ts ≡ ok out
      → amounts out.positions ≡ trade_loop (amounts s.positions) (map trade_of ts)
  unfolding replay_loop trade_loop
  replay_loop-amounts assets s [] e =
      ap (λ (x : ReplayState N). amounts x.positions) (sym (ok_inj e))
  replay_loop-amounts assets s (t ∷ ts) e =
      let (mid, e0, e1) = >>=-eq-ok (replay_step assets s t) _ e in
      replay_loop-amounts assets mid ts e1
      ∙ ap (λ m. trade_loop m (map trade_of ts)) (replay_step-amounts assets s t e0)

  -- The quantities of the positions are a function of the trades.
  pub amounts_held : (String → String → Sign) → List (Trade N) → List (String × N)
  amounts_held compare trades = values (trade_loop [] (sort (trade_after compare) trades))

  pub replay_portfolio_ledger-amounts :
      (compare : String → String → Sign) (assets : List (LedgerAsset N)) (ts : List (Transaction N))
      {r : ReplayResult N}
      → replay_portfolio_ledger compare assets ts ≡ ok r
      → map amount_of r.positions ≡ amounts_held compare (map trade_of ts)
  unfolding replay_portfolio_ledger amounts_held in_ledger_order compare_ledger_transactions
  replay_portfolio_ledger-amounts compare assets ts e =
      let ordered = in_ledger_order compare ts in
      let (s, e0, e1) = >>=-eq-ok (replay_loop (asset_map [] assets) replay_start ordered) _ e in
      ap (λ (x : ReplayResult N). map amount_of x.positions) (sym (ok_inj e1))
      ∙ values-amounts s.positions
      ∙ ap values (
          replay_loop-amounts (asset_map [] assets) replay_start ordered e0
          ∙ ap (trade_loop []) (
              map-sort trade_of (λ x y. is_positive (compare_ledger_transactions compare x y))
                (trade_after compare) (λ x y. refl) ts))
