-- ===== src/Runs/Rows.antt =====
-- What the rows that a submission reads are, and what its checks say.
use Prim.Native.String.{String, ◌++◌}
use mathlib.Core.List.{Memᴰ, Forall₂}
use mathlib.Core.Option.{some-injective}
use text.Mathlib.Text.{◌==◌}
use text.Mathlib.TextEquality.{eq_iff}
use radar_asset.Base.{
  ◌≡◌, refl, sym, ap, ◌∙◌, subst, inl, inr, Bool, true, false, not, ◌&&◌, &&-eq-true, ◌||◌, none,
  some, ◌⊎◌, Option, any-Memᴰ, List, [], ◌∷◌, Bool-cases, All, Result, ok, err, >>=-eq-ok, ok_inj,
  map_result, any, arith,
}
use radar_asset.Base.Assoc.{Dict, get, put, put-All}
use radar_asset.Allocation.{AllocationError}
use radar_asset.Access.{TenantContext}
use radar_asset.Runs.State.{SupportedMarket, market_name, SubmissionLeg, QuantAsset, StrategyRow}
use radar_asset.Runs.Legs.{
  supported_market, strategy_key, is_asked, is_visible, notional_result, strategies_by_key,
  assets_by_symbol,
}

pub get-All {ℓ κ} :
    {V : Type ℓ} (P : String → V → Type κ) (k : String) (m : Dict V) {v : V}
    → All (λ e. P e.0 e.1) m
    → get k m ≡ some v
    → P k v
unfolding get
get-All P k [] h e = cc
get-All P k ((j, w) ∷ m) {v} (p, h) e = elim (Bool-cases (j == k)) [
  | inl y ↦ subst (P k) (some-injective _ _ (rw y at e)) (subst (λ i. P i w) ((eq_iff j k).0 y) p)
  | inr n ↦ get-All P k m h (rw n at e)
]

pub supported_market-name :
    (value : String) (market : SupportedMarket)
    → supported_market value ≡ some market
    → market_name market ≡ value
unfolding supported_market
supported_market-name value market e = elim (Bool-cases (value == "vn_equity")) [
  | inl y ↦
      ap market_name (sym (some-injective _ _ (rw y at e))) ∙ sym ((eq_iff value "vn_equity").0 y)
  | inr n ↦ elim (Bool-cases (value == "crypto_spot")) [
    | inl y ↦
        ap market_name (sym (some-injective _ _ (rw (n, y) at e)))
        ∙ sym ((eq_iff value "crypto_spot").0 y)
    | inr n' ↦ elim (Bool-cases (value == "metal_spot")) [
      | inl y ↦
          ap market_name (sym (some-injective _ _ (rw (n, n', y) at e)))
          ∙ sym ((eq_iff value "metal_spot").0 y)
      | inr n'' ↦ cc (rw (n, n', n'') at e)
    ]
  ]
]

pub neither : (a b : Bool) → not (a || b) ≡ true → (a ≡ false) × (b ≡ false)
neither a b h = ground arith

pub not-true : (a : Bool) → not a ≡ true → a ≡ false
not-true a h = ground arith

pub notional_result-ok {ℓ} :
    {N : Type ℓ} (r : Result AllocationError N) {n : N} → notional_result r ≡ ok n → r ≡ ok n
notional_result-ok (ok m) e = ap (λ n. ok n) (ok_inj e)
notional_result-ok (err x) e = cc

-- The strategy has the code and the version of one of the legs.
pub record IsAsked {ℓ} {N : Type ℓ} (legs : List (SubmissionLeg N)) (s : StrategyRow) : Type ℓ where
  pub by : SubmissionLeg N
  pub among : Memᴰ by legs
  pub same_code : by.strategy_code ≡ s.code
  pub same_version : by.strategy_version ≡ s.version

-- A strategy row of the key that the organisation may see: a row without an organisation or its own.
pub record IsOffered {ℓ} {N : Type ℓ} (context : TenantContext) (legs : List (SubmissionLeg N))
    (rows : List StrategyRow) (key : String) (s : StrategyRow) : Type ℓ where
  pub stored : Memᴰ s rows
  pub same_key : s.code ++ ("@" ++ s.version) ≡ key
  pub asked : IsAsked legs s
  pub visible : (s.organization_id ≡ none) ⊎ (s.organization_id ≡ some context.organization_id)

visible_to :
    (context : TenantContext) (owner : Option String)
    → is_visible context owner ≡ true
    → (owner ≡ none) ⊎ (owner ≡ some context.organization_id)
visible_to context none e = inl refl
visible_to context (some id) e = inr (ap some ((eq_iff id context.organization_id).0 e))

module _ {ℓ} {N : Type ℓ} where
  is_asked-IsAsked :
      (legs : List (SubmissionLeg N)) (s : StrategyRow) → is_asked legs s ≡ true → IsAsked legs s
  is_asked-IsAsked legs s e =
      let (leg, m, h) =
        any-Memᴰ
          (λ (leg : SubmissionLeg N).
            (leg.strategy_code == s.code) && (leg.strategy_version == s.version))
          legs e in
      let (code, version) =
        &&-eq-true (leg.strategy_code == s.code) (leg.strategy_version == s.version) h in
      record {
        by = leg;
        among = m;
        same_code = (eq_iff leg.strategy_code s.code).0 code;
        same_version = (eq_iff leg.strategy_version s.version).0 version;
      }

  pub strategies_by_key-All :
      (context : TenantContext) (all : List StrategyRow) (legs : List (SubmissionLeg N))
      (m : Dict StrategyRow) (rows : List StrategyRow)
      → ((s : StrategyRow) → Memᴰ s rows → Memᴰ s all)
      → All (λ e. IsOffered context legs all e.0 e.1) m
      → All (λ e. IsOffered context legs all e.0 e.1) (strategies_by_key context legs m rows)
  unfolding strategies_by_key
  strategies_by_key-All context all legs m [] inside h = h
  strategies_by_key-All context all legs m (s ∷ rows) inside h =
      let rest = λ (s : StrategyRow) (k : Memᴰ s rows). inside s (Memᴰ.tail k) in
      elim (Bool-cases (is_visible context s.organization_id && is_asked legs s)) [
        | inl y ↦
            let (visible, asked) =
              &&-eq-true (is_visible context s.organization_id) (is_asked legs s) y in
            rw y (
              strategies_by_key-All context all legs (put (strategy_key s.code s.version) s m) rows
                rest
                (put-All (λ e. IsOffered context legs all e.0 e.1) (strategy_key s.code s.version) s
                  m
                  (λ j e. record {
                    stored = inside s (Memᴰ.head refl);
                    same_key = sym e;
                    asked = is_asked-IsAsked legs s asked;
                    visible = visible_to context s.organization_id visible;
                  })
                  h))
        | inr n ↦ rw n (strategies_by_key-All context all legs m rows rest h)
      ]

  pub assets_by_symbol-All :
      (all : List (QuantAsset N)) (legs : List (SubmissionLeg N)) (m : Dict (QuantAsset N))
      (rows : List (QuantAsset N))
      → ((a : QuantAsset N) → Memᴰ a rows → Memᴰ a all)
      → All (λ e. Memᴰ e.1 all × (e.1.symbol ≡ e.0)) m
      → All (λ e. Memᴰ e.1 all × (e.1.symbol ≡ e.0)) (assets_by_symbol legs m rows)
  unfolding assets_by_symbol
  assets_by_symbol-All all legs m [] inside h = h
  assets_by_symbol-All all legs m (a ∷ rows) inside h =
      let rest = λ (a : QuantAsset N) (k : Memᴰ a rows). inside a (Memᴰ.tail k) in
      elim (Bool-cases (any (λ leg. leg.symbol == a.symbol) legs)) [
        | inl y ↦ rw y (
            assets_by_symbol-All all legs (put a.symbol a m) rows rest (
              put-All (λ e. Memᴰ e.1 all × (e.1.symbol ≡ e.0)) a.symbol a m
                (λ j e. (inside a (Memᴰ.head refl), sym e)) h))
        | inr n ↦ rw n (assets_by_symbol-All all legs m rows rest h)
      ]

pub map_result-Forall₂ {ℓ κ μ ν} :
    {E : Type ν} {A : Type ℓ} {B : Type κ} (R : A → B → Type μ) (f : A → Result E B)
    → ((x : A) (y : B) → f x ≡ ok y → R x y)
    → (xs : List A) {ys : List B} → map_result f xs ≡ ok ys
    → Forall₂ R xs ys
unfolding map_result
map_result-Forall₂ R f h [] e = subst (Forall₂ R []) (ok_inj e) Forall₂.nil
map_result-Forall₂ R f h (x ∷ xs) e =
    let (y, e0, e1) = >>=-eq-ok (f x) _ e in
    let (ys, e2, e3) = >>=-eq-ok (map_result f xs) _ e1 in
    subst (Forall₂ R (x ∷ xs)) (ok_inj e3)
      (Forall₂.cons (h x y e0) (map_result-Forall₂ R f h xs e2))
