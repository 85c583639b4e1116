-- ===== src/Runs/Eligible.antt =====
-- What a submission that is accepted satisfies: every leg stands on rows that allow it.
use Prim.Native.String.{String}
use mathlib.Core.List.{Memᴰ, Forall₂}
use radar_asset.Base.{
  ℕ, ◌≡◌, refl, ap, subst, true, false, not, &&-eq-true, Option, none, some, List, [], All, Result,
  ok, required, >>=-eq-ok, guard-eq-ok, required-eq-ok, ok_inj,
}
use radar_asset.Base.Assoc.{Dict, get}
use radar_asset.Base.Number.{Number, of_ℕ}
use radar_asset.Allocation.{notional_from_bps}
use radar_asset.Access.{TenantContext}
use radar_asset.Runs.State.{
  RunError, asset_unavailable, leverage_limit_exceeded, SupportedMarket, vn_equity, crypto_spot,
  metal_spot, market_name, SubmissionLeg, Submission, DatasetVersion, QuantAsset, StrategyRow,
  ExecutableRule, ResolvedLeg,
}
use radar_asset.Runs.Legs.{
  supported_market, leverage_cap, first_listed, parameters_or, notional_result, strategies_by_key,
  assets_by_symbol, check_synchronized, maximum_leverage, is_within_leverage, resolved_leg,
  asset_and_market, eligible_dataset, eligible_strategy, resolve_leg, resolve_portfolio_legs,
}
use radar_asset.Runs.Rows.{
  get-All, supported_market-name, not-true, notional_result-ok, IsOffered, map_result-Forall₂,
  strategies_by_key-All, assets_by_symbol-All,
}
use radar_asset.Runs.Covering.{IsCovering, eligible_dataset-IsCovering}
use radar_asset.Runs.Fitting.{IsFitting, eligible_strategy-IsFitting}

-- The parameters that a leg is run with: those of the custom rule where there is one, else its own.
abbrev pub run_with : String → Option ExecutableRule → String
run_with own none = own
run_with own (some rule) = rule.definition

parameters_or-run_with :
    (own : String) (rule : Option ExecutableRule) → parameters_or own rule ≡ run_with own rule
parameters_or-run_with own none = refl
parameters_or-run_with own (some rule) = refl

-- What the smaller of two numbers says of both: where it is finite and not below x, neither is.
abbrev pub IsMinimum {ℓ} : {N : Type ℓ} → Number N → Type ℓ
IsMinimum {N} num =
    (a b x : N)
    → num.is_finite (num.minimum a b) ≡ true
    → num.lt (num.minimum a b) x ≡ false
    → (num.lt a x ≡ false) × (num.lt b x ≡ false)

-- The limits on leverage: 2 for Vietnamese equities, and 1 for crypto and for metals.
pub data IsLimit : SupportedMarket → ℕ → Type 0 where
  equities : IsLimit vn_equity 2
  crypto : IsLimit crypto_spot 1
  metals : IsLimit metal_spot 1

leverage_cap-IsLimit : (market : SupportedMarket) → IsLimit market (leverage_cap market)
leverage_cap-IsLimit vn_equity = IsLimit.equities
leverage_cap-IsLimit crypto_spot = IsLimit.crypto
leverage_cap-IsLimit metal_spot = IsLimit.metals

module _ {ℓ} {N : Type ℓ} ⦃num : Number N⦄ (normalize : String → Result RunError ExecutableRule)
    (context : TenantContext) (input : Submission N) where
  -- The rows that a resolved leg stands on, and what it takes from them and from the leg asked for.
  pub record IsResolved (strategy_rows : List StrategyRow) (asset_rows : List (QuantAsset N))
      (leg : SubmissionLeg N) (out : ResolvedLeg N) : Type ℓ where
    pub asset : QuantAsset N
    pub dataset : DatasetVersion
    pub strategy : StrategyRow
    pub rule : Option ExecutableRule
    pub limit : ℕ
    pub stored : Memᴰ asset asset_rows
    pub same_symbol : asset.symbol ≡ leg.symbol
    pub same_market : market_name out.market ≡ asset.market
    pub covering : IsCovering input asset dataset
    pub fitting : IsFitting normalize context input strategy_rows leg asset out.market strategy rule
    pub limited : IsLimit out.market limit
    pub within_asset : num.lt asset.max_leverage leg.leverage ≡ false
    pub within_market : num.lt (of_ℕ limit) leg.leverage ≡ false
    pub shared : notional_from_bps input.total_capital leg.allocation_bps ≡ ok out.initial_notional
    pub result : out ≡ record {
      symbol = leg.symbol;
      asset_id = asset.id;
      dataset_version_id = dataset.id;
      dataset_checksum = dataset.checksum;
      strategy_version_id = strategy.id;
      implementation_hash = strategy.implementation_hash;
      allocation_bps = leg.allocation_bps;
      leverage = leg.leverage;
      strategy_parameters = run_with leg.strategy_parameters rule;
      initial_notional = out.initial_notional;
      market = out.market;
      currency = asset.currency;
      strategy_code = leg.strategy_code;
      strategy_version = leg.strategy_version;
      listing_first_observed_at = first_listed asset.listed_from;
    }

  resolve_leg-IsResolved :
      (strategy_rows : List StrategyRow) (asset_rows : List (QuantAsset N))
      (strategies : Dict StrategyRow) (assets : Dict (QuantAsset N))
      → IsMinimum num
      → All (λ e. IsOffered context input.legs strategy_rows e.0 e.1) strategies
      → All (λ e. Memᴰ e.1 asset_rows × (e.1.symbol ≡ e.0)) assets
      → (leg : SubmissionLeg N) (out : ResolvedLeg N)
      → resolve_leg normalize input strategies assets leg ≡ ok out
      → IsResolved strategy_rows asset_rows leg out
  unfolding resolve_leg asset_and_market
  resolve_leg-IsResolved strategy_rows asset_rows strategies assets smaller hs ha leg out e =
      let (found, f, e1) = >>=-eq-ok (asset_and_market assets leg) _ e in
      let (dataset, d, e2) = >>=-eq-ok (eligible_dataset input found.0) _ e1 in
      let (strategy, s, e3) =
        >>=-eq-ok (eligible_strategy normalize input strategies leg found.0 found.1) _ e2 in
      let (cap, e4) =
        guard-eq-ok (is_within_leverage leg found.0 found.1) leverage_limit_exceeded _ e3 in
      let (notional, n, e5) =
        >>=-eq-ok (notional_result (notional_from_bps input.total_capital leg.allocation_bps)) _
          e4 in
      let (asset, a, f1) = >>=-eq-ok (required (get leg.symbol assets) asset_unavailable) _ f in
      let (market, m, f2) =
        >>=-eq-ok (required (supported_market asset.market) asset_unavailable) _ f1 in
      let (stored, symbol) =
        get-All (λ k a. Memᴰ a asset_rows × (a.symbol ≡ k)) leg.symbol assets ha
          (required-eq-ok (get leg.symbol assets) asset_unavailable a) in
      let same = ok_inj f2 in
      let limit = leverage_cap found.1 in
      let maximum = maximum_leverage found.1 found.0.max_leverage in
      let (finite, below) =
        &&-eq-true (num.is_finite maximum) (not (num.lt maximum leg.leverage)) cap in
      let (in_asset, in_market) =
        smaller found.0.max_leverage (of_ℕ limit) leg.leverage finite
          (not-true (num.lt maximum leg.leverage) below) in
      subst (IsResolved strategy_rows asset_rows leg) (ok_inj e5) (record {
        asset = found.0;
        dataset = dataset;
        strategy = strategy.0;
        rule = strategy.1;
        limit = limit;
        stored = subst (λ (p : QuantAsset N × SupportedMarket). Memᴰ p.0 asset_rows) same stored;
        same_symbol =
            subst (λ (p : QuantAsset N × SupportedMarket). p.0.symbol ≡ leg.symbol) same symbol;
        same_market =
            subst (λ (p : QuantAsset N × SupportedMarket). market_name p.1 ≡ p.0.market) same
              (supported_market-name asset.market market
                (required-eq-ok (supported_market asset.market) asset_unavailable m));
        covering = eligible_dataset-IsCovering input found.0 d;
        fitting =
            eligible_strategy-IsFitting normalize context input strategy_rows strategies leg found.0
              found.1 hs s;
        limited = leverage_cap-IsLimit found.1;
        within_asset = in_asset;
        within_market = in_market;
        shared = notional_result-ok (notional_from_bps input.total_capital leg.allocation_bps) n;
        result =
            ap
              (λ p.
                record (resolved_leg leg found.0 found.1 dataset strategy.0 strategy.1 notional) {
                  strategy_parameters = p;
                })
              (parameters_or-run_with leg.strategy_parameters strategy.1);
      })

  -- Let the smaller of two numbers, where it is finite and not below a third, have neither of the two
  -- below it. Where all legs of a submission are resolved, the results stand for its legs one by one and
  -- in their order. Each takes its share of the capital and the other figures from its leg, and the ids
  -- from the rows that it stands on. These are an asset row of the symbol of the leg, in a supported
  -- market; a dataset of that asset for the timeframe and the price policy asked for, and in it the
  -- highest of the active versions whose quality is passed or warning, which covers the requested range
  -- and has no provider gap and no unverified calendar in it; and a strategy row that the organisation
  -- may see, whose code and version, joined by @, are those of the leg, and separately those of some leg
  -- of the submission, which is active and supports the market and the timeframe, and whose custom rule,
  -- if it has one, is active, normalised and in a currency that fits the asset's. The leverage is above
  -- neither the limit of the asset nor that of the market: 2 for Vietnamese equities, 1 for crypto and
  -- metals.
  pub resolve_portfolio_legs-IsResolved :
      (strategy_rows : List StrategyRow) (asset_rows : List (QuantAsset N))
      {legs : List (ResolvedLeg N)}
      → IsMinimum num
      → resolve_portfolio_legs normalize input context strategy_rows asset_rows ≡ ok legs
      → Forall₂ (IsResolved strategy_rows asset_rows) input.legs legs
  unfolding resolve_portfolio_legs
  resolve_portfolio_legs-IsResolved strategy_rows asset_rows smaller e =
      let strategies = strategies_by_key context input.legs [] strategy_rows in
      let assets = assets_by_symbol input.legs [] asset_rows in
      let (u, c, e1) = >>=-eq-ok (check_synchronized strategies input.legs) _ e in
      map_result-Forall₂ (IsResolved strategy_rows asset_rows)
        (resolve_leg normalize input strategies assets)
        (resolve_leg-IsResolved strategy_rows asset_rows strategies assets smaller
          (strategies_by_key-All context strategy_rows input.legs [] strategy_rows (λ s m. m) tt)
          (assets_by_symbol-All asset_rows input.legs [] asset_rows (λ a m. m) tt))
        input.legs e1
