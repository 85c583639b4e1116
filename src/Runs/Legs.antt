-- ===== src/Runs/Legs.antt =====
-- src/lib/backend/quant-runs.ts: resolvePortfolioLegs.
use Prim.Native.String.{String, ◌++◌}
use text.Mathlib.Text.{◌==◌}
use radar_asset.Base.{
  ℕ, Bool, true, not, ◌&&◌, ◌||◌, Option, none, some, List, [], ◌∷◌, if◌then◌else◌, ltb, Result, ok,
  err, ◌>>=◌, ◌>>◌, guard, required, map_result, find, keep, any, get_elem?, is_some,
}
use radar_asset.Base.Text.{text_lt}
use radar_asset.Base.Sort.{sort}
use radar_asset.Base.Assoc.{Dict, get, put}
use radar_asset.Base.Number.{Number, of_ℕ}
use radar_asset.Allocation.{AllocationError, notional_from_bps}
use radar_asset.Builder.State.{DividendMode, exclude, adjusted_prices}
use radar_asset.Access.{TenantContext}
use radar_asset.Runs.State.{
  RunError, asset_unavailable, dataset_unavailable, dataset_range_insufficient,
  dataset_provider_gap, dataset_calendar_unverified, leverage_limit_exceeded, strategy_unavailable,
  strategy_unsupported, of_allocation, SupportedMarket, vn_equity, crypto_spot, metal_spot,
  market_name, SubmissionLeg, Submission, DatasetIssue, DatasetVersion, Dataset, QuantAsset,
  CustomVersion, StrategyRow, ExecutableRule, ResolvedLeg,
}

unfoldable pub supported_market : String → Option SupportedMarket
supported_market value =
    if value == "vn_equity"
    then some vn_equity
    else if value == "crypto_spot"
    then some crypto_spot
    else if value == "metal_spot"
    then some metal_spot
    else none

-- `MARKET_LEVERAGE_CAP`.
abbrev pub leverage_cap : SupportedMarket → ℕ
leverage_cap vn_equity = 2
leverage_cap crypto_spot = 1
leverage_cap metal_spot = 1

abbrev pub currency_matches_rule : String → String → Bool
currency_matches_rule asset_currency rule_currency =
    (asset_currency == rule_currency) || ((rule_currency == "USD") && (asset_currency == "USDT"))

abbrev pub date_boundary : String → String
date_boundary value = value ++ "T00:00:00.000Z"

abbrev pub policy_for : DividendMode → String
policy_for adjusted_prices = "total_return"
policy_for exclude = "raw"

abbrev pub strategy_key : String → String → String
strategy_key code version = code ++ ("@" ++ version)

abbrev pub is_visible : TenantContext → Option String → Bool
is_visible context none = true
is_visible context (some organization_id) = organization_id == context.organization_id

abbrev pub includes : List String → String → Bool
includes values value = any (λ v. v == value) values

-- The issues of the query: those of the two classes that meet the requested range.
abbrev pub is_relevant : String → String → DatasetIssue → Bool
is_relevant from to issue =
    not (text_lt (date_boundary to) issue.range_start)
    && (not (text_lt issue.range_end (date_boundary from))
        && ((issue.classification == "PROVIDER_GAP")
            || (issue.classification == "CALENDAR_RANGE_UNVERIFIED")))

abbrev pub is_eligible_version : DatasetVersion → Bool
is_eligible_version v =
    v.is_active && ((v.quality_status == "passed") || (v.quality_status == "warning"))

-- The newest eligible version of the first dataset for the timeframe and the policy.
unfoldable pub newest_version : Option Dataset → Option DatasetVersion
unfolding keep sort
newest_version none = none
newest_version (some d) =
    get_elem? (sort (λ x y. ltb x.version y.version) (keep is_eligible_version d.versions)) 0

unfoldable pub dataset_of : String → String → List Dataset → Option DatasetVersion
unfolding find newest_version
dataset_of timeframe policy datasets =
    newest_version
      (find (λ d. (d.timeframe == timeframe) && (d.adjustment_policy == policy)) datasets)

unfoldable pub has_issue : String → String → String → DatasetVersion → Bool
unfolding any keep text_lt
has_issue classification from to dataset =
    any (λ i. i.classification == classification) (keep (is_relevant from to) dataset.issues)

abbrev pub first_listed : List String → Option String
first_listed dates = get_elem? (sort (λ x y. text_lt y x) dates) 0

-- The rule of a custom strategy, normalised by the function that is a parameter.
abbrev pub custom_rule :
    (String → Result RunError ExecutableRule)
    → Option CustomVersion
    → Result RunError (Option ExecutableRule)
custom_rule normalize none = ok none
custom_rule normalize (some c) = do rule ← normalize c.rule_definition; ok (some rule)

abbrev pub is_active_custom : Option CustomVersion → Bool
is_active_custom none = true
is_active_custom (some c) = (c.status == "active") && (c.strategy_status == "active")

abbrev pub fits_currency : String → Option ExecutableRule → Bool
fits_currency currency none = true
fits_currency currency (some rule) = currency_matches_rule currency rule.currency

abbrev pub parameters_or : String → Option ExecutableRule → String
parameters_or own none = own
parameters_or own (some rule) = rule.definition

abbrev pub notional_result {ℓ} : {N : Type ℓ} → Result AllocationError N → Result RunError N
notional_result (ok n) = ok n
notional_result (err e) = err (of_allocation e)

module _ {ℓ} {N : Type ℓ} where
  abbrev pub is_asked : List (SubmissionLeg N) → StrategyRow → Bool
  is_asked legs s =
      any (λ leg. (leg.strategy_code == s.code) && (leg.strategy_version == s.version)) legs

  -- `new Map(strategies.map(…))` over the rows of the query.
  unfoldable pub strategies_by_key :
      TenantContext
      → List (SubmissionLeg N)
      → Dict StrategyRow
      → List StrategyRow
      → Dict StrategyRow
  unfolding put any
  strategies_by_key context legs m [] = m
  strategies_by_key context legs m (s ∷ rows) =
      strategies_by_key context legs
        (if is_visible context s.organization_id && is_asked legs s
          then put (strategy_key s.code s.version) s m
          else m)
        rows

  unfoldable pub assets_by_symbol :
      List (SubmissionLeg N) → Dict (QuantAsset N) → List (QuantAsset N) → Dict (QuantAsset N)
  unfolding put any
  assets_by_symbol legs m [] = m
  assets_by_symbol legs m (a ∷ rows) =
      assets_by_symbol legs
        (if any (λ leg. leg.symbol == a.symbol) legs then put a.symbol a m else m) rows

  abbrev pub key_of : SubmissionLeg N → String
  key_of leg = strategy_key leg.strategy_code leg.strategy_version

  -- The loop that throws for a strategy that is not there.
  unfoldable pub check_synchronized :
      Dict StrategyRow → List (SubmissionLeg N) → Result RunError (Unit {0})
  unfolding get
  check_synchronized strategies [] = ok tt
  check_synchronized strategies (leg ∷ legs) = do
    guard (is_some (get (key_of leg) strategies)) strategy_unavailable
    check_synchronized strategies legs

  -- The asset of a leg, in a market that is supported.
  unfoldable pub asset_and_market :
      Dict (QuantAsset N) → SubmissionLeg N → Result RunError (QuantAsset N × SupportedMarket)
  unfolding get supported_market
  asset_and_market assets leg = do
    asset ← required (get leg.symbol assets) asset_unavailable
    market ← required (supported_market asset.market) asset_unavailable
    ok (asset, market)

  abbrev pub resolved_leg :
      SubmissionLeg N
      → QuantAsset N
      → SupportedMarket
      → DatasetVersion
      → StrategyRow
      → Option ExecutableRule
      → N
      → ResolvedLeg N
  resolved_leg leg asset market dataset strategy rule notional = record {
    symbol = leg.symbol;
    asset_id = asset.id;
    dataset_version_id = dataset.id;
    dataset_checksum = dataset.checksum;
    strategy_version_id = strategy.id;
    implementation_hash = strategy.implementation_hash;
    allocation_bps = leg.allocation_bps;
    leverage = leg.leverage;
    strategy_parameters = parameters_or leg.strategy_parameters rule;
    initial_notional = notional;
    market = market;
    currency = asset.currency;
    strategy_code = leg.strategy_code;
    strategy_version = leg.strategy_version;
    listing_first_observed_at = first_listed asset.listed_from;
  }

module _ {ℓ} {N : Type ℓ} (input : Submission N) where
  -- The dataset of the asset, checked against the requested range.
  unfoldable pub eligible_dataset : QuantAsset N → Result RunError DatasetVersion
  unfolding dataset_of has_issue text_lt
  eligible_dataset asset = do
    dataset ←
        required
          (dataset_of input.timeframe (policy_for input.assumptions.dividend_mode) asset.datasets)
          dataset_unavailable
    guard
        (not (
          text_lt (date_boundary input.from) dataset.coverage_start
          || text_lt dataset.coverage_end (date_boundary input.to)))
        dataset_range_insufficient
    guard (not (has_issue "CALENDAR_RANGE_UNVERIFIED" input.from input.to dataset))
        dataset_calendar_unverified
    guard (not (has_issue "PROVIDER_GAP" input.from input.to dataset)) dataset_provider_gap
    ok dataset

module _ {ℓ} {N : Type ℓ} ⦃num : Number N⦄ where
  abbrev pub maximum_leverage : SupportedMarket → N → N
  maximum_leverage market max_leverage = num.minimum max_leverage (of_ℕ (leverage_cap market))

  abbrev pub is_within_leverage : SubmissionLeg N → QuantAsset N → SupportedMarket → Bool
  is_within_leverage leg asset market =
      let maximum = maximum_leverage market asset.max_leverage in
      num.is_finite maximum && not (num.lt maximum leg.leverage)

module _ {ℓ} {N : Type ℓ} ⦃num : Number N⦄ (normalize : String → Result RunError ExecutableRule)
    (input : Submission N) where
  -- The strategy of the leg, checked against the asset and its market.
  unfoldable pub eligible_strategy :
      Dict StrategyRow
      → SubmissionLeg N
      → QuantAsset N
      → SupportedMarket
      → Result RunError (StrategyRow × Option ExecutableRule)
  unfolding get any
  eligible_strategy strategies leg asset market = do
    strategy ← required (get (key_of leg) strategies) strategy_unavailable
    guard (strategy.status == "active") strategy_unavailable
    rule ← custom_rule normalize strategy.custom
    guard (is_active_custom strategy.custom) strategy_unavailable
    guard (fits_currency asset.currency rule) strategy_unsupported
    guard
        (includes strategy.supported_markets (market_name market)
          && includes strategy.supported_timeframes input.timeframe)
        strategy_unsupported
    ok (strategy, rule)

  unfoldable pub resolve_leg :
      Dict StrategyRow → Dict (QuantAsset N) → SubmissionLeg N → Result RunError (ResolvedLeg N)
  unfolding asset_and_market eligible_dataset eligible_strategy sort notional_from_bps text_lt
  resolve_leg strategies assets leg = do
    found ← asset_and_market assets leg
    dataset ← eligible_dataset input found.0
    strategy ← eligible_strategy strategies leg found.0 found.1
    guard (is_within_leverage leg found.0 found.1) leverage_limit_exceeded
    notional ← notional_result (notional_from_bps input.total_capital leg.allocation_bps)
    ok (resolved_leg leg found.0 found.1 dataset strategy.0 strategy.1 notional)

  unfoldable pub resolve_portfolio_legs :
      TenantContext
      → List StrategyRow
      → List (QuantAsset N)
      → Result RunError (List (ResolvedLeg N))
  unfolding strategies_by_key assets_by_symbol check_synchronized resolve_leg map_result
  resolve_portfolio_legs context strategy_rows asset_rows = do
    let strategies = strategies_by_key context input.legs [] strategy_rows
    check_synchronized strategies input.legs
    map_result (resolve_leg strategies (assets_by_symbol input.legs [] asset_rows)) input.legs
