-- ===== src/Runs/Fitting.antt =====
-- src/lib/backend/quant-runs.ts, resolvePortfolioLegs: the strategy that a leg is run with.
use Prim.Native.String.{String, ◌++◌}
use mathlib.Core.List.{Memᴰ}
use text.Mathlib.Text.{◌==◌}
use text.Mathlib.TextEquality.{eq_iff}
use radar_asset.Base.{
  ◌≡◌, sym, subst, ◌⊎◌, inl, inr, true, ◌&&◌, &&-eq-true, Bool-cases, Option, none, some, List, All,
  Result, ok, required, >>=-eq-ok, guard-eq-ok, required-eq-ok, ok_inj, any-Memᴰ,
}
use radar_asset.Base.Assoc.{Dict, get}
use radar_asset.Base.Number.{Number}
use radar_asset.Access.{TenantContext}
use radar_asset.Runs.State.{
  RunError, strategy_unavailable, strategy_unsupported, SupportedMarket, market_name, SubmissionLeg,
  Submission, QuantAsset, CustomVersion, StrategyRow, ExecutableRule,
}
use radar_asset.Runs.Legs.{
  includes, custom_rule, is_active_custom, fits_currency, currency_matches_rule, key_of,
  eligible_strategy,
}
use radar_asset.Runs.Rows.{get-All, IsOffered}

-- The assets of the currency can be traded by a rule of the other one: rules in USD take USDT too.
abbrev pub IsPayable : String → String → Type 0
IsPayable currency of_rule = (currency ≡ of_rule) ⊎ ((of_rule ≡ "USD") × (currency ≡ "USDT"))

matches-IsPayable :
    (currency of_rule : String)
    → currency_matches_rule currency of_rule ≡ true
    → IsPayable currency of_rule
matches-IsPayable currency of_rule e = elim (Bool-cases (currency == of_rule)) [
  | inl same ↦ inl ((eq_iff currency of_rule).0 same)
  | inr n ↦
      let (dollars, tether) = &&-eq-true (of_rule == "USD") (currency == "USDT") (rw n at e) in
      inr ((eq_iff of_rule "USD").0 dollars, (eq_iff currency "USDT").0 tether)
]

-- A custom strategy is active, as is its version, and its rule is in a currency that fits the asset. The
-- rule is what a leg is run with.
pub data IsRunnable (normalize : String → Result RunError ExecutableRule) (currency : String)
    : Option CustomVersion → Option ExecutableRule → Type 0 where
  built_in : IsRunnable normalize currency none none
  custom :
      (c : CustomVersion) (rule : ExecutableRule)
      → c.status ≡ "active"
      → c.strategy_status ≡ "active"
      → normalize c.rule_definition ≡ ok rule
      → IsPayable currency rule.currency
      → IsRunnable normalize currency (some c) (some rule)

custom-IsRunnable :
    (normalize : String → Result RunError ExecutableRule) (currency : String)
    (c : Option CustomVersion) {rule : Option ExecutableRule}
    → custom_rule normalize c ≡ ok rule
    → is_active_custom c ≡ true
    → fits_currency currency rule ≡ true
    → IsRunnable normalize currency c rule
custom-IsRunnable normalize currency none e active fits =
    subst (IsRunnable normalize currency none) (ok_inj e) IsRunnable.built_in
custom-IsRunnable normalize currency (some c) e active fits =
    let (rule, normalized, same) = >>=-eq-ok (normalize c.rule_definition) _ e in
    let (status, strategy) =
      &&-eq-true (c.status == "active") (c.strategy_status == "active") active in
    subst (IsRunnable normalize currency (some c)) (ok_inj same) (
      IsRunnable.custom c rule ((eq_iff c.status "active").0 status)
        ((eq_iff c.strategy_status "active").0 strategy) normalized
        (matches-IsPayable currency rule.currency
          (subst (λ r. fits_currency currency r ≡ true) (sym (ok_inj same)) fits)))

includes-Memᴰ :
    (values : List String) (value : String) → includes values value ≡ true → Memᴰ value values
includes-Memᴰ values value e =
    let (v, m, same) = any-Memᴰ (λ v. v == value) values e in
    subst (λ v. Memᴰ v values) ((eq_iff v value).0 same) m

module _ {ℓ} {N : Type ℓ} ⦃num : Number N⦄ (normalize : String → Result RunError ExecutableRule)
    (context : TenantContext) (input : Submission N) where
  -- A strategy row of the key of the leg that the organisation may see, which is active, can be run for
  -- the currency of the asset with this rule, and supports the market and the timeframe.
  pub record IsFitting (rows : List StrategyRow) (leg : SubmissionLeg N) (asset : QuantAsset N)
      (market : SupportedMarket) (strategy : StrategyRow) (rule : Option ExecutableRule)
      : Type ℓ where
    pub offered :
        IsOffered context input.legs rows
          (leg.strategy_code ++ ("@" ++ leg.strategy_version))
          strategy
    pub active : strategy.status ≡ "active"
    pub runnable : IsRunnable normalize asset.currency strategy.custom rule
    pub for_market : Memᴰ (market_name market) strategy.supported_markets
    pub for_timeframe : Memᴰ input.timeframe strategy.supported_timeframes

  pub eligible_strategy-IsFitting :
      (rows : List StrategyRow) (strategies : Dict StrategyRow) (leg : SubmissionLeg N)
      (asset : QuantAsset N) (market : SupportedMarket) {r : StrategyRow × Option ExecutableRule}
      → All (λ e. IsOffered context input.legs rows e.0 e.1) strategies
      → eligible_strategy normalize input strategies leg asset market ≡ ok r
      → IsFitting rows leg asset market r.0 r.1
  unfolding eligible_strategy
  eligible_strategy-IsFitting rows strategies leg asset market hs e =
      let (strategy, s, e7) =
        >>=-eq-ok (required (get (key_of leg) strategies) strategy_unavailable) _ e in
      let (active, e8) = guard-eq-ok (strategy.status == "active") strategy_unavailable _ e7 in
      let (rule, normalized, e9) = >>=-eq-ok (custom_rule normalize strategy.custom) _ e8 in
      let (custom_active, e10) =
        guard-eq-ok (is_active_custom strategy.custom) strategy_unavailable _ e9 in
      let (in_currency, e11) =
        guard-eq-ok (fits_currency asset.currency rule) strategy_unsupported _ e10 in
      let for_market = includes strategy.supported_markets (market_name market) in
      let for_timeframe = includes strategy.supported_timeframes input.timeframe in
      let (fits, e12) = guard-eq-ok (for_market && for_timeframe) strategy_unsupported _ e11 in
      let two = &&-eq-true for_market for_timeframe fits in
      subst (λ (r : StrategyRow × Option ExecutableRule). IsFitting rows leg asset market r.0 r.1)
        (ok_inj e12)
        (record {
          offered =
              get-All (IsOffered context input.legs rows) (key_of leg) strategies hs
                (required-eq-ok (get (key_of leg) strategies) strategy_unavailable s);
          active = (eq_iff strategy.status "active").0 active;
          runnable =
              custom-IsRunnable normalize asset.currency strategy.custom normalized custom_active
                in_currency;
          for_market = includes-Memᴰ strategy.supported_markets (market_name market) two.0;
          for_timeframe = includes-Memᴰ strategy.supported_timeframes input.timeframe two.1;
        })
