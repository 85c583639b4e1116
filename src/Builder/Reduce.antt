-- ===== src/Builder/Reduce.antt =====
-- src/lib/backtest/builder-state.ts: the reducer of the builder. `localeCompare`, by which legs are
-- sorted, is a parameter.
use radar_asset.Base.{
  Bool, not, ◌&&◌, Option, none, some, List, [], ◌∷◌, ◌++◌, if◌then◌else◌, leb, length, any, keep,
  is_some, Result, ok, ◌>>◌, guard,
}
use radar_asset.Base.Int.{ℤ}
use radar_asset.Base.Sort.{sort}
use radar_asset.Base.Words.{Word, word_eq}
use radar_asset.Base.Assoc.{put}
use radar_asset.Freshness.{MarketDataMarket, crypto_spot, vn_equity, metal_spot}
use radar_asset.Ledger.{Sign, is_positive, nonempty}
use radar_asset.Allocation.{total_allocation_bps}
use radar_asset.Builder.State.{
  equal, custom, BuilderError, too_many_assets, not_backtestable, CatalogAsset, StrategyInput,
  DraftLeg, MarketCost, CostKey, commission, sell_tax, slippage, financing, MarketCosts,
  Assumptions, BuilderState, AssumptionEdit, rebalance, contribution, dividends, currency,
  BuilderAction, asset_added, asset_refreshed, asset_removed, allocation_edited, made_equal,
  made_custom, cash_allocation_edited, strategy_changed, strategy_parameter_edited, leverage_edited,
  total_capital_edited, timeframe_changed, range_changed, assumption_edited, market_cost_edited,
  optimizer_applied,
}
use radar_asset.Builder.Legs.{
  clamp_integer, unoptimized, symbol_of, rebalance_equal, with_strategy, new_leg, change_leg,
  by_mode, apply_optimizer_proposal,
}

module _ {ℓ} {N : Type ℓ} where
  abbrev pub edit_assumption : AssumptionEdit N → Assumptions N → Assumptions N
  edit_assumption (rebalance f) a = record a { rebalance_frequency = f }
  edit_assumption (contribution x) a = record a { monthly_contribution = x }
  edit_assumption (dividends d) a = record a { dividend_mode = d }
  edit_assumption (currency c) a = record a { base_currency = c }

  abbrev edit_cost : CostKey → N → MarketCost N → MarketCost N
  edit_cost commission x c = record c { commission_bps = x }
  edit_cost sell_tax x c = record c { sell_tax_bps = x }
  edit_cost slippage x c = record c { slippage_bps = x }
  edit_cost financing x c = record c { financing_bps_annual = x }

  abbrev pub edit_market_cost : MarketDataMarket → CostKey → N → MarketCosts N → MarketCosts N
  edit_market_cost vn_equity key x m = record m { vn_equity = edit_cost key x m.vn_equity }
  edit_market_cost crypto_spot key x m = record m { crypto_spot = edit_cost key x m.crypto_spot }
  edit_market_cost metal_spot key x m = record m { metal_spot = edit_cost key x m.metal_spot }

module _ {ℓ} {N D : Type ℓ} where
  abbrev pub is_selected : Word → List (DraftLeg N D) → Bool
  is_selected symbol legs = any (λ leg. word_eq (symbol_of leg) symbol) legs

  -- `one` is the number 1, the leverage of a new leg.
  unfoldable pub add_asset :
      (Word → Word → Sign)
      → N
      → CatalogAsset D
      → StrategyInput N D
      → BuilderState N D
      → Result BuilderError (BuilderState N D)
  unfolding any word_eq new_leg sort rebalance_equal
  add_asset compare one asset strategy s = if is_selected asset.symbol s.legs then ok s else do
    guard (not (leb 10 (length s.legs))) too_many_assets
    guard (asset.backtestable && is_some (nonempty asset.dataset_version_id)) not_backtestable
    ok (record s {
      optimizer_proposal = none;
      legs = by_mode s.allocation_mode s (
          sort (λ x y. is_positive (compare (symbol_of x) (symbol_of y)))
            (s.legs ++ new_leg one asset strategy ∷ []));
    })

  unfoldable pub remove_asset : Word → BuilderState N D → BuilderState N D
  unfolding keep word_eq rebalance_equal
  remove_asset symbol s = record s {
    optimizer_proposal = none;
    legs = by_mode s.allocation_mode s (keep (λ leg. not (word_eq (symbol_of leg) symbol)) s.legs);
  }

  unfoldable pub edit_cash : Option ℤ → BuilderState N D → BuilderState N D
  unfolding clamp_integer rebalance_equal
  edit_cash value s =
      let next = record s {
        assumptions = record s.assumptions {
          cash_allocation_bps = clamp_integer value total_allocation_bps;
        };
        optimizer_proposal = none;
      } in
      record next {
        allocation_mode = unoptimized s.allocation_mode;
        legs = by_mode s.allocation_mode next s.legs;
      }

  unfoldable pub reduce_builder :
      (Word → Word → Sign)
      → N
      → BuilderState N D
      → BuilderAction N D
      → Result BuilderError (BuilderState N D)
  unfolding add_asset remove_asset edit_cash change_leg clamp_integer rebalance_equal with_strategy
      put apply_optimizer_proposal
  reduce_builder compare one s (asset_added asset strategy) = add_asset compare one asset strategy s
  reduce_builder compare one s (asset_removed symbol) = ok (remove_asset symbol s)
  reduce_builder compare one s (asset_refreshed asset) = ok (record s {
    optimizer_proposal = none;
    allocation_mode = unoptimized s.allocation_mode;
    legs = change_leg asset.symbol (λ leg. record leg { asset = asset }) s.legs;
  })
  reduce_builder compare one s (allocation_edited symbol value) = ok (record s {
    allocation_mode = custom;
    optimizer_proposal = none;
    legs =
        change_leg symbol
          (λ leg. record leg { allocation_bps = some (clamp_integer value total_allocation_bps) })
          s.legs;
  })
  reduce_builder compare one s made_equal = ok (record s {
    allocation_mode = equal;
    optimizer_proposal = none;
    legs = rebalance_equal s s.legs;
  })
  reduce_builder compare one s made_custom =
      ok (record s { allocation_mode = custom; optimizer_proposal = none })
  reduce_builder compare one s (cash_allocation_edited value) = ok (edit_cash value s)
  reduce_builder compare one s (strategy_changed symbol strategy) =
      ok (record s { legs = change_leg symbol (with_strategy strategy) s.legs })
  reduce_builder compare one s (strategy_parameter_edited symbol parameter value) = ok (record s {
    legs =
        change_leg symbol
          (λ leg. record leg { strategy_parameters = put parameter value leg.strategy_parameters })
          s.legs;
  })
  reduce_builder compare one s (leverage_edited symbol leverage) =
      ok (record s { legs = change_leg symbol (λ leg. record leg { leverage = leverage }) s.legs })
  reduce_builder compare one s (total_capital_edited x) = ok (record s { total_capital = x })
  reduce_builder compare one s timeframe_changed = ok (record s { optimizer_proposal = none })
  reduce_builder compare one s (range_changed from to) =
      ok (record s { from_date = from; to_date = to; optimizer_proposal = none })
  reduce_builder compare one s (assumption_edited edit) =
      ok (record s { assumptions = edit_assumption edit s.assumptions; optimizer_proposal = none })
  reduce_builder compare one s (market_cost_edited market key x) = ok (record s {
    assumptions = record s.assumptions {
      market_costs = edit_market_cost market key x s.assumptions.market_costs;
    };
    optimizer_proposal = none;
  })
  reduce_builder compare one s (optimizer_applied proposal) = apply_optimizer_proposal s proposal
