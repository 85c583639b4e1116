-- ===== src/Builder/Legs.antt =====
-- src/lib/backtest/builder-state.ts: what the builder does to its legs, and the optimizer's proposal.
use Prim.Native.String.{String}
use text.Mathlib.Text.{◌==◌}
use radar_asset.Base.{
  ℕ, ◌-◌, min, Bool, false, ◌&&◌, Option, none, some, List, [], ◌∷◌, ◌++◌, map, if◌then◌else◌, leb,
  all, Result, ok, ◌>>◌, guard,
}
use radar_asset.Base.Int.{ℤ, pos_part}
use radar_asset.Base.Sort.{sort}
use radar_asset.Base.Words.{Word, word_eq, word_lt, codes, begins_with}
use radar_asset.Base.Assoc.{Dict}
use radar_asset.Allocation.{total_allocation_bps, equal_allocation_for_total}
use radar_asset.Builder.State.{
  AllocationMode, equal, custom, optimized, BuilderError, symbols_changed, target_changed,
  datasets_changed, CatalogAsset, StrategyInput, DraftLeg, OptimizerProposal, BuilderState,
}

-- `Math.min(maximum, Math.max(minimum, …))`, or the minimum where the number is not finite; for a
-- minimum of zero, which every call passes.
unfoldable pub clamp_integer : Option ℤ → ℕ → ℕ
clamp_integer none maximum = 0
clamp_integer (some z) maximum = min maximum (pos_part z)

-- `weights[symbol]`.
unfoldable pub entry {ℓ} : {A : Type ℓ} → Word → List (Word × A) → Option A
unfolding word_eq
entry symbol [] = none
entry symbol ((s, a) ∷ rest) = if word_eq s symbol then some a else entry symbol rest

-- `words.join("|")`, after the first word.
unfoldable pub join_rest : List Word → Word
join_rest [] = []
join_rest (w ∷ ws) = 124 ∷ (w ++ join_rest ws)

unfoldable pub join : List Word → Word
unfolding join_rest
join [] = []
join (w ∷ ws) = w ++ join_rest ws

abbrev pub sorted_words : List Word → List Word
sorted_words ws = sort (λ x y. word_lt y x) ws

abbrev pub or_zero : Option ℕ → ℕ
or_zero none = 0
or_zero (some n) = n

abbrev pub unoptimized : AllocationMode → AllocationMode
unoptimized optimized = custom
unoptimized mode = mode

abbrev pub same_dataset : Option String → Option String → Bool
same_dataset (some a) (some b) = a == b
same_dataset _ _ = false

module _ {ℓ} {N D : Type ℓ} where
  abbrev pub symbol_of : DraftLeg N D → Word
  symbol_of leg = leg.asset.symbol

  abbrev pub symbols_of_legs : List (DraftLeg N D) → List Word
  symbols_of_legs legs = map symbol_of legs

  abbrev pub investable : BuilderState N D → ℕ
  investable s = total_allocation_bps - s.assumptions.cash_allocation_bps

  -- Gives each leg its weight of an equal division.
  unfoldable pub weigh : List (Word × ℕ) → List (DraftLeg N D) → List (DraftLeg N D)
  unfolding entry
  weigh weights [] = []
  weigh weights (leg ∷ legs) =
      record leg { allocation_bps = some (or_zero (entry (symbol_of leg) weights)) }
      ∷ weigh weights legs

  unfoldable pub rebalance_equal : BuilderState N D → List (DraftLeg N D) → List (DraftLeg N D)
  unfolding weigh equal_allocation_for_total
  rebalance_equal s legs =
      weigh (equal_allocation_for_total (symbols_of_legs legs) (investable s)) legs

  abbrev pub parameters_of : StrategyInput N D → Dict N
  parameters_of strategy =
      if begins_with (codes strategy.code) (codes "custom:")
      then []
      else strategy.default_parameters

  unfoldable pub with_strategy : StrategyInput N D → DraftLeg N D → DraftLeg N D
  unfolding begins_with
  with_strategy strategy leg = record leg {
    strategy_code = strategy.code;
    strategy_version = strategy.version;
    strategy_name = strategy.name;
    strategy_parameters = parameters_of strategy;
    strategy_parameter_schema = strategy.parameter_schema;
    supported_markets = strategy.supported_markets;
  }

  unfoldable pub new_leg : N → CatalogAsset D → StrategyInput N D → DraftLeg N D
  unfolding begins_with
  new_leg one asset strategy = record {
    asset = asset;
    allocation_bps = some 0;
    leverage = one;
    strategy_code = strategy.code;
    strategy_version = strategy.version;
    strategy_name = strategy.name;
    strategy_parameters = parameters_of strategy;
    strategy_parameter_schema = strategy.parameter_schema;
    supported_markets = strategy.supported_markets;
  }

  -- `legs.map((leg) => leg.symbol === symbol ? change(leg) : leg)`.
  unfoldable pub change_leg :
      Word → (DraftLeg N D → DraftLeg N D) → List (DraftLeg N D) → List (DraftLeg N D)
  unfolding word_eq
  change_leg symbol change [] = []
  change_leg symbol change (leg ∷ legs) =
      (if word_eq (symbol_of leg) symbol then change leg else leg) ∷ change_leg symbol change legs

  -- The legs, divided equally where the mode asks for it.
  abbrev pub by_mode : AllocationMode → BuilderState N D → List (DraftLeg N D) → List (DraftLeg N D)
  by_mode equal s legs = rebalance_equal s legs
  by_mode _ s legs = legs

  abbrev pub has_dataset : OptimizerProposal → DraftLeg N D → Bool
  has_dataset proposal leg =
      same_dataset (entry (symbol_of leg) proposal.dataset_version_ids) leg.asset.dataset_version_id

  unfoldable pub take_weights : OptimizerProposal → List (DraftLeg N D) → List (DraftLeg N D)
  unfolding entry
  take_weights proposal [] = []
  take_weights proposal (leg ∷ legs) =
      record leg { allocation_bps = entry (symbol_of leg) proposal.weights_bps }
      ∷ take_weights proposal legs

  unfoldable pub apply_optimizer_proposal :
      BuilderState N D → OptimizerProposal → Result BuilderError (BuilderState N D)
  unfolding join sort word_lt word_eq all entry take_weights
  apply_optimizer_proposal s proposal = do
    guard
        (word_eq (join (sorted_words (symbols_of_legs s.legs)))
          (join (sorted_words (map (λ e. e.0) proposal.weights_bps))))
        symbols_changed
    guard
        (leb proposal.total_weight_bps (investable s)
          && leb (investable s) proposal.total_weight_bps)
        target_changed
    guard (all (has_dataset proposal) s.legs) datasets_changed
    ok (record s {
      allocation_mode = optimized;
      optimizer_proposal = some proposal;
      legs = take_weights proposal s.legs;
    })
