-- ===== src/Builder/Invariant.antt =====
-- What the reducer of the builder keeps.
use mathlib.Core.List.{map-append}
use radar_asset.Base.{
  ℕ, ◌-◌, ◌≤◌, ◌<◌, ◌≡◌, refl, sym, ap, ◌∙◌, subst, inl, inr, true, false, not, ◌||◌, ◌&&◌, Option,
  none, some, List, [], ◌∷◌, ◌++◌, map, Bool-cases, length, length-append, length-keep, leb, All,
  any, all, keep, is_some, ok, guard-eq-ok, ok_inj, arith,
}
use radar_asset.Base.Int.{ℤ}
use radar_asset.Base.Sort.{sort, length-sort, map-sort}
use radar_asset.Base.Words.{Word, word_eq, word_eq_iff}
use radar_asset.Base.Assoc.{put}
use radar_asset.Ledger.{Sign, is_positive, nonempty}
use radar_asset.Allocation.{total_allocation_bps, equal_allocation_for_total}
use radar_asset.Builder.State.{
  AllocationMode, equal, custom, optimized, too_many_assets, not_backtestable, symbols_changed,
  target_changed, datasets_changed, CatalogAsset, StrategyInput, DraftLeg, Assumptions,
  OptimizerProposal, BuilderState, AssumptionEdit, rebalance, contribution, dividends, currency,
  BuilderAction, asset_added, asset_refreshed, asset_removed, allocation_edited, made_equal,
  made_custom, cash_allocation_edited, strategy_changed, strategy_parameter_edited, leverage_edited,
  total_capital_edited, timeframe_changed, range_changed, assumption_edited, market_cost_edited,
  optimizer_applied,
}
use radar_asset.Builder.Legs.{
  clamp_integer, join, sorted_words, symbol_of, symbols_of_legs, investable, weigh, with_strategy,
  new_leg, change_leg, unoptimized, by_mode, has_dataset, apply_optimizer_proposal,
}
use radar_asset.Builder.Reduce.{
  is_selected, edit_assumption, add_asset, remove_asset, edit_cash, reduce_builder,
}
use radar_asset.Builder.Distinct.{IsDistinct, sort-IsDistinct, append-IsDistinct}
use radar_asset.Builder.Laws.{
  IsDivided, IsBuilder, IsChange, length-of_symbols, symbols-by_mode, by_mode-IsDivided,
  symbols-change_leg, change_leg-IsDivided, symbols-take_weights, symbols-rebalance_equal,
  rebalance_equal-IsDivided,
}

unoptimized_equal : (mode : AllocationMode) → unoptimized mode ≡ equal → mode ≡ equal
unoptimized_equal equal e = refl
unoptimized_equal custom e = cc
unoptimized_equal optimized e = cc

clamp_bounded : (value : Option ℤ) (maximum : ℕ) → clamp_integer value maximum ≤ maximum
unfolding clamp_integer
clamp_bounded none maximum = omega arith
clamp_bounded (some z) maximum = omega arith

cash-edit_assumption {ℓ} :
    {N : Type ℓ} (edit : AssumptionEdit N) (a : Assumptions N)
    → (edit_assumption edit a).cash_allocation_bps ≡ a.cash_allocation_bps
cash-edit_assumption (rebalance f) a = refl
cash-edit_assumption (contribution x) a = refl
cash-edit_assumption (dividends d) a = refl
cash-edit_assumption (currency c) a = refl

below_ten : (n : ℕ) → not (leb 10 n) ≡ true → n < 10
below_ten n h = ground arith

module _ {ℓ} {N D : Type ℓ} where
  -- A state with the symbols and the cash of another.
  alike :
      (s next : BuilderState N D)
      → IsBuilder s
      → symbols_of_legs next.legs ≡ symbols_of_legs s.legs
      → next.assumptions.cash_allocation_bps ≤ total_allocation_bps
      → (next.allocation_mode ≡ equal → IsDivided next)
      → IsBuilder next
  alike s next b same cash divided = record {
    distinct = subst IsDistinct (sym same) b.distinct;
    few = subst (λ n. n ≤ 10) (sym (length-of_symbols next.legs s.legs same)) b.few;
    cash = cash;
    divided = divided;
  }

  any-is_selected :
      (symbol : Word) (legs : List (DraftLeg N D))
      → any (λ v. word_eq v symbol) (symbols_of_legs legs) ≡ is_selected symbol legs
  unfolding any
  any-is_selected symbol [] = refl
  any-is_selected symbol (leg ∷ legs) =
      ap (λ b. word_eq (symbol_of leg) symbol || b) (any-is_selected symbol legs)

  keep-symbols :
      (symbol : Word) (legs : List (DraftLeg N D))
      → IsDistinct (symbols_of_legs legs)
      → IsDistinct (symbols_of_legs (keep (λ leg. not (word_eq (symbol_of leg) symbol)) legs))
  unfolding keep
  keep-symbols symbol [] h = tt
  keep-symbols symbol (leg ∷ legs) (a, h) = elim (Bool-cases (word_eq (symbol_of leg) symbol)) [
    | inl e ↦ rw e (keep-symbols symbol legs h)
    | inr e ↦ rw e (kept legs a, keep-symbols symbol legs h)
  ]
    where
      kept :
          (l : List (DraftLeg N D))
          → All (λ v. word_eq v (symbol_of leg) ≡ false) (symbols_of_legs l)
          → All
              (λ v. word_eq v (symbol_of leg) ≡ false)
              (symbols_of_legs (keep (λ x. not (word_eq (symbol_of x) symbol)) l))
      kept [] b = tt
      kept (x ∷ l) (p, b) = elim (Bool-cases (word_eq (symbol_of x) symbol)) [
        | inl e ↦ rw e (kept l b)
        | inr e ↦ rw e (p, kept l b)
      ]

  remove_asset-IsBuilder :
      (symbol : Word) (s : BuilderState N D) → IsBuilder s → IsBuilder (remove_asset symbol s)
  unfolding remove_asset
  remove_asset-IsBuilder symbol s b =
      let legs = keep (λ leg. not (word_eq (symbol_of leg) symbol)) s.legs in
      let same = symbols-by_mode s.allocation_mode s legs in
      record {
        distinct = subst IsDistinct (sym same) (keep-symbols symbol s.legs b.distinct);
        few = omega (
          arith,
          length-of_symbols (by_mode s.allocation_mode s legs) legs same,
          length-keep (λ leg. not (word_eq (symbol_of leg) symbol)) s.legs,
          b.few,
        );
        cash = b.cash;
        divided = by_mode-IsDivided s.allocation_mode s legs;
      }

  edit_cash-IsBuilder :
      (value : Option ℤ) (s : BuilderState N D) → IsBuilder s → IsBuilder (edit_cash value s)
  unfolding edit_cash
  edit_cash-IsBuilder value s b =
      alike s (edit_cash value s) b (symbols-by_mode s.allocation_mode _ s.legs)
        (clamp_bounded value total_allocation_bps)
        (λ e. by_mode-IsDivided s.allocation_mode _ s.legs (unoptimized_equal s.allocation_mode e))

  change_leg-IsBuilder :
      (symbol : Word) (change : DraftLeg N D → DraftLeg N D) (s next : BuilderState N D)
      → IsBuilder s
      → IsChange symbol change
      → next.legs ≡ change_leg symbol change s.legs
      → next.assumptions ≡ s.assumptions
      → (next.allocation_mode ≡ equal → s.allocation_mode ≡ equal)
      → IsBuilder next
  change_leg-IsBuilder symbol change s next b c legs assumptions mode =
      alike s next b
        (ap symbols_of_legs legs ∙ symbols-change_leg symbol change s.legs c.same_symbol)
        (rw assumptions b.cash)
        (λ e.
          rw (legs, assumptions)
            (change_leg-IsDivided symbol change (investable s) s.legs c (b.divided (mode e))))

  add_asset-IsBuilder :
      (compare : Word → Word → Sign) (one : N) (asset : CatalogAsset D)
      (strategy : StrategyInput N D) (s : BuilderState N D) {next : BuilderState N D}
      → IsBuilder s
      → add_asset compare one asset strategy s ≡ ok next
      → IsBuilder next
  unfolding add_asset new_leg
  add_asset-IsBuilder compare one asset strategy s b e =
      elim (Bool-cases (is_selected asset.symbol s.legs)) [
        | inl there ↦ subst IsBuilder (ok_inj (rw there at e)) b
        | inr absent ↦
            let after = λ (x : Word) (y : Word). is_positive (compare x y) in
            let listed = s.legs ++ new_leg one asset strategy ∷ [] in
            let legs = sort (λ x y. after (symbol_of x) (symbol_of y)) listed in
            let (room, e1) =
              guard-eq-ok (not (leb 10 (length s.legs))) too_many_assets _ (rw absent at e) in
            let (ready, e2) =
              guard-eq-ok (asset.backtestable && is_some (nonempty asset.dataset_version_id))
                not_backtestable _ e1 in
            let same = symbols-by_mode s.allocation_mode s legs in
            let symbols : symbols_of_legs listed ≡ symbols_of_legs s.legs ++ asset.symbol ∷ [] =
              map-append symbol_of s.legs (new_leg one asset strategy ∷ []) in
            subst IsBuilder (ok_inj e2) (record {
              distinct = subst IsDistinct (sym (same ∙ map-sort after symbol_of listed)) (
                  sort-IsDistinct after (symbols_of_legs listed) (
                    subst IsDistinct (sym symbols) (
                      append-IsDistinct (symbols_of_legs s.legs) asset.symbol b.distinct
                        (any-is_selected asset.symbol s.legs ∙ absent))));
              few = omega (
                arith,
                below_ten (length s.legs) room,
                length-of_symbols (by_mode s.allocation_mode s legs) legs same,
                length-sort (λ x y. after (symbol_of x) (symbol_of y)) listed,
                length-append s.legs (new_leg one asset strategy ∷ []),
              );
              cash = b.cash;
              divided = by_mode-IsDivided s.allocation_mode s legs;
            })
      ]

  apply_optimizer_proposal-IsBuilder :
      (s : BuilderState N D) (proposal : OptimizerProposal) {next : BuilderState N D}
      → IsBuilder s
      → apply_optimizer_proposal s proposal ≡ ok next
      → IsBuilder next
  unfolding apply_optimizer_proposal
  apply_optimizer_proposal-IsBuilder s proposal b e =
      let (symbols, e1) =
        guard-eq-ok
          (word_eq (join (sorted_words (symbols_of_legs s.legs)))
            (join (sorted_words (map (λ x. x.0) proposal.weights_bps))))
          symbols_changed _ e in
      let (target, e2) =
        guard-eq-ok
          (leb proposal.total_weight_bps (investable s)
            && leb (investable s) proposal.total_weight_bps)
          target_changed _ e1 in
      let (datasets, e3) = guard-eq-ok (all (has_dataset proposal) s.legs) datasets_changed _ e2 in
      subst IsBuilder (ok_inj e3)
        (alike s _ b (symbols-take_weights proposal s.legs) b.cash (λ m. cc m))

  refreshed-IsChange :
      (asset : CatalogAsset D) → IsChange {N = N} asset.symbol (λ leg. record leg { asset = asset })
  refreshed-IsChange asset = record {
    same_symbol = λ leg e. sym ((word_eq_iff (symbol_of leg) asset.symbol).0 e);
    same_weight = λ leg x. refl;
  }

  strategy-IsChange :
      (symbol : Word) (strategy : StrategyInput N D) → IsChange symbol (with_strategy strategy)
  unfolding with_strategy
  strategy-IsChange symbol strategy = record {
    same_symbol = λ leg e. refl;
    same_weight = λ leg x. refl;
  }

  -- Every action that the reducer accepts keeps the builder well formed: no symbol twice, at most ten
  -- legs, cash of at most 10,000 basis points, and in equal mode each leg at its weight of the equal
  -- division of what is not cash.
  pub reduce_builder-IsBuilder :
      (compare : Word → Word → Sign) (one : N) (s : BuilderState N D) (action : BuilderAction N D)
      {next : BuilderState N D}
      → IsBuilder s
      → reduce_builder compare one s action ≡ ok next
      → IsBuilder next
  unfolding reduce_builder
  reduce_builder-IsBuilder compare one s (asset_added asset strategy) b e =
      add_asset-IsBuilder compare one asset strategy s b e
  reduce_builder-IsBuilder compare one s (asset_refreshed asset) b e = subst IsBuilder (ok_inj e) (
      change_leg-IsBuilder asset.symbol (λ leg. record leg { asset = asset }) s _ b
        (refreshed-IsChange asset) refl refl (unoptimized_equal s.allocation_mode))
  reduce_builder-IsBuilder compare one s (asset_removed symbol) b e =
      subst IsBuilder (ok_inj e) (remove_asset-IsBuilder symbol s b)
  reduce_builder-IsBuilder compare one s (allocation_edited symbol value) b e =
      subst IsBuilder (ok_inj e) (
        alike s _ b
          (symbols-change_leg symbol
            (λ leg. record leg { allocation_bps = some (clamp_integer value total_allocation_bps) })
            s.legs (λ leg same. refl))
          b.cash (λ m. cc m))
  reduce_builder-IsBuilder compare one s made_equal b e = subst IsBuilder (ok_inj e) (
      alike s _ b (symbols-rebalance_equal s s.legs) b.cash
        (λ m. rebalance_equal-IsDivided s s.legs))
  reduce_builder-IsBuilder compare one s made_custom b e =
      subst IsBuilder (ok_inj e) (alike s _ b refl b.cash (λ m. cc m))
  reduce_builder-IsBuilder compare one s (cash_allocation_edited value) b e =
      subst IsBuilder (ok_inj e) (edit_cash-IsBuilder value s b)
  reduce_builder-IsBuilder compare one s (strategy_changed symbol strategy) b e =
      subst IsBuilder (ok_inj e) (
        change_leg-IsBuilder symbol (with_strategy strategy) s _ b
          (strategy-IsChange symbol strategy) refl refl (λ m. m))
  reduce_builder-IsBuilder compare one s (strategy_parameter_edited symbol parameter value) b e =
      subst IsBuilder (ok_inj e) (
        change_leg-IsBuilder symbol
          (λ leg. record leg { strategy_parameters = put parameter value leg.strategy_parameters })
          s _ b (record { same_symbol = λ leg same. refl; same_weight = λ leg x. refl }) refl refl
          (λ m. m))
  reduce_builder-IsBuilder compare one s (leverage_edited symbol leverage) b e =
      subst IsBuilder (ok_inj e) (
        change_leg-IsBuilder symbol (λ leg. record leg { leverage = leverage }) s _ b
          (record { same_symbol = λ leg same. refl; same_weight = λ leg x. refl }) refl refl
          (λ m. m))
  reduce_builder-IsBuilder compare one s (total_capital_edited x) b e =
      subst IsBuilder (ok_inj e) (alike s _ b refl b.cash b.divided)
  reduce_builder-IsBuilder compare one s timeframe_changed b e =
      subst IsBuilder (ok_inj e) (alike s _ b refl b.cash b.divided)
  reduce_builder-IsBuilder compare one s (range_changed from to) b e =
      subst IsBuilder (ok_inj e) (alike s _ b refl b.cash b.divided)
  reduce_builder-IsBuilder compare one s (assumption_edited edit) b e =
      let same = cash-edit_assumption edit s.assumptions in
      subst IsBuilder (ok_inj e) (
        alike s _ b refl (rw same b.cash) (λ m.
          ap
            (λ c.
              weigh (equal_allocation_for_total (symbols_of_legs s.legs) (total_allocation_bps - c))
                s.legs)
            same
          ∙ b.divided m))
  reduce_builder-IsBuilder compare one s (market_cost_edited market key x) b e =
      subst IsBuilder (ok_inj e) (alike s _ b refl b.cash b.divided)
  reduce_builder-IsBuilder compare one s (optimizer_applied proposal) b e =
      apply_optimizer_proposal-IsBuilder s proposal b e
