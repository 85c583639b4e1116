-- ===== src/Builder/Laws.antt =====
-- What the operations on legs keep: symbols, and the weights of an equal division.
use radar_asset.Base.{
  ℕ, ◌≤◌, ◌≡◌, refl, sym, ap, ap₂, ◌∙◌, inl, inr, true, Option, some, List, [], ◌∷◌, Bool-cases,
  length, length-map,
}
use radar_asset.Base.Words.{Word, word_eq}
use radar_asset.Allocation.{total_allocation_bps, equal_allocation_for_total}
use radar_asset.Builder.State.{
  AllocationMode, equal, custom, optimized, DraftLeg, OptimizerProposal, BuilderState,
}
use radar_asset.Builder.Legs.{
  entry, symbol_of, symbols_of_legs, or_zero, investable, weigh, rebalance_equal, change_leg,
  by_mode, take_weights,
}
use radar_asset.Builder.Distinct.{IsDistinct}

module _ {ℓ} {N D : Type ℓ} where
  -- Each leg has its weight of the equal division of what is not cash.
  abbrev pub IsDivided : BuilderState N D → Type ℓ
  IsDivided s =
      weigh (equal_allocation_for_total (symbols_of_legs s.legs) (investable s)) s.legs ≡ s.legs

  pub record IsBuilder (s : BuilderState N D) : Type ℓ where
    pub distinct : IsDistinct (symbols_of_legs s.legs)
    pub few : length s.legs ≤ 10
    pub cash : s.assumptions.cash_allocation_bps ≤ total_allocation_bps
    pub divided : s.allocation_mode ≡ equal → IsDivided s

  symbols-weigh :
      (weights : List (Word × ℕ)) (legs : List (DraftLeg N D))
      → symbols_of_legs (weigh weights legs) ≡ symbols_of_legs legs
  unfolding weigh
  symbols-weigh weights [] = refl
  symbols-weigh weights (leg ∷ legs) = ap (λ l. symbol_of leg ∷ l) (symbols-weigh weights legs)

  pub length-of_symbols :
      (a b : List (DraftLeg N D)) → symbols_of_legs a ≡ symbols_of_legs b → length a ≡ length b
  length-of_symbols a b e = sym (length-map symbol_of a) ∙ (ap length e ∙ length-map symbol_of b)

  weigh-weigh :
      (weights : List (Word × ℕ)) (legs : List (DraftLeg N D))
      → weigh weights (weigh weights legs) ≡ weigh weights legs
  unfolding weigh
  weigh-weigh weights [] = refl
  weigh-weigh weights (leg ∷ legs) =
      ap (λ l. record leg { allocation_bps = some (or_zero (entry (symbol_of leg) weights)) } ∷ l)
        (weigh-weigh weights legs)

  pub symbols-rebalance_equal :
      (s : BuilderState N D) (legs : List (DraftLeg N D))
      → symbols_of_legs (rebalance_equal s legs) ≡ symbols_of_legs legs
  unfolding rebalance_equal
  symbols-rebalance_equal s legs = symbols-weigh _ legs

  pub rebalance_equal-IsDivided :
      (s : BuilderState N D) (legs : List (DraftLeg N D))
      → weigh
          (equal_allocation_for_total (symbols_of_legs (rebalance_equal s legs)) (investable s))
          (rebalance_equal s legs)
        ≡ rebalance_equal s legs
  unfolding rebalance_equal
  rebalance_equal-IsDivided s legs =
      let weights = equal_allocation_for_total (symbols_of_legs legs) (investable s) in
      ap (λ ws. weigh (equal_allocation_for_total ws (investable s)) (weigh weights legs))
        (symbols-weigh weights legs)
      ∙ weigh-weigh weights legs

  pub symbols-by_mode :
      (mode : AllocationMode) (s : BuilderState N D) (legs : List (DraftLeg N D))
      → symbols_of_legs (by_mode mode s legs) ≡ symbols_of_legs legs
  symbols-by_mode equal s legs = symbols-rebalance_equal s legs
  symbols-by_mode custom s legs = refl
  symbols-by_mode optimized s legs = refl

  pub by_mode-IsDivided :
      (mode : AllocationMode) (s : BuilderState N D) (legs : List (DraftLeg N D))
      → mode ≡ equal
      → weigh
          (equal_allocation_for_total (symbols_of_legs (by_mode mode s legs)) (investable s))
          (by_mode mode s legs)
        ≡ by_mode mode s legs
  by_mode-IsDivided equal s legs e = rebalance_equal-IsDivided s legs
  by_mode-IsDivided custom s legs e = cc
  by_mode-IsDivided optimized s legs e = cc

  -- A change of some legs that keeps their symbols and does not look at their weights.
  pub record IsChange (symbol : Word) (change : DraftLeg N D → DraftLeg N D) : Type ℓ where
    pub same_symbol :
        (leg : DraftLeg N D)
        → word_eq (symbol_of leg) symbol ≡ true
        → symbol_of (change leg) ≡ symbol_of leg
    pub same_weight :
        (leg : DraftLeg N D) (x : Option ℕ)
        → record (change leg) { allocation_bps = x } ≡ change (record leg { allocation_bps = x })

  pub symbols-change_leg :
      (symbol : Word) (change : DraftLeg N D → DraftLeg N D) (legs : List (DraftLeg N D))
      → ((leg : DraftLeg N D)
          → word_eq (symbol_of leg) symbol ≡ true
          → symbol_of (change leg) ≡ symbol_of leg)
      → symbols_of_legs (change_leg symbol change legs) ≡ symbols_of_legs legs
  unfolding change_leg
  symbols-change_leg symbol change [] h = refl
  symbols-change_leg symbol change (leg ∷ legs) h =
      elim (Bool-cases (word_eq (symbol_of leg) symbol)) [
        | inl e ↦ rw e (ap₂ (λ w ws. w ∷ ws) (h leg e) (symbols-change_leg symbol change legs h))
        | inr e ↦ rw e (ap (λ ws. symbol_of leg ∷ ws) (symbols-change_leg symbol change legs h))
      ]

  weigh-change_leg :
      (symbol : Word) (change : DraftLeg N D → DraftLeg N D) (weights : List (Word × ℕ))
      (legs : List (DraftLeg N D))
      → IsChange symbol change
      → weigh weights (change_leg symbol change legs)
        ≡ change_leg symbol change (weigh weights legs)
  unfolding change_leg weigh
  weigh-change_leg symbol change weights [] c = refl
  weigh-change_leg symbol change weights (leg ∷ legs) c =
      elim (Bool-cases (word_eq (symbol_of leg) symbol)) [
        | inr e ↦ rw e (
            ap
              (λ l.
                record leg { allocation_bps = some (or_zero (entry (symbol_of leg) weights)) } ∷ l)
              (weigh-change_leg symbol change weights legs c))
        | inl e ↦ rw e (
            ap₂ (λ l ls. l ∷ ls)
              (ap (λ w. record (change leg) { allocation_bps = some (or_zero (entry w weights)) })
                  (c.same_symbol leg e)
                ∙ c.same_weight leg (some (or_zero (entry (symbol_of leg) weights))))
              (weigh-change_leg symbol change weights legs c))
      ]

  pub change_leg-IsDivided :
      (symbol : Word) (change : DraftLeg N D → DraftLeg N D) (total : ℕ)
      (legs : List (DraftLeg N D))
      → IsChange symbol change
      → weigh (equal_allocation_for_total (symbols_of_legs legs) total) legs ≡ legs
      → weigh
          (equal_allocation_for_total (symbols_of_legs (change_leg symbol change legs)) total)
          (change_leg symbol change legs)
        ≡ change_leg symbol change legs
  change_leg-IsDivided symbol change total legs c h =
      ap (λ ws. weigh (equal_allocation_for_total ws total) (change_leg symbol change legs))
        (symbols-change_leg symbol change legs c.same_symbol)
      ∙ (weigh-change_leg symbol change _ legs c ∙ ap (change_leg symbol change) h)

  pub symbols-take_weights :
      (proposal : OptimizerProposal) (legs : List (DraftLeg N D))
      → symbols_of_legs (take_weights proposal legs) ≡ symbols_of_legs legs
  unfolding take_weights
  symbols-take_weights proposal [] = refl
  symbols-take_weights proposal (leg ∷ legs) =
      ap (λ ws. symbol_of leg ∷ ws) (symbols-take_weights proposal legs)
