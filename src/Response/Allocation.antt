-- ===== src/Response/Allocation.antt =====
-- What the allocation of the response says of the holdings.
use Prim.Native.String.{String}
use text.Mathlib.Text.{◌==◌}
use text.Mathlib.TextEquality.{eq_iff}
use radar_asset.Base.{
  ◌≡◌, refl, ap, ◌∙◌, inl, inr, Bool, Option, none, some, List, [], ◌∷◌, map, Bool-cases, keep,
  or_default,
}
use radar_asset.Base.Assoc.{Dict, get, put, HasDistinctKeys, IsAbsent, get-put, put-HasDistinctKeys}
use radar_asset.Base.Number.{Number, of_ℕ}
use radar_asset.Performance.Report.{map_some}
use radar_asset.Response.State.{Runtime, HoldingResponse, ResponseInput, Response}
use radar_asset.Response.Risk.{sum_of}
use radar_asset.Response.Build.{
  to_holding, share_of, allocation_map, to_allocation, build_portfolio_response,
}

module _ {ℓ} {N : Type ℓ} ⦃num : Number N⦄ where
  open num use {plus, times}

  -- The rounded values of some holdings added up after another number; none of none.
  abbrev added : Option N → List (HoldingResponse N) → Option N
  added before [] = before
  added before (h ∷ hs) = some (sum_of (λ h. h.value) (or_default before (of_ℕ 0)) (h ∷ hs))

  abbrev of_category : String → HoldingResponse N → Bool
  of_category category h = h.category == category

  get-allocation_map :
      (category : String) (m : Dict N) (hs : List (HoldingResponse N))
      → get category (allocation_map m hs) ≡ added (get category m) (keep (of_category category) hs)
  unfolding allocation_map keep sum_of
  get-allocation_map category m [] = refl
  get-allocation_map category m (h ∷ hs) =
      let before = or_default (get h.category m) (of_ℕ 0) in
      let m' = put h.category (num.plus before h.value) m in
      get-allocation_map category m' hs ∙ elim (Bool-cases (h.category == category)) [
        | inl y ↦
            rw
              (
                get-put h.category category (num.plus before h.value) m,
                y,
                (eq_iff h.category category).0 y,
              )
              (added-some (num.plus (or_default (get category m) (of_ℕ 0)) (h.value))
                (keep (of_category category) hs))
        | inr n ↦ rw (get-put h.category category (num.plus before h.value) m, n) refl
      ]
    where
      added-some :
          (v : N) (hs : List (HoldingResponse N))
          → added (some v) hs ≡ some (sum_of (λ h. h.value) v hs)
      added-some v [] = refl
      added-some v (h ∷ hs) = refl

  get-to_allocation :
      (category : String) (whole : N) (m : Dict N)
      → get category (to_allocation whole m) ≡ map_some (share_of whole) (get category m)
  unfolding get
  get-to_allocation category whole [] = refl
  get-to_allocation category whole ((j, v) ∷ m) =
      let rest = get-to_allocation category whole m in
      elim (Bool-cases (j == category)) [ inl y ↦ rw y refl | inr n ↦ rw n rest ]

  to_allocation-IsAbsent :
      (category : String) (whole : N) (m : Dict N)
      → IsAbsent category m
      → IsAbsent category (to_allocation whole m)
  to_allocation-IsAbsent category whole [] h = tt
  to_allocation-IsAbsent category whole (e ∷ m) (n, h) =
      (n, to_allocation-IsAbsent category whole m h)

  to_allocation-HasDistinctKeys :
      (whole : N) (m : Dict N) → HasDistinctKeys m → HasDistinctKeys (to_allocation whole m)
  to_allocation-HasDistinctKeys whole [] h = tt
  to_allocation-HasDistinctKeys whole ((j, v) ∷ m) (n, h) =
      (to_allocation-IsAbsent j whole m n, to_allocation-HasDistinctKeys whole m h)

  allocation_map-HasDistinctKeys :
      (m : Dict N) (hs : List (HoldingResponse N))
      → HasDistinctKeys m
      → HasDistinctKeys (allocation_map m hs)
  unfolding allocation_map
  allocation_map-HasDistinctKeys m [] d = d
  allocation_map-HasDistinctKeys m (h ∷ hs) d =
      let value = plus (or_default (get h.category m) (of_ℕ 0)) h.value in
      allocation_map-HasDistinctKeys (put h.category value m) hs
        (put-HasDistinctKeys h.category value m d)

  abbrev pub IsAllocation : {T : Type ℓ} → ResponseInput N T → Response N T → Type ℓ
  IsAllocation input r =
      HasDistinctKeys r.allocation
      × ((category : String)
          → get category r.allocation
            ≡ map_some
                (share_of (sum_of (λ p. times p.quantity p.latest_price) (of_ℕ 0) input.positions))
                (added none (keep (of_category category) r.holdings)))

  -- The allocation of a response names no category twice, and a category has an entry exactly if some
  -- holding of the response is of it. The entry is the sum of the rounded values of these holdings, in
  -- their order, as a rounded percentage of the total value, or 0 where the total value is 0.
  pub build_portfolio_response-IsAllocation :
      {T : Type ℓ} (runtime : Runtime N) (input : ResponseInput N T)
      → IsAllocation input (build_portfolio_response runtime input)
  unfolding build_portfolio_response
  build_portfolio_response-IsAllocation runtime input =
      let whole = sum_of (λ p. times p.quantity p.latest_price) (of_ℕ 0) input.positions in
      let hs = map (to_holding whole) input.positions in
      (
        to_allocation-HasDistinctKeys whole (allocation_map [] hs)
            (allocation_map-HasDistinctKeys [] hs tt),
        λ category.
            get-to_allocation category whole (allocation_map [] hs)
            ∙ ap (map_some (share_of whole)) (get-allocation_map category [] hs),
      )
