-- ===== src/Allocation/Tests.antt =====
-- Runs and witnesses of the allocations.
use mathlib.Core.List.{Memᴰ}
use radar_asset.Base.{◌≡◌, refl, ◌≤◌, List, [], ◌∷◌, map, ok, err, arith, length, ℕ}
use radar_asset.Base.Words.{Word, codes, normalize_word}
use radar_asset.Allocation.{
  equal_allocation_bps, equal_allocation_for_total, ordered_symbols, total_allocation_bps,
  asset_count,
}
use radar_asset.Allocation.Sharing.{symbols_of}
use radar_asset.Allocation.Equal.{
  IsEqualDivision, equal_allocation_for_total_lem, equal_allocation_bps_lem,
  equal_allocation_bps-set,
}

abbrev three : List Word
three = codes "btc" ∷ codes " XAU" ∷ codes "FPT" ∷ codes "BTC" ∷ []

abbrev divided : List (Word × ℕ)
divided = (codes "BTC", 3334) ∷ (codes "FPT", 3333) ∷ (codes "XAU", 3333) ∷ []

runs : (equal_allocation_bps three ≡ ok divided) × (equal_allocation_bps [] ≡ err asset_count)
unfolding equal_allocation_bps
runs = (refl, refl)

equal_allocation_bps_lem_example :
    IsEqualDivision total_allocation_bps (map normalize_word three) divided
    × (1 ≤ length (symbols_of divided))
    × (length (symbols_of divided) ≤ 10)
equal_allocation_bps_lem_example = equal_allocation_bps_lem three runs.0

equal_allocation_for_total_lem_example :
    IsEqualDivision 9_500 three (equal_allocation_for_total three 9_500)
unfolding ordered_symbols
equal_allocation_for_total_lem_example = equal_allocation_for_total_lem three 9_500 (omega arith)

equal_allocation_bps-set_example :
    equal_allocation_bps (codes "btc" ∷ codes "BTC " ∷ []) ≡ equal_allocation_bps (codes "BTC" ∷ [])
unfolding normalize_word
equal_allocation_bps-set_example =
    equal_allocation_bps-set (codes "btc" ∷ codes "BTC " ∷ []) (codes "BTC" ∷ []) λ a. (
      λ (m : Memᴰ a (codes "BTC" ∷ codes "BTC" ∷ [])). once m,
      λ (m : Memᴰ a (codes "BTC" ∷ [])). Memᴰ.tail m,
    )
  where
    once : {a : Word} → Memᴰ a (codes "BTC" ∷ codes "BTC" ∷ []) → Memᴰ a (codes "BTC" ∷ [])
    once (Memᴰ.head e) = Memᴰ.head e
    once (Memᴰ.tail m) = m
