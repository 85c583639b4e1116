-- ===== src/Allocation.antt =====
-- src/lib/backtest/allocation.ts, and the division of an allocation that src/lib/backtest/builder-state.ts
-- repeats. Weights are basis points. An object with a key for each symbol is the list of its entries,
-- in the order in which they are written.
pub mod Sharing
pub mod Keys
pub mod Equal
mod Tests
use mathlib.Core.List.{Memᴰ}
use radar_asset.Base.{
  ℕ, zero, suc, ◌+◌, ◌-◌, ◌*◌, ◌/◌, ◌≡◌, Bool, true, false, ◌&&◌, ◌||◌, List, [], ◌∷◌, map,
  if◌then◌else◌, ltb, leb, Result, ok, err, ◌>>=◌, ◌>>◌, guard, length, any,
}
use radar_asset.Base.Words.{Word, word_eq, word_lt, normalize_word}
use radar_asset.Base.Sort.{sort}
use radar_asset.Base.Number.{Number, of_ℕ}

abbrev pub total_allocation_bps : ℕ
total_allocation_bps = 10_000

pub data AllocationError : Type 0 where
  asset_count capital_invalid allocation_invalid : AllocationError

-- `new Set(xs)`, read back in the order of insertion.
unfoldable pub distinct_from : List Word → List Word → List Word
unfolding any word_eq
distinct_from seen [] = []
distinct_from seen (x ∷ xs) =
    let fresh = distinct_from (x ∷ seen) xs in
    let known = distinct_from seen xs in if any (word_eq x) seen then known else x ∷ fresh

-- `[...new Set(symbols)].sort()`.
unfoldable pub ordered_symbols : List Word → List Word
unfolding distinct_from sort word_lt
ordered_symbols symbols = sort (λ x y. word_lt y x) (distinct_from [] symbols)

-- `ordered.map((symbol) => [symbol, base + (remainder-- > 0 ? 1 : 0)])`. Below 0 the counter stays
-- at 0 here, where the test has the same answer.
unfoldable pub share_from : ℕ → ℕ → List Word → List (Word × ℕ)
share_from base remainder [] = []
share_from base remainder (s ∷ ss) =
    (s, base + (if ltb 0 remainder then 1 else 0)) ∷ share_from base (remainder - 1) ss

unfoldable pub share : ℕ → List Word → List (Word × ℕ)
unfolding share_from
share total ordered =
    let base = total / length ordered in share_from base (total - base * length ordered) ordered

unfoldable pub equal_allocation_bps : List Word → Result AllocationError (List (Word × ℕ))
unfolding ordered_symbols share normalize_word
equal_allocation_bps symbols = do
  let ordered = ordered_symbols (map normalize_word symbols)
  guard (leb 1 (length ordered) && leb (length ordered) 10) asset_count
  ok (share total_allocation_bps ordered)

-- `equalAllocationForTotal` of the builder: no normalisation, and no bound on the count.
unfoldable pub equal_allocation_for_total : List Word → ℕ → List (Word × ℕ)
unfolding ordered_symbols share
equal_allocation_for_total symbols total = share total (ordered_symbols symbols)

-- A whole number of basis points is a natural number here, so of the second guard the upper bound
-- is left.
unfoldable pub notional_from_bps {ℓ} :
    {N : Type ℓ} ⦃num : Number N⦄ → N → ℕ → Result AllocationError N
notional_from_bps ⦃num⦄ total_capital allocation_bps = do
  guard (num.is_finite total_capital && num.lt (of_ℕ 0) total_capital) capital_invalid
  guard (leb allocation_bps 10_000) allocation_invalid
  ok (num.over (num.times total_capital (of_ℕ allocation_bps)) (of_ℕ total_allocation_bps))
