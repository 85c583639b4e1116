-- ===== src/Allocation/Equal.antt =====
-- The two equal allocations of the source.
use radar_asset.Base.{
  ℕ, ◌/◌, ◌≤◌, ◌≡◌, subst, ◌&&◌, &&-eq-true, leb→le, guard-eq-ok, List, map, leb, length, All, ok,
  ok_inj,
}
use radar_asset.Base.Words.{Word, normalize_word}
use radar_asset.Allocation.{
  asset_count, share, equal_allocation_bps, equal_allocation_for_total, ordered_symbols,
  total_allocation_bps,
}
use radar_asset.Allocation.Sharing.{total_weight, symbols_of, IsNear, IsFalling, share_lem}
use radar_asset.Allocation.Keys.{
  IsIncreasing, SameSymbols, ordered_symbols_lem, ordered_symbols_unique,
}

-- An equal division of a total over a set of symbols.
pub record IsEqualDivision (total : ℕ) (symbols : List Word) (out : List (Word × ℕ)) : Type 0 where
  pub increasing : IsIncreasing (symbols_of out)
  pub covers : SameSymbols (symbols_of out) symbols
  pub adds_up : total_weight out ≡ total
  pub near : All (IsNear (total / length (symbols_of out))) out
  pub falling : IsFalling out

-- Over at least one symbol, the builder's equal division of a total gives each distinct symbol one
-- weight, in increasing order of the symbols; the weights add up to the total, are its quotient or
-- one more, and do not rise.
pub equal_allocation_for_total_lem :
    (symbols : List Word) (total : ℕ)
    → 1 ≤ length (ordered_symbols symbols)
    → IsEqualDivision total symbols (equal_allocation_for_total symbols total)
unfolding equal_allocation_for_total
equal_allocation_for_total_lem symbols total h =
    let (keys, adds, near, falling) = share_lem total (ordered_symbols symbols) h in
    let (inc, same) = ordered_symbols_lem symbols in
    record {
      increasing = rw keys inc;
      covers = rw keys same;
      adds_up = adds;
      near = rw keys near;
      falling = falling;
    }

-- Where `equal_allocation_bps` returns, it divides 10,000 basis points equally over the normalised
-- symbols, of which there are one to ten.
pub equal_allocation_bps_lem :
    (symbols : List Word) {out : List (Word × ℕ)}
    → equal_allocation_bps symbols ≡ ok out
    → IsEqualDivision total_allocation_bps (map normalize_word symbols) out
      × (1 ≤ length (symbols_of out))
      × (length (symbols_of out) ≤ 10)
unfolding equal_allocation_bps equal_allocation_for_total
equal_allocation_bps_lem symbols {out} e =
    let words = map normalize_word symbols in
    let n = length (ordered_symbols words) in
    let (counted, shared) = guard-eq-ok (leb 1 n && leb n 10) asset_count _ e in
    let (low, high) = &&-eq-true (leb 1 n) (leb n 10) counted in
    let division = equal_allocation_for_total_lem words total_allocation_bps (leb→le 1 n low) in
    let keys = (share_lem total_allocation_bps (ordered_symbols words) (leb→le 1 n low)).0 in
    let same : share total_allocation_bps (ordered_symbols words) ≡ out = ok_inj shared in
    (
      subst (IsEqualDivision total_allocation_bps words) same division,
      subst (λ o. 1 ≤ length (symbols_of o)) same (rw keys (leb→le 1 n low)),
      subst (λ o. length (symbols_of o) ≤ 10) same (rw keys (leb→le n 10 high)),
    )

-- The allocation depends only on the set of normalised symbols: not on their order, and not on how
-- often or in which spelling one is given.
pub equal_allocation_bps-set :
    (xs ys : List Word)
    → SameSymbols (map normalize_word xs) (map normalize_word ys)
    → equal_allocation_bps xs ≡ equal_allocation_bps ys
unfolding equal_allocation_bps
equal_allocation_bps-set xs ys s =
    rw (ordered_symbols_unique (map normalize_word xs) (map normalize_word ys) s)
