-- ===== src/Allocation/Sharing.antt =====
-- The weights that `share` gives.
use radar_asset.Base.{
  ℕ, zero, suc, ◌+◌, ◌-◌, ◌*◌, ◌/◌, ◌≤◌, ◌<◌, ◌≡◌, refl, List, [], ◌∷◌, arith, if◌then◌else◌, ltb,
  length, All,
}
use radar_asset.Base.Words.{Word}
use radar_asset.Allocation.{share_from, share}

abbrev pub total_weight : List (Word × ℕ) → ℕ
total_weight [] = 0
total_weight ((s, w) ∷ rest) = w + total_weight rest

abbrev pub symbols_of : List (Word × ℕ) → List Word
symbols_of [] = []
symbols_of ((s, w) ∷ rest) = s ∷ symbols_of rest

abbrev pub IsNear : ℕ → Word × ℕ → Type 0
IsNear base (s, w) = (base ≤ w) × (w ≤ base + 1)

-- No weight is below one that stands behind it.
abbrev pub IsFalling : List (Word × ℕ) → Type 0
IsFalling [] = Unit
IsFalling ((s, w) ∷ rest) = All (λ e. e.1 ≤ w) rest × IsFalling rest

share_from_total :
    (base remainder : ℕ) (ss : List Word)
    → remainder ≤ length ss
    → total_weight (share_from base remainder ss) ≡ length ss * base + remainder
unfolding share_from
share_from_total base remainder [] h = omega arith
share_from_total base zero (s ∷ ss) h = omega (arith, share_from_total base 0 ss (omega arith))
share_from_total base (suc r) (s ∷ ss) h =
    ground (arith, share_from_total base (suc r - 1) ss (omega arith))

share_from-IsNear :
    (base remainder : ℕ) (ss : List Word) → All (IsNear base) (share_from base remainder ss)
unfolding share_from
share_from-IsNear base remainder [] = tt
share_from-IsNear base remainder (s ∷ ss) =
    ground (arith, share_from-IsNear base (remainder - 1) ss)

pub share_from_symbols :
    (base remainder : ℕ) (ss : List Word) → symbols_of (share_from base remainder ss) ≡ ss
unfolding share_from
share_from_symbols base remainder [] = refl
share_from_symbols base remainder (s ∷ ss) = rw (share_from_symbols base (remainder - 1) ss)

share_from_capped :
    (base remainder cap : ℕ) (ss : List Word)
    → base + 1 ≤ cap
    → All (λ e. e.1 ≤ cap) (share_from base remainder ss)
unfolding share_from
share_from_capped base remainder cap [] h = tt
share_from_capped base remainder cap (s ∷ ss) h =
    ground (arith, share_from_capped base (remainder - 1) cap ss h)

share_from-IsFalling :
    (base remainder : ℕ) (ss : List Word) → IsFalling (share_from base remainder ss)
unfolding share_from
share_from-IsFalling base remainder [] = tt
share_from-IsFalling base zero (s ∷ ss) = (rest base ss, share_from-IsFalling base (0 - 1) ss)
  where
    rest : (b : ℕ) (ts : List Word) → All (λ e. e.1 ≤ b + 0) (share_from b (0 - 1) ts)
    rest b [] = tt
    rest b (t ∷ ts) = ground (arith, rest b ts)
share_from-IsFalling base (suc r) (s ∷ ss) = (
  share_from_capped base (suc r - 1) (base + (if ltb 0 (suc r) then 1 else 0)) ss (ground arith),
  share_from-IsFalling base (suc r - 1) ss,
)

remainder_le : (total n : ℕ) → 0 < n → total - total / n * n ≤ n
remainder_le total n h = omega arith

-- For a list of at least one symbol, the weights are for its symbols in their order, add up to the
-- total, are the quotient or one more, and do not rise along the list.
pub share_lem :
    (total : ℕ) (ss : List Word)
    → 0 < length ss
    → let out = share total ss in
      (symbols_of out ≡ ss)
      × (total_weight out ≡ total)
      × All (IsNear (total / length ss)) out
      × IsFalling out
unfolding share
share_lem total ss h =
    let base = total / length ss in
    let odd = total - base * length ss in
    (
      share_from_symbols base odd ss,
      omega (arith, share_from_total base odd ss (remainder_le total (length ss) h)),
      share_from-IsNear base odd ss,
      share_from-IsFalling base odd ss,
    )
