-- ===== src/Base/Text.antt =====
-- The order of texts by code points, which is the order of `<` on strings in the source for texts
-- without surrogate pairs (ISO dates and times, codes, symbols).
use Prim.Native.Char.{code}
use Prim.Native.String.{String, [], ◌∷◌}
use mathlib.Core.Path.{◌≡◌, refl, ap₂}
use mathlib.Core.Logic.{◌⊎◌, inl, inr}
use mathlib.Core.Bool.{Bool, true, false, ◌&&◌, ◌||◌}
use native.Mathlib.Omega.{arith}
use text.Mathlib.TextEquality.{Char-path}
use radar_asset.Base.Tests.{ltb, ◌==◌, Bool-cases}

unfoldable pub text_lt : String → String → Bool
text_lt [] [] = false
text_lt [] (d ∷ t) = true
text_lt (c ∷ s) [] = false
text_lt (c ∷ s) (d ∷ t) = ltb (code c) (code d) || (code c == code d && text_lt s t)

pub text_lt_irrefl : (s : String) → text_lt s s ≡ false
unfolding text_lt
text_lt_irrefl [] = refl
text_lt_irrefl (c ∷ s) = ground (arith, text_lt_irrefl s)

pub text_lt_trans : (s t u : String) → text_lt s t ≡ true → text_lt t u ≡ true → text_lt s u ≡ true
unfolding text_lt
text_lt_trans [] [] u h k = cc
text_lt_trans [] (d ∷ t) [] h k = cc
text_lt_trans [] (d ∷ t) (e ∷ u) h k = refl
text_lt_trans (c ∷ s) [] u h k = cc
text_lt_trans (c ∷ s) (d ∷ t) [] h k = cc
text_lt_trans (c ∷ s) (d ∷ t) (e ∷ u) h k = ground (arith, text_lt_trans s t u)

pub text_lt_total : (s t : String) → (s ≡ t) ⊎ ((text_lt s t ≡ true) ⊎ (text_lt t s ≡ true))
unfolding text_lt
text_lt_total [] [] = inl refl
text_lt_total [] (d ∷ t) = inr (inl refl)
text_lt_total (c ∷ s) [] = inr (inr refl)
text_lt_total (c ∷ s) (d ∷ t) = elim (text_lt_total s t) [
  | inl e ↦ elim (Bool-cases (code c == code d)) [
    | inl same ↦ inl (ap₂ String.◌∷◌ (Char-path c d (ground arith)) e)
    | inr apart ↦ inr (ground arith)
  ]
  | inr h ↦ inr (ground arith)
]
