-- ===== src/Base/Words.antt =====
-- Texts as lists of code points, for the places where the source trims and changes the case.
-- `trim` removes exactly the white space of ECMAScript. `to_upper_case` maps the ASCII letters and
-- the two other letters whose upper case is one ASCII letter; all else is left as it is.
use Prim.Native.Char.{code}
use Prim.Native.String.{String}
use Prim.Native.Nat.{ℕ, ◌-◌}
use mathlib.Core.Path.{◌≡◌, refl}
use mathlib.Core.Logic.{◌↔◌, ◌⊎◌, inl, inr}
use mathlib.Core.Bool.{Bool, true, false, ◌&&◌, ◌||◌}
use mathlib.Core.List.{List, [], ◌∷◌, reverse, map}
use native.Mathlib.Omega.{arith}
use radar_asset.Base.Tests.{ltb, leb, ◌==◌, if◌then◌else◌}

abbrev pub Word : Type 0
Word = List ℕ

abbrev pub codes : String → Word
codes String.[] = []
codes (String.◌∷◌ c s) = code c ∷ codes s

unfoldable pub word_eq : Word → Word → Bool
word_eq [] [] = true
word_eq [] (d ∷ t) = false
word_eq (c ∷ s) [] = false
word_eq (c ∷ s) (d ∷ t) = c == d && word_eq s t

-- `text.startsWith(prefix)`.
unfoldable pub begins_with : Word → Word → Bool
begins_with s [] = true
begins_with [] (p ∷ ps) = false
begins_with (c ∷ s) (p ∷ ps) = word_eq (c ∷ []) (p ∷ []) && begins_with s ps

-- The order of `Array.prototype.sort` on texts.
unfoldable pub word_lt : Word → Word → Bool
word_lt [] [] = false
word_lt [] (d ∷ t) = true
word_lt (c ∷ s) [] = false
word_lt (c ∷ s) (d ∷ t) = ltb c d || (c == d && word_lt s t)

unfoldable pub is_space : ℕ → Bool
is_space c =
    (leb 9 c && leb c 13)
    || c == 32
    || c == 160
    || c == 0x1680
    || (leb 0x2000 c && leb c 0x200a)
    || c == 0x2028
    || c == 0x2029
    || c == 0x202f
    || c == 0x205f
    || c == 0x3000
    || c == 0xfeff

unfoldable pub trim_start : Word → Word
unfolding is_space
trim_start [] = []
trim_start (c ∷ s) = if is_space c then trim_start s else c ∷ s

unfoldable pub trim : Word → Word
unfolding trim_start
trim s = reverse (trim_start (reverse (trim_start s)))

unfoldable pub upper : ℕ → ℕ
upper c =
    if leb b'a' c && leb c b'z'
    then c - 32
    else (if c == 0x17f then b'S' else (if c == 0x131 then b'I' else c))

unfoldable pub to_upper_case : Word → Word
unfolding upper
to_upper_case s = map upper s

-- `value.trim().toUpperCase()`.
unfoldable pub normalize_word : Word → Word
unfolding trim to_upper_case
normalize_word s = to_upper_case (trim s)

pub word_lt_irrefl : (s : Word) → word_lt s s ≡ false
unfolding word_lt
word_lt_irrefl [] = refl
word_lt_irrefl (c ∷ s) = ground (arith, word_lt_irrefl s)

pub word_lt_trans : (s t u : Word) → word_lt s t ≡ true → word_lt t u ≡ true → word_lt s u ≡ true
unfolding word_lt
word_lt_trans [] [] u h k = cc
word_lt_trans [] (d ∷ t) [] h k = cc
word_lt_trans [] (d ∷ t) (e ∷ u) h k = refl
word_lt_trans (c ∷ s) [] u h k = cc
word_lt_trans (c ∷ s) (d ∷ t) [] h k = cc
word_lt_trans (c ∷ s) (d ∷ t) (e ∷ u) h k = ground (arith, word_lt_trans s t u)

pub word_lt_total : (s t : Word) → (s ≡ t) ⊎ ((word_lt s t ≡ true) ⊎ (word_lt t s ≡ true))
unfolding word_lt
word_lt_total [] [] = inl refl
word_lt_total [] (d ∷ t) = inr (inl refl)
word_lt_total (c ∷ s) [] = inr (inr refl)
word_lt_total (c ∷ s) (d ∷ t) = ground (arith, word_lt_total s t)

pub word_eq_iff : (s t : Word) → (word_eq s t ≡ true) ↔ (s ≡ t)
unfolding word_eq
word_eq_iff [] [] = (λ _. refl, λ _. refl)
word_eq_iff [] (d ∷ t) = (λ h. cc, λ h. cc)
word_eq_iff (c ∷ s) [] = (λ h. cc, λ h. cc)
word_eq_iff (c ∷ s) (d ∷ t) =
    (λ h. ground (arith, word_eq_iff s t), λ h. ground (arith, word_eq_iff s t))

normalizes : normalize_word (codes " usdt\t") ≡ codes "USDT"
unfolding normalize_word
normalizes = refl
