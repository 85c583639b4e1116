-- ===== src/Base/Number.antt =====
-- The `number` of the source: an IEEE double, taken as a type with the operations that the code uses.
-- The laws that a theorem needs are named in `IsOrdered`; whole numbers show that they can be met.
use Prim.Native.Nat.{ℕ, suc, ◌/◌, ◌^◌}
use mathlib.Core.Bool.{Bool, true, false}
use radar_asset.Base.Tests.{if◌then◌else◌}
use radar_asset.Base.Int.{ℤ, pos, negsuc, sub_ℕ, ◌+ℤ◌, ◌-ℤ◌, ◌*ℤ◌, ltb_ℤ, leb_ℤ}

pub record Number {ℓ} (N : Type ℓ) : Type ℓ where
  pub plus : N → N → N
  pub minus : N → N → N
  pub times : N → N → N
  pub over : N → N → N
  pub negate : N → N
  -- `a < b`, `a <= b`, `a === b`: all false at NaN.
  pub lt : N → N → Bool
  pub le : N → N → Bool
  pub same : N → N → Bool
  pub is_finite : N → Bool
  -- `Math.round`, `Math.floor`, `Math.sqrt`, `Math.min`, `Math.max`, `Number.EPSILON`.
  pub round_whole : N → N
  pub floor : N → N
  pub sqrt : N → N
  pub minimum : N → N → N
  pub maximum : N → N → N
  pub epsilon : N
  -- The literal n / 10 ^ digits.
  pub decimal : ℕ → ℕ → N

module _ {ℓ} {N : Type ℓ} ⦃num : Number N⦄ where
  abbrev pub of_ℕ : ℕ → N
  of_ℕ n = num.decimal n 0

-- Whole numbers, with the quotient towards zero.
abbrev div_ℤ : ℤ → ℤ → ℤ
div_ℤ (pos a) (pos b) = pos (a / b)
div_ℤ (pos a) (negsuc b) = sub_ℕ 0 (a / suc b)
div_ℤ (negsuc a) (pos b) = sub_ℕ 0 (suc a / b)
div_ℤ (negsuc a) (negsuc b) = pos (suc a / suc b)

abbrev eq_ℤ : ℤ → ℤ → Bool
eq_ℤ a b = if leb_ℤ a b then leb_ℤ b a else false

instance abbrev pub whole_numbers : Number ℤ
whole_numbers = record {
  plus = ◌+ℤ◌;
  minus = ◌-ℤ◌;
  times = ◌*ℤ◌;
  over = div_ℤ;
  negate = λ x. pos 0 -ℤ x;
  lt = ltb_ℤ;
  le = leb_ℤ;
  same = eq_ℤ;
  is_finite = λ _. true;
  round_whole = λ x. x;
  floor = λ x. x;
  sqrt = λ x. x;
  minimum = λ a b. if leb_ℤ a b then a else b;
  maximum = λ a b. if leb_ℤ a b then b else a;
  epsilon = pos 0;
  decimal = λ n digits. pos (n / 10 ^ digits);
}
