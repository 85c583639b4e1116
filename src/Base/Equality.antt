-- ===== src/Base/Equality.antt =====
-- The test of texts for equality, where it fails.
use Prim.Native.String.{String}
use mathlib.Core.Path.{◌≡◌}
use mathlib.Core.Logic.{◌≢◌, inl, inr}
use mathlib.Core.Bool.{false}
use text.Mathlib.Text.{◌==◌}
use text.Mathlib.TextEquality.{eq_iff}
use radar_asset.Base.Tests.{Bool-cases}

pub eq_false : (a b : String) → a ≢ b → (a == b) ≡ false
eq_false a b h = elim (Bool-cases (a == b)) [ inl e ↦ elim (h ((eq_iff a b).0 e)) [ ] | inr e ↦ e ]

pub eq_apart : (a b : String) → (a == b) ≡ false → a ≢ b
eq_apart a b n e = cc (n, (eq_iff a b).1 e)
