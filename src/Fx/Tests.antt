-- ===== src/Fx/Tests.antt =====
-- Runs and witnesses of the currency component.
use Prim.Native.String.{String}
use radar_asset.Base.{◌≡◌, refl, Option, none, some, List, [], ◌∷◌, ok, err, false, ◌↔◌}
use mathlib.Core.List.{Memᴰ}
use radar_asset.Base.Int.{ℤ, pos, ◌*ℤ◌}
use radar_asset.Base.Number.{whole_numbers}
use radar_asset.Fx.{
  FxRatePoint, ResolvedFxRate, FxError, convert_money, resolved, select_rate_on_or_before,
  unsupported_currency,
}
use radar_asset.Fx.Selection.{
  IsSelected, IsInvalid, select_rate_on_or_before-IsSelected, select_rate_on_or_before-throws_iff,
}

abbrev point : String → ℤ → String → FxRatePoint ℤ
point date rate source = record { effective_date = date; rate = rate; source = source }

abbrev history : List (FxRatePoint ℤ)
history =
    point "2026-08-14" (pos 26_100) "yahoo"
    ∷ point "2026-08-15" (pos 26_200) "yahoo"
    ∷ point "2026-08-15" (pos 26_250) "vietcombank"
    ∷ point "2026-08-17" (pos 26_300) "vietcombank"
    ∷ []

abbrev chosen : ResolvedFxRate ℤ
chosen = record {
  effective_date = some "2026-08-15";
  rate = pos 26_250;
  source = "vietcombank";
  fallback = false;
}

runs :
    (select_rate_on_or_before history "2026-08-16" ≡ ok chosen)
    × (select_rate_on_or_before history "2026-08-13" ≡ ok (resolved none))
    × (convert_money (pos 3) "usdt " "VND" (pos 26_000) ≡ ok (pos 78_000))
    × (convert_money (pos 3) "EUR" "VND" (pos 26_000) ≡ err unsupported_currency)
unfolding select_rate_on_or_before resolved convert_money ◌*ℤ◌
runs = (refl, refl, refl, refl)

select_rate_on_or_before-IsSelected_example :
    (o : Option (FxRatePoint ℤ)) × (chosen ≡ resolved o) × IsSelected "2026-08-16" history o
select_rate_on_or_before-IsSelected_example =
    select_rate_on_or_before-IsSelected history "2026-08-16" runs.0

select_rate_on_or_before-throws_iff_example :
    ((x : FxError) × (select_rate_on_or_before history "2026-08-16" ≡ err x))
    ↔ ((p : FxRatePoint ℤ) × Memᴰ p history × IsInvalid "2026-08-16" p)
select_rate_on_or_before-throws_iff_example =
    select_rate_on_or_before-throws_iff history "2026-08-16"
