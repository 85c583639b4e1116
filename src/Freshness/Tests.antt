-- ===== src/Freshness/Tests.antt =====
-- Runs and witnesses of the freshness component.
use radar_asset.Base.{ℕ, ◌+◌, ◌*◌, ◌-◌, ◌≤◌, ◌≡◌, refl, none, some, ok, arith}
use radar_asset.Freshness.{
  hour_ms, day_ms, vn_equity, fresh, FreshnessInput, MarketDataFreshness, expected_weekday_bar_open,
  expected_fpt_daily_bar_open, calculate_freshness,
}
use radar_asset.Freshness.Boundary.{
  IsSessionDay, HasClosed, expected_weekday_bar_open_lem, expected_fpt_daily_bar_open_lem,
}
use radar_asset.Freshness.Laws.{IsGraded, calculate_freshness-IsGraded}

-- Monday 2026-08-17, 07:00 UTC: an hour before the Vietnamese session closes.
abbrev monday : ℕ
monday = 20_682 * day_ms + 7 * hour_ms

runs :
    (expected_weekday_bar_open monday ≡ 20_679 * day_ms)
    × (expected_fpt_daily_bar_open monday ≡ ok (20_679 * day_ms - 7 * hour_ms))
    × (expected_fpt_daily_bar_open (monday + hour_ms) ≡ ok (20_682 * day_ms - 7 * hour_ms))
unfolding expected_weekday_bar_open expected_fpt_daily_bar_open
runs = (refl, refl, refl)

expected_weekday_bar_open_lem_example :
    (s : ℕ) × (expected_weekday_bar_open monday ≡ s * day_ms)
    × IsSessionDay s
    × ((s + 1) * day_ms ≤ monday)
    × ((q : ℕ) → IsSessionDay q → (q + 1) * day_ms ≤ monday → q ≤ s)
expected_weekday_bar_open_lem_example = expected_weekday_bar_open_lem monday (omega arith)

expected_fpt_daily_bar_open_lem_example :
    (s : ℕ) × (expected_fpt_daily_bar_open monday ≡ ok (s * day_ms - 7 * hour_ms))
    × IsSessionDay s
    × HasClosed monday s
    × ((q : ℕ) → IsSessionDay q → HasClosed monday q → q ≤ s)
expected_fpt_daily_bar_open_lem_example = expected_fpt_daily_bar_open_lem monday (omega arith)

abbrev weekend_gap : FreshnessInput
weekend_gap = record {
  market = vn_equity;
  coverage_end = some (20_679 * day_ms - 7 * hour_ms);
  source = some "vnstock";
  last_status = none;
  now = monday;
}

graded_runs : calculate_freshness weekend_gap ≡ ok fresh
unfolding calculate_freshness
graded_runs = refl

calculate_freshness-IsGraded_example :
    (grade : MarketDataFreshness) × (calculate_freshness weekend_gap ≡ ok grade)
    × IsGraded weekend_gap grade
calculate_freshness-IsGraded_example = calculate_freshness-IsGraded weekend_gap (omega arith)
