-- ===== src/Freshness.antt =====
-- src/lib/market-data/health.ts. A `Date` is its time value in milliseconds since 1970-01-01 UTC, as
-- a natural number; the steps back from `now` stop at 0, so the theorems ask for a `now` at least
-- ten days after that date.
pub mod Boundary
pub mod Laws
mod Tests
use Prim.Native.String.{String}
use text.Mathlib.Text.{◌==◌ as text_eq}
use radar_asset.Base.{
  ℕ, zero, suc, ◌+◌, ◌-◌, ◌*◌, ◌/◌, ◌%◌, ◌≡◌, Bool, true, false, not, ◌&&◌, ◌||◌, Option, none,
  some, if◌then◌else◌, leb, ◌==◌, Result, ok, err, ◌>>=◌,
}

abbrev pub hour_ms : ℕ
hour_ms = 3_600_000

abbrev pub day_ms : ℕ
day_ms = 86_400_000

pub data MarketDataMarket : Type 0 where
  crypto_spot vn_equity metal_spot : MarketDataMarket

pub data MarketIngestionStatus : Type 0 where
  running succeeded unchanged skipped failed unavailable : MarketIngestionStatus

pub data MarketDataFreshness : Type 0 where
  fixture fresh stale unavailable : MarketDataFreshness

-- The one `throw` of the file.
pub data FreshnessError : Type 0 where
  boundary_unresolved : FreshnessError

pub record FreshnessInput : Type 0 where
  pub market : MarketDataMarket
  pub coverage_end : Option ℕ
  pub source : Option String
  pub last_status : Option MarketIngestionStatus
  pub now : ℕ

unfoldable pub utc_midnight : ℕ → ℕ
utc_midnight t = t / day_ms * day_ms

-- `getUTCDay`: 1970-01-01 was a Thursday, day 4.
unfoldable pub utc_day : ℕ → ℕ
utc_day t = (t / day_ms + 4) % 7

unfoldable pub is_weekday : ℕ → Bool
unfolding utc_day
is_weekday t = not (utc_day t == 0) && not (utc_day t == 6)

unfoldable pub expected_continuous_bar_open : ℕ → ℕ
unfolding utc_midnight
expected_continuous_bar_open now = utc_midnight now - day_ms

-- The `while` loop of `expectedWeekdayBarOpen`, with the rounds that are left: a weekday comes within
-- two steps, so `weekday_fuel` rounds are enough (`Freshness.Boundary`).
unfoldable pub back_to_weekday : ℕ → ℕ → ℕ
unfolding is_weekday
back_to_weekday zero candidate = candidate
back_to_weekday (suc fuel) candidate =
    let earlier = back_to_weekday fuel (candidate - day_ms) in
    if is_weekday candidate then candidate else earlier

abbrev pub weekday_fuel : ℕ
weekday_fuel = 3

unfoldable pub expected_weekday_bar_open : ℕ → ℕ
unfolding back_to_weekday expected_continuous_bar_open
expected_weekday_bar_open now = back_to_weekday weekday_fuel (expected_continuous_bar_open now)

-- The `for` loop of `expectedFptDailyBarOpen`: `left` rounds from `day_offset` on.
unfoldable pub fpt_loop : ℕ → ℕ → ℕ → ℕ → Result FreshnessError ℕ
unfolding is_weekday
fpt_loop zero day_offset today now = err boundary_unresolved
fpt_loop (suc left) day_offset today now =
    let rest = fpt_loop left (day_offset + 1) today now in
    let session_day = today - day_offset * day_ms in
    if not (is_weekday session_day)
    then rest
    else (if leb (session_day + 8 * hour_ms) now then ok (session_day - 7 * hour_ms) else rest)

unfoldable pub expected_fpt_daily_bar_open : ℕ → Result FreshnessError ℕ
unfolding fpt_loop utc_midnight
expected_fpt_daily_bar_open now = fpt_loop 10 0 (utc_midnight now) now

unfoldable pub expected_closed_bar_open : MarketDataMarket → ℕ → Result FreshnessError ℕ
unfolding expected_continuous_bar_open expected_fpt_daily_bar_open expected_weekday_bar_open
expected_closed_bar_open crypto_spot now = ok (expected_continuous_bar_open now)
expected_closed_bar_open vn_equity now = expected_fpt_daily_bar_open now
expected_closed_bar_open metal_spot now = ok (expected_weekday_bar_open now)

abbrev source_is : String → Option String → Bool
source_is name none = false
source_is name (some s) = text_eq s name

abbrev is_unavailable : Option MarketIngestionStatus → Bool
is_unavailable (some unavailable) = true
is_unavailable _ = false

-- The part after the two early returns; `lag` is `Math.max(0, …)`, which is the difference of ℕ.
abbrev graded : ℕ → ℕ → MarketDataFreshness
graded expected coverage_end = if leb (expected - coverage_end) (36 * hour_ms) then fresh else stale

abbrev covered : FreshnessInput → Option ℕ → Result FreshnessError MarketDataFreshness
covered input none = ok MarketDataFreshness.unavailable
covered input (some coverage_end) =
    if is_unavailable input.last_status then ok MarketDataFreshness.unavailable else do
      expected ← expected_closed_bar_open input.market input.now
      ok (graded expected coverage_end)

unfoldable pub calculate_freshness : FreshnessInput → Result FreshnessError MarketDataFreshness
unfolding expected_closed_bar_open
calculate_freshness input =
    if source_is "research_fixture" input.source
    then ok fixture
    else covered input input.coverage_end
