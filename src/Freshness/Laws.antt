-- ===== src/Freshness/Laws.antt =====
-- The grade that a dataset gets.
use Prim.Native.String.{String}
use mathlib.Core.Option.{some-injective}
use text.Mathlib.TextEquality.{eq_iff}
use radar_asset.Base.{
  ℕ, ◌+◌, ◌-◌, ◌*◌, ◌≤◌, ◌<◌, ◌≡◌, refl, ap, ◌≢◌, ◌⊎◌, inl, inr, ◌↔◌, true, false, Option, none,
  some, leb, Bool-cases, Option-cases, ok, arith,
}
use radar_asset.Freshness.{
  hour_ms, day_ms, MarketDataMarket, crypto_spot, vn_equity, metal_spot, MarketIngestionStatus,
  MarketDataFreshness, fixture, fresh, stale, FreshnessInput, source_is, is_unavailable,
  expected_closed_bar_open, calculate_freshness,
}
use radar_asset.Freshness.Boundary.{expected_fpt_daily_bar_open_lem}

expected_closed_bar_open_total :
    (market : MarketDataMarket) (now : ℕ)
    → 4 * day_ms ≤ now
    → (b : ℕ) × (expected_closed_bar_open market now ≡ ok b)
unfolding expected_closed_bar_open
expected_closed_bar_open_total crypto_spot now h = (_, refl)
expected_closed_bar_open_total vn_equity now h =
    let (s, found, rest0, rest1, rest2) = expected_fpt_daily_bar_open_lem now h in (_, found)
expected_closed_bar_open_total metal_spot now h = (_, refl)

-- The grade of a dataset, in the order in which the reasons count.
pub data IsGraded (input : FreshnessInput) : MarketDataFreshness → Type 0 where
  is_fixture : input.source ≡ some "research_fixture" → IsGraded input fixture
  is_missing :
      input.source ≢ some "research_fixture"
      → (input.coverage_end ≡ none) ⊎ (input.last_status ≡ some MarketIngestionStatus.unavailable)
      → IsGraded input MarketDataFreshness.unavailable
  is_fresh :
      (end bar : ℕ)
      → input.source ≢ some "research_fixture"
      → input.last_status ≢ some MarketIngestionStatus.unavailable
      → input.coverage_end ≡ some end
      → expected_closed_bar_open input.market input.now ≡ ok bar
      → bar ≤ end + 36 * hour_ms
      → IsGraded input fresh
  is_stale :
      (end bar : ℕ)
      → input.source ≢ some "research_fixture"
      → input.last_status ≢ some MarketIngestionStatus.unavailable
      → input.coverage_end ≡ some end
      → expected_closed_bar_open input.market input.now ≡ ok bar
      → end + 36 * hour_ms < bar
      → IsGraded input stale

source_is_iff :
    (o : Option String) → (source_is "research_fixture" o ≡ true) ↔ (o ≡ some "research_fixture")
source_is_iff none = (λ h. cc, λ h. cc)
source_is_iff (some s) =
    (λ h. ap some ((eq_iff s _).0 h), λ h. (eq_iff s _).1 (some-injective _ _ h))

is_unavailable_iff :
    (o : Option MarketIngestionStatus)
    → (is_unavailable o ≡ true) ↔ (o ≡ some MarketIngestionStatus.unavailable)
is_unavailable_iff o = (λ h. ground arith, λ h. ground arith)

-- For a `now` at least four days after 1970-01-01 a dataset always gets a grade: "fixture" if it is
-- the research fixture; else "unavailable" if it covers nothing or its last ingestion was
-- unavailable; else "fresh" if the bar that must be closed opened at most 36 hours after the end of
-- its coverage, and "stale" if later.
pub calculate_freshness-IsGraded :
    (input : FreshnessInput)
    → 4 * day_ms ≤ input.now
    → (grade : MarketDataFreshness) × (calculate_freshness input ≡ ok grade) × IsGraded input grade
unfolding calculate_freshness
calculate_freshness-IsGraded input h =
    elim (Bool-cases (source_is "research_fixture" input.source)) [
      | inl e ↦ (fixture, rw e, is_fixture ((source_is_iff input.source).0 e))
      | inr e ↦ elim (Option-cases input.coverage_end) [
        | inl none_there ↦ (
          MarketDataFreshness.unavailable,
          rw (e, none_there),
          is_missing (live e) (inl none_there),
        )
        | inr (end, there) ↦ elim (Bool-cases (is_unavailable input.last_status)) [
          | inl gone ↦ (
            MarketDataFreshness.unavailable,
            rw (e, there, gone),
            is_missing (live e) (inr ((is_unavailable_iff input.last_status).0 gone)),
          )
          | inr up ↦
              let (bar, found) = expected_closed_bar_open_total input.market input.now h in
              elim (Bool-cases (leb (bar - end) (36 * hour_ms))) [
                | inl y ↦ (
                  fresh,
                  rw (e, there, up, found, y),
                  is_fresh end bar (live e) (running up) there found (ground arith),
                )
                | inr n ↦ (
                  stale,
                  rw (e, there, up, found, n),
                  is_stale end bar (live e) (running up) there found (ground arith),
                )
              ]
        ]
      ]
    ]
  where
    live :
        source_is "research_fixture" input.source ≡ false → input.source ≢ some "research_fixture"
    live e same = cc (e, (source_is_iff input.source).1 same)

    running :
        is_unavailable input.last_status ≡ false
        → input.last_status ≢ some MarketIngestionStatus.unavailable
    running up same = cc (up, (is_unavailable_iff input.last_status).1 same)
