-- ===== src/Freshness/Boundary.antt =====
-- The bars that must be closed by now: which session each loop of health.ts stops at.
use radar_asset.Base.{
  ℕ, zero, suc, ◌+◌, ◌-◌, ◌*◌, ◌/◌, ◌≤◌, ◌<◌, ◌≡◌, refl, ap, ◌∙◌, inl, inr, true, false, leb, ◌==◌,
  leb→le, Bool-cases, ok, arith,
}
use radar_asset.Freshness.{
  day_ms, hour_ms, is_weekday, utc_midnight, back_to_weekday, weekday_fuel,
  expected_weekday_bar_open, fpt_loop, expected_fpt_daily_bar_open,
}

-- Day number `d`, counted from 1970-01-01, is a weekday.
abbrev pub IsSessionDay : ℕ → Type 0
IsSessionDay d = is_weekday (d * day_ms) ≡ true

-- The session of a Vietnamese trading day has closed at 08:00 UTC.
abbrev pub HasClosed : ℕ → ℕ → Type 0
HasClosed now d = d * day_ms + 8 * hour_ms ≤ now

-- Of three days in a row one is a weekday.
-- Day numbers that are equal are weekdays together.
same_day : (a b : ℕ) → a ≡ b → IsSessionDay b → IsSessionDay a
same_day a b e w = rw e w

weekday_near : (d : ℕ) → 2 ≤ d → (j : ℕ) × (j ≤ 2) × IsSessionDay (d - j)
unfolding is_weekday
weekday_near d h = elim (Bool-cases (is_weekday (d * day_ms))) [
  | inl e ↦ (0, omega arith, same_day (d - 0) d (omega arith) e)
  | inr e ↦ elim (Bool-cases (is_weekday ((d - 1) * day_ms))) [
    | inl e' ↦ (1, omega arith, e')
    | inr e' ↦ (2, omega arith, ground arith)
  ]
]

back_to_weekday_lem :
    (fuel d j : ℕ)
    → j < fuel
    → j ≤ d
    → IsSessionDay (d - j)
    → (s : ℕ) × (back_to_weekday fuel (d * day_ms) ≡ s * day_ms)
      × IsSessionDay s
      × (s ≤ d)
      × ((q : ℕ) → IsSessionDay q → q ≤ d → q ≤ s)
unfolding back_to_weekday
back_to_weekday_lem zero d j h k w = absurd (omega arith)
back_to_weekday_lem (suc fuel) d zero h k w =
    let e : is_weekday (d * day_ms) ≡ true = same_day d (d - 0) (omega arith) w in
    (d, rw e, e, omega arith, λ q _ le. le)
back_to_weekday_lem (suc fuel) d (suc j) h k w = elim (Bool-cases (is_weekday (d * day_ms))) [
  | inl e ↦ (d, rw e, e, omega arith, λ q _ le. le)
  | inr e ↦
      let (s, found, session, le, latest) =
        back_to_weekday_lem fuel (d - 1) j (omega arith) (omega arith)
          (same_day (d - 1 - j) (d - suc j) (omega arith) w) in
      let earlier : d * day_ms - day_ms ≡ (d - 1) * day_ms = omega arith in
      (
        s,
        rw (e, earlier) found,
        session,
        omega arith,
        λ q wq below. latest q wq (before q wq below e),
      )
]
  where
    before : (q : ℕ) → IsSessionDay q → q ≤ d → is_weekday (d * day_ms) ≡ false → q ≤ d - 1
    before q wq below e = elim (Bool-cases (q == d)) [
      | inl same ↦ cc (same_day d q (ground arith) wq, e)
      | inr apart ↦ ground arith
    ]

weekday_start :
    (now : ℕ)
    → expected_weekday_bar_open now ≡ back_to_weekday weekday_fuel (now / day_ms * day_ms - day_ms)
unfolding expected_weekday_bar_open utc_midnight
weekday_start now = refl

-- The bar of a weekday market that must be closed opened at the midnight of the latest weekday
-- before the day of `now`, if `now` is at least three days after 1970-01-01.
pub expected_weekday_bar_open_lem :
    (now : ℕ)
    → 3 * day_ms ≤ now
    → (s : ℕ) × (expected_weekday_bar_open now ≡ s * day_ms)
      × IsSessionDay s
      × ((s + 1) * day_ms ≤ now)
      × ((q : ℕ) → IsSessionDay q → (q + 1) * day_ms ≤ now → q ≤ s)
expected_weekday_bar_open_lem now h =
    let d = now / day_ms - 1 in
    let start : now / day_ms * day_ms - day_ms ≡ d * day_ms = omega arith in
    let (j, small, w) = weekday_near d (omega arith) in
    let (s, found, session, le, latest) =
      back_to_weekday_lem weekday_fuel d j (omega arith) (omega arith) w in
    (
      s,
      weekday_start now ∙ (ap (back_to_weekday weekday_fuel) start ∙ found),
      session,
      omega arith,
      λ q wq ended. latest q wq (omega arith),
    )

-- Rounds of the loop from offset `off` on, of which one at offset `j` can answer.
fpt_loop_lem :
    (left off j d now : ℕ)
    → off ≤ j
    → j < off + left
    → j ≤ d
    → IsSessionDay (d - j)
    → HasClosed now (d - j)
    → ((q : ℕ) → IsSessionDay q → HasClosed now q → q ≤ d - off)
    → (s : ℕ) × (fpt_loop left off (d * day_ms) now ≡ ok (s * day_ms - 7 * hour_ms))
      × IsSessionDay s
      × HasClosed now s
      × ((q : ℕ) → IsSessionDay q → HasClosed now q → q ≤ s)
unfolding fpt_loop
fpt_loop_lem zero off j d now a b c w closed bound = absurd (omega arith)
fpt_loop_lem (suc left) off j d now a b c w closed bound =
    elim (Bool-cases (is_weekday ((d - off) * day_ms))) [
      | inr e ↦
          next (fpt_loop_lem left (off + 1) j d now) (rw (day, e))
            (λ q wq shut same. cc (same_day (d - off) q same wq, e))
      | inl e ↦ elim (Bool-cases (leb ((d - off) * day_ms + 8 * hour_ms) now)) [
        | inl y ↦ (d - off, rw (day, e, y), e, leb→le _ now y, bound)
        | inr n ↦
            next (fpt_loop_lem left (off + 1) j d now) (rw (day, e, n))
              (λ q wq shut same. too_late q shut same n)
      ]
    ]
  where
    day : d * day_ms - off * day_ms ≡ (d - off) * day_ms
    day = omega arith

    too_late :
        (q : ℕ)
        → HasClosed now q
        → d - off ≡ q
        → leb ((d - off) * day_ms + 8 * hour_ms) now ≡ false
        → ⊥
    too_late q shut same n = ground arith

    next :
        (off + 1 ≤ j
          → j < off + 1 + left
          → j ≤ d
          → IsSessionDay (d - j)
          → HasClosed now (d - j)
          → ((q : ℕ) → IsSessionDay q → HasClosed now q → q ≤ d - (off + 1))
          → (s : ℕ) × (fpt_loop left (off + 1) (d * day_ms) now ≡ ok (s * day_ms - 7 * hour_ms))
            × IsSessionDay s
            × HasClosed now s
            × ((q : ℕ) → IsSessionDay q → HasClosed now q → q ≤ s))
        → fpt_loop (suc left) off (d * day_ms) now ≡ fpt_loop left (off + 1) (d * day_ms) now
        → ((q : ℕ) → IsSessionDay q → HasClosed now q → d - off ≡ q → ⊥)
        → (s : ℕ) × (fpt_loop (suc left) off (d * day_ms) now ≡ ok (s * day_ms - 7 * hour_ms))
          × IsSessionDay s
          × HasClosed now s
          × ((q : ℕ) → IsSessionDay q → HasClosed now q → q ≤ s)
    next ih same skipped =
        let later : off + 1 ≤ j = elim (Bool-cases (off == j)) [
          | inl e ↦ absurd (skipped (d - j) w closed (ground arith))
          | inr e ↦ ground arith
        ] in
        let (s, found, session, shut, latest) = ih later (omega arith) c w closed lower in
        (s, same ∙ found, session, shut, latest)
      where
        lower : (q : ℕ) → IsSessionDay q → HasClosed now q → q ≤ d - (off + 1)
        lower q wq shut = elim (Bool-cases (d - off == q)) [
          | inl e ↦ absurd (skipped q wq shut (ground arith))
          | inr e ↦ ground (arith, bound q wq shut)
        ]

fpt_start : (now : ℕ) → expected_fpt_daily_bar_open now ≡ fpt_loop 10 0 (now / day_ms * day_ms) now
unfolding expected_fpt_daily_bar_open
fpt_start now = refl

-- For a `now` at least four days after 1970-01-01 the search for the Vietnamese daily bar does not
-- throw. It finds the bar that opened seven hours before the midnight of session day `s`, where `s`
-- is the latest weekday whose session has closed by `now`.
pub expected_fpt_daily_bar_open_lem :
    (now : ℕ)
    → 4 * day_ms ≤ now
    → (s : ℕ) × (expected_fpt_daily_bar_open now ≡ ok (s * day_ms - 7 * hour_ms))
      × IsSessionDay s
      × HasClosed now s
      × ((q : ℕ) → IsSessionDay q → HasClosed now q → q ≤ s)
expected_fpt_daily_bar_open_lem now h =
    let d = now / day_ms in
    let (j, small, w) = weekday_near (d - 1) (omega arith) in
    let (s, found, session, closed, latest) =
      fpt_loop_lem 10 0 (j + 1) d now (omega arith) (omega arith) (omega arith)
        (same_day (d - (j + 1)) (d - 1 - j) (omega arith) w) (omega arith)
        (λ q wq shut. omega arith) in
    (s, fpt_start now ∙ found, session, closed, latest)
