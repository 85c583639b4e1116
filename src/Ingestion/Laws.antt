-- ===== src/Ingestion/Laws.antt =====
-- The limits on requests, and the retries.
use Prim.Native.Nat.{zero, suc}
use Prim.Native.String.{String}
use text.Mathlib.TextEquality.{eq_iff}
use radar_asset.Base.{
  ℕ, ◌≤◌, ◌<◌, ◌≡◌, refl, ap, subst, inl, inr, Bool, true, false, not, ◌||◌, Option, none, some,
  List, [], ◌∷◌, if◌then◌else◌, Bool-cases, leb, leb→le, find, find-none, count, All, Result, ok,
  err, guard-eq-ok, ok_inj, arith,
}
use radar_asset.Ingestion.{
  Row, IngestionError, rate_limited, write_conflict, other_failure, of_organization, of_user,
  of_instrument, new_row, answered, execute, Attempt, serialized, conflicted, broken, try, retry,
  request_market_ingestion,
}

-- No more active requests than the limits allow, and none twice.
pub record IsWithinLimits (rows : List Row) : Type 0 where
  pub user_limit : (organization user : String) → count (of_user organization user) rows ≤ 20
  pub organization_limit : (organization : String) → count (of_organization organization) rows ≤ 100
  pub single :
      (organization user instrument timeframe : String)
      → count (of_instrument organization user instrument timeframe) rows ≤ 1

count-none : (p : Row → Bool) (rows : List Row) → All (λ r. p r ≡ false) rows → count p rows ≡ 0
unfolding count
count-none p [] h = refl
count-none p (r ∷ rows) (e, h) = rw e (count-none p rows h)

under : (a b : ℕ) → not (leb 20 a || leb 100 b) ≡ true → (a < 20) × (b < 100)
under a b h = (ground arith, ground arith)

created-IsWithinLimits :
    (organization user instrument timeframe : String) (rows : List Row)
    → IsWithinLimits rows
    → count (of_user organization user) rows < 20
    → count (of_organization organization) rows < 100
    → count (of_instrument organization user instrument timeframe) rows ≡ 0
    → IsWithinLimits (new_row organization user instrument timeframe ∷ rows)
unfolding count
created-IsWithinLimits organization user instrument timeframe rows w users organizations fresh =
    record {
      user_limit = λ o u.
          ground (arith, eq_iff organization o, eq_iff user u, w.user_limit o u, at_user o u);
      organization_limit =
          λ o. ground (arith, eq_iff organization o, w.organization_limit o, at_organization o);
      single = λ o u i f. ground (
        arith,
        eq_iff organization o,
        eq_iff user u,
        eq_iff instrument i,
        eq_iff timeframe f,
        w.single o u i f,
        at_instrument o u i f,
      );
    }
  where
    at_user : (o u : String) → organization ≡ o → user ≡ u → count (of_user o u) rows < 20
    at_user o u e f = rw (← e, ← f) users

    at_organization : (o : String) → organization ≡ o → count (of_organization o) rows < 100
    at_organization o e = rw (← e) organizations

    at_instrument :
        (o u i f : String)
        → organization ≡ o
        → user ≡ u
        → instrument ≡ i
        → timeframe ≡ f
        → count (of_instrument o u i f) rows ≡ 0
    at_instrument o u i f e1 e2 e3 e4 = rw (← e1, ← e2, ← e3, ← e4) fresh

try-ok :
    {A : Type 0} (a : Attempt) (result : Result IngestionError A) {r : A}
    → try a result ≡ ok r
    → result ≡ ok r
try-ok serialized result h = h
try-ok conflicted result h = cc
try-ok broken result h = cc

retry-ok :
    {A : Type 0} (fuel : ℕ) (attempts : List Attempt) (result : Result IngestionError A) {r : A}
    → retry fuel attempts result ≡ ok r
    → result ≡ ok r
unfolding retry
retry-ok zero [] result h = h
retry-ok zero (a ∷ attempts) result h = try-ok a result h
retry-ok (suc fuel) [] result h = h
retry-ok (suc fuel) (serialized ∷ attempts) (ok x) h = h
retry-ok (suc fuel) (serialized ∷ attempts) (err write_conflict) h = retry-ok fuel attempts _ h
retry-ok (suc fuel) (serialized ∷ attempts) (err rate_limited) h = h
retry-ok (suc fuel) (serialized ∷ attempts) (err other_failure) h = h
retry-ok (suc fuel) (conflicted ∷ attempts) result h = retry-ok fuel attempts result h
retry-ok (suc fuel) (broken ∷ attempts) result h = cc

answered-IsWithinLimits :
    (organization user instrument timeframe : String) (rows : List Row) (o : Option Row)
    {after : List Row} {answer : Row × Bool}
    → IsWithinLimits rows
    → find (of_instrument organization user instrument timeframe) rows ≡ o
    → answered organization user instrument timeframe rows o ≡ ok (after, answer)
    → IsWithinLimits after
answered-IsWithinLimits organization user instrument timeframe rows (some active) w found h =
    subst IsWithinLimits (ap (λ (x : List Row × (Row × Bool)). x.0) (ok_inj h)) w
answered-IsWithinLimits organization user instrument timeframe rows none w missing h =
    let (room, created) =
      guard-eq-ok
        (not (
          leb 20 (count (of_user organization user) rows)
          || leb 100 (count (of_organization organization) rows)))
        rate_limited _ h in
    let (users, organizations) =
      under (count (of_user organization user) rows) (count (of_organization organization) rows)
        room in
    subst IsWithinLimits (ap (λ (x : List Row × (Row × Bool)). x.0) (ok_inj created)) (
      created-IsWithinLimits organization user instrument timeframe rows w users organizations (
        count-none (of_instrument organization user instrument timeframe) rows
          (find-none (of_instrument organization user instrument timeframe) rows missing)))

execute-IsWithinLimits :
    (organization user instrument timeframe : String) (rows : List Row) {after : List Row}
    {answer : Row × Bool}
    → IsWithinLimits rows
    → execute organization user instrument timeframe rows ≡ ok (after, answer)
    → IsWithinLimits after
unfolding execute
execute-IsWithinLimits organization user instrument timeframe rows w h =
    answered-IsWithinLimits organization user instrument timeframe rows _ w refl h

-- A request that returns, whatever the conflicts on the way, keeps the limits: at most 20 active
-- requests of each user within an organisation and 100 of each organisation, and at most one for each
-- organisation, user, instrument and timeframe.
pub request_market_ingestion-IsWithinLimits :
    (attempts : List Attempt) (organization user instrument timeframe : String) (rows : List Row)
    {after : List Row} {answer : Row × Bool}
    → IsWithinLimits rows
    → request_market_ingestion attempts organization user instrument timeframe rows
      ≡ ok (after, answer)
    → IsWithinLimits after
unfolding request_market_ingestion
request_market_ingestion-IsWithinLimits attempts organization user instrument timeframe rows w h =
    execute-IsWithinLimits organization user instrument timeframe rows w
      (retry-ok 4 attempts (execute organization user instrument timeframe rows) h)

abbrev pub conflicts : ℕ → List Attempt
conflicts zero = []
conflicts (suc n) = conflicted ∷ conflicts n

above : (n : ℕ) → leb n 4 ≡ false → 4 < n
above n e = ground arith

not_le_zero : (n : ℕ) → suc n ≤ 0 → ⊥
not_le_zero n h = omega arith

not_lt_zero : (n : ℕ) → n < 0 → ⊥
not_lt_zero n h = omega arith

retry-conflicts :
    {A : Type 0} (fuel n : ℕ) (result : Result IngestionError A)
    → (n ≤ fuel → retry fuel (conflicts n) result ≡ result)
      × (fuel < n → retry fuel (conflicts n) result ≡ err write_conflict)
unfolding retry
retry-conflicts zero zero result = (λ h. refl, λ h. elim (not_lt_zero 0 h) [ ])
retry-conflicts zero (suc n) result = (λ h. elim (not_le_zero n h) [ ], λ h. refl)
retry-conflicts (suc fuel) zero result = (λ h. refl, λ h. elim (not_lt_zero (suc fuel) h) [ ])
retry-conflicts (suc fuel) (suc n) result =
    let (less, more) = retry-conflicts fuel n result in
    (λ h. less (omega arith), λ h. more (omega arith))

-- After n write conflicts in a row, a request gives what the transaction alone gives if n is at most
-- four, and throws the conflict otherwise.
pub request_market_ingestion-conflicts :
    (n : ℕ) (organization user instrument timeframe : String) (rows : List Row)
    → request_market_ingestion (conflicts n) organization user instrument timeframe rows ≡ (
        if leb n 4 then execute organization user instrument timeframe rows else err write_conflict)
unfolding request_market_ingestion
request_market_ingestion-conflicts n organization user instrument timeframe rows =
    let (less, more) = retry-conflicts 4 n (execute organization user instrument timeframe rows) in
    elim (Bool-cases (leb n 4)) [
      | inl e ↦ rw e (less (leb→le n 4 e))
      | inr e ↦ rw e (more (above n e))
    ]
