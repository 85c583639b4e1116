-- ===== src/Fx.antt =====
-- src/lib/backend/fx-rates.ts: currency codes, conversion between USD and VND, and the choice of the
-- dated USD/VND observation. A thrown `Error` is an `FxError`. Dates are ISO texts, compared as texts.
pub mod Selection
mod Tests
use Prim.Native.String.{String}
use text.Mathlib.Text.{◌==◌}
use radar_asset.Base.{
  ℕ, Bool, true, false, not, ◌&&◌, ◌||◌, Option, none, some, List, [], ◌∷◌, if◌then◌else◌, Result,
  ok, err, ◌>>=◌, ◌>>◌, guard,
}
use radar_asset.Base.Text.{text_lt}
use radar_asset.Base.Words.{codes, word_eq, normalize_word}
use radar_asset.Base.Number.{Number, of_ℕ}

pub data PortfolioCurrency : Type 0 where
  usd vnd : PortfolioCurrency

pub data FxError : Type 0 where
  unsupported_currency value_not_finite rate_not_positive invalid_observation : FxError

pub record FxRatePoint {ℓ} (N : Type ℓ) : Type ℓ where
  pub effective_date : String
  pub rate : N
  pub source : String

pub record ResolvedFxRate {ℓ} (N : Type ℓ) : Type ℓ where
  pub effective_date : Option String
  pub rate : N
  pub source : String
  pub fallback : Bool

abbrev pub fallback_usd_vnd_rate : ℕ
fallback_usd_vnd_rate = 26_000

unfoldable pub normalize_currency : String → Result FxError PortfolioCurrency
unfolding normalize_word word_eq
normalize_currency value =
    let normalized = normalize_word (codes value) in
    if word_eq normalized (codes "USD") || word_eq normalized (codes "USDT")
    then ok usd
    else (if word_eq normalized (codes "VND") then ok vnd else err unsupported_currency)

module _ {ℓ} {N : Type ℓ} ⦃num : Number N⦄ where
  -- The conversion once both currencies are known.
  unfoldable pub exchange : PortfolioCurrency → PortfolioCurrency → N → N → N
  exchange usd usd value rate = value
  exchange vnd vnd value rate = value
  exchange usd vnd value rate = num.times value rate
  exchange vnd usd value rate = num.over value rate

  abbrev pub is_usable : N → Bool
  is_usable rate = num.is_finite rate && not (num.le rate (of_ℕ 0))

  unfoldable pub convert_money : N → String → String → N → Result FxError N
  unfolding exchange normalize_currency
  convert_money value from to rate = do
    source ← normalize_currency from
    target ← normalize_currency to
    guard (num.is_finite value) value_not_finite
    guard (is_usable rate) rate_not_positive
    ok (exchange source target value rate)

  -- The test under which an observation replaces the one selected so far.
  unfoldable pub replaces : Option (FxRatePoint N) → FxRatePoint N → Bool
  unfolding text_lt
  replaces none p = true
  replaces (some selected) p =
      text_lt selected.effective_date p.effective_date
      || ((p.effective_date == selected.effective_date)
          && (p.source == "vietcombank")
          && not (selected.source == "vietcombank"))

  -- One round of the loop over the rates.
  unfoldable pub select_step :
      String → Option (FxRatePoint N) → FxRatePoint N → Result FxError (Option (FxRatePoint N))
  unfolding replaces
  select_step requested selected p =
      if text_lt requested p.effective_date
      then ok selected
      else (if is_usable p.rate
          then ok (if replaces selected p then some p else selected)
          else err invalid_observation)

  unfoldable pub select_loop :
      String
      → Option (FxRatePoint N)
      → List (FxRatePoint N)
      → Result FxError (Option (FxRatePoint N))
  unfolding select_step
  select_loop requested selected [] = ok selected
  select_loop requested selected (p ∷ ps) = do
    next ← select_step requested selected p
    select_loop requested next ps

  unfoldable pub resolved : Option (FxRatePoint N) → ResolvedFxRate N
  resolved none = record {
    effective_date = none;
    rate = of_ℕ fallback_usd_vnd_rate;
    source = "fallback";
    fallback = true;
  }
  resolved (some p) = record {
    effective_date = some p.effective_date;
    rate = p.rate;
    source = p.source;
    fallback = false;
  }

  unfoldable pub select_rate_on_or_before :
      List (FxRatePoint N) → String → Result FxError (ResolvedFxRate N)
  unfolding select_loop resolved
  select_rate_on_or_before rates requested = do
    selected ← select_loop requested none rates
    ok (resolved selected)
