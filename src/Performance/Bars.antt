-- ===== src/Performance/Bars.antt =====
-- The bars of src/lib/backend/portfolio.ts, buildPortfolioPerformance: their days and their prices.
use Prim.Native.Nat.{zero, suc}
use Prim.Native.String.{String, [], ◌∷◌}
use text.Mathlib.Text.{◌==◌}
use radar_asset.Base.{ℕ, ◌-◌, Bool, List, [], ◌∷◌, ◌++◌, any, keep, length, drop, or_default}
use radar_asset.Base.Text.{text_lt}
use radar_asset.Base.Sort.{sort}
use radar_asset.Base.Assoc.{Dict, get, put, keys}
use radar_asset.Ledger.{Transaction}
use radar_asset.Performance.State.{HistoricalBar}

-- `iso.slice(0, n)`.
unfoldable pub first_chars : ℕ → String → String
first_chars zero s = ""
first_chars (suc n) [] = ""
first_chars (suc n) (c ∷ s) = String.◌∷◌ c (first_chars n s)

unfoldable pub date_key : String → String
unfolding first_chars
date_key iso = first_chars 10 iso

-- `points.slice(-n)`: `-0` is no position from the end, so it is the whole list.
unfoldable pub slice_last {ℓ} : {A : Type ℓ} → ℕ → List A → List A
slice_last zero l = l
slice_last (suc n) l = drop (length l - suc n) l

module _ {ℓ} {N : Type ℓ} where
  unfoldable pub bars_by_date :
      Dict (List (HistoricalBar N)) → List (HistoricalBar N) → Dict (List (HistoricalBar N))
  unfolding date_key get put
  bars_by_date m [] = m
  bars_by_date m (bar ∷ bars) =
      let key = date_key bar.ts in
      bars_by_date (put key (or_default (get key m) [] ++ bar ∷ []) m) bars

  unfoldable pub is_traded : List (Transaction N) → HistoricalBar N → Bool
  unfolding any
  is_traded transactions bar = any (λ t. t.asset_id == bar.asset_id) transactions

  unfoldable pub performance_dates :
      List (Transaction N) → Dict (List (HistoricalBar N)) → List String
  unfolding sort text_lt keep keys get any is_traded
  performance_dates transactions by_date =
      sort (λ x y. text_lt y x)
        (keep (λ key. any (is_traded transactions) (or_default (get key by_date) []))
          (keys by_date))

  unfoldable pub note_prices : List (HistoricalBar N) → Dict N → Dict N
  unfolding put
  note_prices [] prices = prices
  note_prices (bar ∷ bars) prices = note_prices bars (put bar.asset_id bar.close prices)
