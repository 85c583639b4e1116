-- ===== src/Response/Risk.antt =====
-- src/lib/backend/portfolio.ts: calculateRiskMetrics and the statistics that it needs. A square is the
-- product of a number with itself.
use Prim.Native.String.{String, ◌++◌}
use text.Mathlib.Text.{◌==◌}
use radar_asset.Base.{
  ℕ, ◌-◌, min, ◌||◌, Option, none, some, List, [], ◌∷◌, map, if◌then◌else◌, ltb, length, get_elem?,
  take, or_default,
}
use radar_asset.Base.Sort.{sort}
use radar_asset.Base.Number.{Number, of_ℕ}
use radar_asset.Ledger.{round}
use radar_asset.Performance.State.{PerformancePoint}
use radar_asset.Response.State.{Runtime, RiskMetric}

abbrev grade_tone : String → String
grade_tone grade =
    if (grade == "A") || (grade == "B") then "bull" else if grade == "F" then "bear" else "primary"

module _ {ℓ} {N : Type ℓ} ⦃num : Number N⦄ where
  open num use {plus, minus, times, over, negate, lt, le, same}
  open num use {sqrt, floor, minimum, maximum, decimal}

  -- `xs.reduce((sum, x) => sum + f(x), sum)`.
  unfoldable pub sum_of {κ} : {A : Type κ} → (A → N) → N → List A → N
  sum_of f sum [] = sum
  sum_of f sum (x ∷ xs) = sum_of f (plus sum (f x)) xs

  abbrev square : N → N
  square x = times x x

  unfoldable pub returns_from : N → List N → List N
  returns_from previous [] = []
  returns_from previous (x ∷ xs) =
      let rest = returns_from x xs in
      if same previous (of_ℕ 0) then rest else minus (over x previous) (of_ℕ 1) ∷ rest

  unfoldable pub returns : List N → List N
  unfolding returns_from
  returns [] = []
  returns (x ∷ xs) = returns_from x xs

  unfoldable pub mean : List N → N
  unfolding sum_of
  mean [] = of_ℕ 0
  mean (x ∷ xs) = over (sum_of (λ v. v) (of_ℕ 0) (x ∷ xs)) (of_ℕ (length (x ∷ xs)))

  unfoldable pub sample_stdev : List N → N
  unfolding sum_of mean
  sample_stdev values =
      let avg = mean values in
      if ltb (length values) 2
      then of_ℕ 0
      else sqrt
          (over (sum_of (λ v. square (minus v avg)) (of_ℕ 0) values) (of_ℕ (length values - 1)))

  unfoldable pub co_total : N → N → N → List N → List N → N
  co_total avg_left avg_right sum (x ∷ xs) (y ∷ ys) =
      co_total avg_left avg_right (plus sum (times (minus x avg_left) (minus y avg_right))) xs ys
  co_total avg_left avg_right sum [] ys = sum
  co_total avg_left avg_right sum (x ∷ xs) [] = sum

  unfoldable pub covariance : List N → List N → N
  unfolding mean co_total
  covariance a b =
      let n = min (length a) (length b) in
      let left = take n a in
      let right = take n b in
      if ltb n 2
      then of_ℕ 0
      else over (co_total (mean left) (mean right) (of_ℕ 0) left right) (of_ℕ (n - 1))

  unfoldable pub drawdown_loop : N → N → List N → N
  drawdown_loop peak worst [] = worst
  drawdown_loop peak worst (v ∷ values) =
      let top = maximum peak v in
      drawdown_loop top
        (if lt (of_ℕ 0) top then minimum worst (minus (over v top) (of_ℕ 1)) else worst) values

  unfoldable pub max_drawdown : List N → N
  unfolding drawdown_loop
  max_drawdown values = drawdown_loop (or_default (get_elem? values 0) (of_ℕ 0)) (of_ℕ 0) values

  -- What a calculation with `undefined` gives.
  abbrev pub nan : N
  nan = over (of_ℕ 0) (of_ℕ 0)

  abbrev pub element_at : Option ℕ → List N → N
  element_at none values = nan
  element_at (some i) values = or_default (get_elem? values i) nan

  unfoldable pub percentile : Runtime N → List N → N → N
  unfolding sort
  percentile runtime [] p = of_ℕ 0
  percentile runtime (x ∷ xs) p =
      let sorted = sort (λ a b. lt (of_ℕ 0) (minus a b)) (x ∷ xs) in
      let last = of_ℕ (length sorted - 1) in
      element_at (runtime.array_index (maximum (of_ℕ 0) (minimum last (floor (times last p)))))
        sorted

  unfoldable pub diversification_grade : N → String
  diversification_grade hhi =
      if le hhi (decimal 22 2)
      then "A"
      else if le hhi (decimal 35 2)
      then "B"
      else if le hhi (decimal 5 1)
      then "C"
      else if le hhi (decimal 7 1)
      then "D"
      else "F"

  abbrev beta_of : List N → List N → N
  beta_of portfolio_returns benchmark_returns =
      let benchmark_variance = square (sample_stdev benchmark_returns) in
      if same benchmark_variance (of_ℕ 0)
      then of_ℕ 0
      else over (covariance portfolio_returns benchmark_returns) benchmark_variance

  abbrev sharpe_of : N → N → N
  sharpe_of annual_vol annual_return =
      if same annual_vol (of_ℕ 0)
      then of_ℕ 0
      else over (minus annual_return (decimal 4 2)) annual_vol

  unfoldable pub calculate_risk_metrics :
      Runtime N → N → List (String × N) → List (PerformancePoint N) → List (RiskMetric N)
  unfolding returns sample_stdev mean covariance max_drawdown percentile sum_of
      diversification_grade round
  calculate_risk_metrics runtime total_value allocation performance =
      let portfolio_values = map (λ p. p.portfolio) performance in
      let portfolio_returns = returns portfolio_values in
      let benchmark_returns = returns (map (λ p. p.benchmark) performance) in
      let annual_vol = times (sample_stdev portfolio_returns) (sqrt (of_ℕ 252)) in
      let sharpe = sharpe_of annual_vol (times (mean portfolio_returns) (of_ℕ 252)) in
      let beta = beta_of portfolio_returns benchmark_returns in
      let drawdown = max_drawdown portfolio_values in
      let var95 = times total_value (percentile runtime portfolio_returns (decimal 5 2)) in
      let hhi = sum_of (λ item. square (over item.1 (of_ℕ 100))) (of_ℕ 0) allocation in
      let grade = diversification_grade hhi in
      record {
        key = "beta";
        label = "Beta (vs VNINDEX)";
        value = runtime.to_fixed beta 2;
        raw_value = round beta 4;
        sub =
            if lt (decimal 11 1) beta
            then "Slightly aggressive"
            else if lt beta (decimal 8 1)
            then "Defensive tilt"
            else "Market-like";
        tone = if lt (decimal 12 1) beta then "bear" else "primary";
      }
      ∷ record {
        key = "sharpe";
        label = "Sharpe Ratio";
        value = runtime.to_fixed sharpe 2;
        raw_value = round sharpe 4;
        sub = "Rf = 4.0%";
        tone =
            if le (of_ℕ 1) sharpe then "bull" else if lt sharpe (of_ℕ 0) then "bear" else "primary";
      }
      ∷ record {
        key = "volatility";
        label = "Volatility (ann.)";
        value = runtime.to_fixed (times annual_vol (of_ℕ 100)) 1 ++ "%";
        raw_value = round (times annual_vol (of_ℕ 100)) 4;
        sub = runtime.shown (of_ℕ (length performance - 1)) ++ " daily returns";
        tone = if lt (decimal 35 2) annual_vol then "bear" else "primary";
      }
      ∷ record {
        key = "maxDrawdown";
        label = "Max Drawdown";
        value = runtime.to_fixed (times drawdown (of_ℕ 100)) 1 ++ "%";
        raw_value = round (times drawdown (of_ℕ 100)) 4;
        sub = "Peak-to-trough";
        tone = if lt drawdown (negate (decimal 15 2)) then "bear" else "primary";
      }
      ∷ record {
        key = "var95";
        label = "VaR 95% (1D)";
        value = runtime.to_usd var95;
        raw_value = round var95 2;
        sub = "Historical method";
        tone = "bear";
      }
      ∷ record {
        key = "diversification";
        label = "Diversification";
        value = grade;
        raw_value = round hhi 4;
        sub = "HHI " ++ runtime.to_fixed hhi 2;
        tone = grade_tone grade;
      }
      ∷ []
