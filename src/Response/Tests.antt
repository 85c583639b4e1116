-- ===== src/Response/Tests.antt =====
-- Runs and witnesses of the response.
use Prim.Native.Nat.{ℕ}
use Prim.Native.String.{String}
use radar_asset.Base.{◌≡◌, refl, Option, none, some, [], ◌∷◌}
use radar_asset.Base.Int.{ℤ, pos, negsuc, ◌+ℤ◌, ◌-ℤ◌, ◌*ℤ◌}
use radar_asset.Base.Number.{whole_numbers}
use radar_asset.Ledger.{AssetClass, crypto, equity, Position}
use radar_asset.Response.State.{Runtime, ResponseInput, Response}
use radar_asset.Response.Risk.{
  returns, mean, sample_stdev, covariance, max_drawdown, percentile, diversification_grade,
}
use radar_asset.Response.Build.{build_portfolio_response}
use radar_asset.Response.Allocation.{IsAllocation, build_portfolio_response-IsAllocation}

abbrev place : ℤ → Option ℕ
place (pos n) = some n
place (negsuc n) = none

abbrev plain : Runtime ℤ
plain = record {
  to_fixed = λ x digits. "n";
  to_usd = λ x. "$";
  shown = λ x. "n";
  array_index = place;
}

abbrev holds : String → AssetClass → ℤ → ℤ → ℤ → Position ℤ
holds id kind quantity cost price = record {
  asset_id = id;
  symbol = id;
  name = id;
  asset_class = kind;
  quantity = quantity;
  average_cost = cost;
  latest_price = price;
  currency = none;
}

abbrev request : ResponseInput ℤ String
request = record {
  portfolio_id = "p1";
  portfolio_name = "Main";
  base_currency = "USD";
  positions =
      holds "btc" crypto (pos 2) (pos 5) (pos 10)
      ∷ holds "vnm" equity (pos 3) (pos 1) (pos 10)
      ∷ holds "eth" crypto (pos 5) (pos 4) (pos 10)
      ∷ [];
  transactions = "t1" ∷ [];
  performance = [];
  benchmark = none;
  realized_pnl = none;
  cumulative_buy_capital = none;
  data_as_of = none;
  data_source = none;
}

abbrev built : Response ℤ String
built = build_portfolio_response plain request

statistics :
    (returns (pos 1 ∷ pos 3 ∷ pos 0 ∷ pos 5 ∷ []) ≡ pos 2 ∷ negsuc 0 ∷ [])
    × (mean (pos 1 ∷ pos 3 ∷ pos 5 ∷ []) ≡ pos 3)
    × (sample_stdev (pos 1 ∷ pos 3 ∷ pos 5 ∷ []) ≡ pos 4)
    × (covariance (pos 1 ∷ pos 3 ∷ pos 5 ∷ []) (pos 2 ∷ pos 4 ∷ pos 6 ∷ pos 9 ∷ []) ≡ pos 4)
    × (max_drawdown (pos 2 ∷ pos 4 ∷ negsuc 3 ∷ pos 3 ∷ []) ≡ negsuc 1)
    × (percentile plain (pos 4 ∷ pos 2 ∷ pos 3 ∷ []) (pos 1) ≡ pos 4)
    × (diversification_grade (pos 1) ≡ "F")
unfolding returns mean sample_stdev covariance max_drawdown percentile diversification_grade ◌+ℤ◌
    ◌-ℤ◌ ◌*ℤ◌
statistics = (refl, refl, refl, refl, refl, refl, refl)

built_values :
    (built.total_value ≡ pos 100)
    × (built.total_pnl ≡ pos 67)
    × (built.benchmark.symbol ≡ "VNINDEX")
unfolding build_portfolio_response ◌+ℤ◌ ◌-ℤ◌ ◌*ℤ◌
built_values = (refl, refl, refl)

build_portfolio_response-IsAllocation_example : IsAllocation request built
build_portfolio_response-IsAllocation_example = build_portfolio_response-IsAllocation plain request
