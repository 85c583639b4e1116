-- ===== src/Performance/Value.antt =====
-- The value of a day in src/lib/backend/portfolio.ts, buildPortfolioPerformance.
use Prim.Native.String.{String, [], ◌∷◌}
use radar_asset.Base.{
  Bool, true, false, not, ◌&&◌, ◌||◌, Option, none, some, List, [], ◌∷◌, ◌++◌, if◌then◌else◌, any,
  or_default, is_some,
}
use radar_asset.Base.Assoc.{Dict, get, values, keys}
use radar_asset.Base.Number.{Number, of_ℕ}
use radar_asset.Ledger.{Position, round, nonempty}
use radar_asset.Performance.State.{Trading, Valuation}

module _ {ℓ} {N : Type ℓ} ⦃num : Number N⦄ where
  open num use {plus, minus, times, over, negate, lt, le, same, minimum}

  -- A number as a condition: neither zero nor NaN.
  abbrev pub is_truthy : N → Bool
  is_truthy x = same x x && not (same x (of_ℕ 0))

  abbrev pub price_of : Dict N → Position N → N
  price_of prices p = or_default (get p.asset_id prices) (of_ℕ 0)

  unfoldable pub total_value : Dict N → N → List (Position N) → N
  unfolding get
  total_value prices sum [] = sum
  total_value prices sum (p ∷ ps) =
      total_value prices (plus sum (times p.quantity (price_of prices p))) ps

  abbrev pub is_missing : Dict N → String → Bool
  is_missing prices asset_id = not (is_some (get asset_id prices))

  abbrev pub is_empty : Dict (Position N) → Bool
  is_empty [] = true
  is_empty (e ∷ m) = false

  -- `continue`: no point for a day on which a price is missing, a holding is worth nothing, or
  -- nothing is held and nothing has moved.
  unfoldable pub is_skipped : Dict N → Trading N → Option N → N → Bool
  unfolding any keys get
  is_skipped prices trading previous current =
      any (is_missing prices) (keys trading.positions)
      || (not (is_empty trading.positions) && le current (of_ℕ 0))
      || (is_empty trading.positions
          && (not (is_some previous) || same trading.pending_portfolio_flow (of_ℕ 0)))

  -- The benchmark account buys, or sells, units for the flow that is pending. A withdrawal beyond its
  -- units is owed in cash.
  unfoldable pub move_benchmark : N → N → Valuation N → Valuation N
  move_benchmark price flow v =
      if same flow (of_ℕ 0)
      then v
      else if lt (of_ℕ 0) flow
      then record v { benchmark_units = plus v.benchmark_units (over flow price) }
      else let withdrawal = negate flow in
        let units_to_sell = minimum v.benchmark_units (over withdrawal price) in
        record v {
          benchmark_units = minus v.benchmark_units units_to_sell;
          benchmark_cash = minus v.benchmark_cash (minus withdrawal (times units_to_sell price));
        }

  abbrev pub settle_benchmark : Option N → N → Valuation N → Valuation N
  settle_benchmark none flow v = v
  settle_benchmark (some price) flow v =
      move_benchmark price flow (record v {
        benchmark_base = elim v.benchmark_base [ none ↦ some price | some b ↦ some b ];
      })

  abbrev pub benchmark_flow_left : Option N → N → N
  benchmark_flow_left none flow = flow
  benchmark_flow_left (some price) flow = if same flow (of_ℕ 0) then flow else of_ℕ 0

  -- The index moves by the return of the day, without the money that was put in or taken out.
  abbrev pub move_index : Option N → N → N → Valuation N → Valuation N
  move_index none current flow v = record v { previous_value = some current }
  move_index (some previous) current flow v =
      if lt (of_ℕ 0) previous
      then record v {
        portfolio_index = times v.portfolio_index (over (minus current flow) previous);
        previous_value = some current;
      }
      else if lt (of_ℕ 0) current
      then record v { previous_value = some current }
      else v

  abbrev pub benchmark_index : Option N → Option N → N
  benchmark_index (some price) (some base) =
      if is_truthy base then times (over price base) (of_ℕ 100) else of_ℕ 100
  benchmark_index _ _ = of_ℕ 100

  abbrev pub benchmark_value : Option N → Valuation N → Option N
  benchmark_value none v = none
  benchmark_value (some price) v =
      some (round (plus (times v.benchmark_units price) v.benchmark_cash) 2)

  unfoldable pub add_point : (String → String) → String → Option N → N → Valuation N → Valuation N
  unfolding round
  add_point label key price current v = record v {
    points =
        v.points
        ++ record {
          label = label key;
          portfolio = round v.portfolio_index 2;
          benchmark = round (benchmark_index price v.benchmark_base) 2;
          portfolio_value = round current 2;
          benchmark_value = benchmark_value price v;
        }
          ∷ [];
  }

  abbrev pub benchmark_price : Option String → Dict N → Option N
  benchmark_price asset_id prices = elim (nonempty asset_id) [ none ↦ none | some a ↦ get a prices ]

  -- The part of a day after its transactions.
  unfoldable pub value_day :
      (String → String)
      → Option String
      → String
      → Dict N
      → Trading N
      → Valuation N
      → Trading N × Valuation N
  unfolding get values total_value is_skipped move_benchmark add_point
  value_day label benchmark_id key prices trading v =
      let current = total_value prices (of_ℕ 0) (values trading.positions) in
      let price = benchmark_price benchmark_id prices in
      if is_skipped prices trading v.previous_value current
      then (trading, v)
      else let settled = settle_benchmark price trading.pending_benchmark_flow v in
        let moved =
          move_index settled.previous_value current trading.pending_portfolio_flow settled in
        (
          record trading {
            pending_portfolio_flow = of_ℕ 0;
            pending_benchmark_flow = benchmark_flow_left price trading.pending_benchmark_flow;
          },
          add_point label key price current moved,
        )
