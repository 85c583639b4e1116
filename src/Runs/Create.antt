-- ===== src/Runs/Create.antt =====
-- src/lib/backend/quant-runs.ts: createPortfolioQuantRun. The search of the cached run and the rows that
-- are created are one transaction, under a lock on the hash.
use Prim.Native.String.{String}
use text.Mathlib.Text.{◌==◌}
use radar_asset.Base.{
  ℕ, ◌+◌, ◌*◌, Bool, true, false, not, ◌&&◌, ◌||◌, Option, none, some, List, [], ◌∷◌, ◌++◌, map,
  if◌then◌else◌, ltb, length, Result, ok, ◌>>=◌, keep, any, get_elem?, last?,
}
use radar_asset.Base.Text.{text_lt}
use radar_asset.Base.Sort.{sort}
use radar_asset.Base.Number.{Number}
use radar_asset.Access.{TenantContext}
use radar_asset.Runs.State.{
  RunError, market_name, Submission, ResolvedLeg, HistoricalCoverage, RunRow, RunLegRow, RunStore,
  RunResponse, RunMoment, Outside,
}
use radar_asset.Runs.Legs.{date_boundary, includes, resolve_portfolio_legs}
use radar_asset.Runs.Answer.{quant_run_to_response, load_run}

abbrev pub portfolio_engine_version : String
portfolio_engine_version = "portfolio-v1"

abbrev pub run_timeout_ms : ℕ
run_timeout_ms = 15 * 60 * 1_000

-- `filter((value) => value !== null)`.
abbrev present : List (Option String) → List String
present [] = []
present (none ∷ xs) = present xs
present (some x ∷ xs) = x ∷ present xs

abbrev is_complete : String → Option String → Bool
is_complete from none = false
is_complete from (some first) = not (text_lt (date_boundary from) first)

-- Null stands before every time in a descending order.
abbrev later_null_first : Option ℕ → Option ℕ → Bool
later_null_first none y = false
later_null_first (some x) none = true
later_null_first (some x) (some y) = ltb x y

abbrev same_time : Option ℕ → Option ℕ → Bool
same_time none none = true
same_time none (some y) = false
same_time (some x) none = false
same_time (some x) (some y) = not (ltb x y) && not (ltb y x)

abbrev has_hash : Option String → String → Bool
has_hash none hash = false
has_hash (some h) hash = h == hash

module _ {ℓ} {N : Type ℓ} where
  unfoldable pub first_observed : List (ResolvedLeg N) → Option String
  unfolding sort text_lt
  first_observed legs =
      let starts =
        sort (λ x y. text_lt y x) (present (map (λ l. l.listing_first_observed_at) legs)) in
      if not (ltb (length starts) (length legs)) && not (ltb (length legs) (length starts))
      then last? starts
      else none

  unfoldable pub historical_coverage : String → List (ResolvedLeg N) → HistoricalCoverage
  unfolding first_observed text_lt
  historical_coverage from legs =
      let first = first_observed legs in
      let complete = is_complete from first in
      record {
        first_observed_at = first;
        complete_for_requested_range = complete;
        warning_code = if complete then none else some "SURVIVORSHIP_COVERAGE_PARTIAL";
      }

  abbrev run_after : RunRow N → RunRow N → Bool
  run_after x y =
      text_lt x.status y.status
      || ((x.status == y.status)
          && (later_null_first x.finished_at y.finished_at
              || (same_time x.finished_at y.finished_at && ltb x.created_at y.created_at)))

  abbrev pub is_reusable : String → String → RunRow N → Bool
  is_reusable organization_id hash run =
      (run.organization_id == organization_id)
      && (includes ("queued" ∷ "running" ∷ "succeeded" ∷ []) run.status
          && (has_hash run.strategy_hash hash && (run.engine_version == portfolio_engine_version)))

  unfoldable pub find_cached : String → String → List (RunRow N) → Option (RunRow N)
  unfolding keep sort text_lt any
  find_cached organization_id hash runs =
      get_elem? (sort run_after (keep (is_reusable organization_id hash) runs)) 0

  unfoldable pub new_run :
      TenantContext → RunMoment → Submission N → List (ResolvedLeg N) → String → RunRow N
  unfolding historical_coverage
  new_run context moment input legs hash = record {
    id = moment.run_id;
    organization_id = context.organization_id;
    user_id = some context.user_id;
    strategy_version_id = none;
    strategy_name = "Portfolio Backtest";
    status = "queued";
    timeframe = input.timeframe;
    progress = 0;
    strategy_hash = some hash;
    dataset_version_ids = map (λ l. l.dataset_version_id) legs;
    engine_version = portfolio_engine_version;
    parameters = (input, historical_coverage input.from legs);
    metrics = none;
    error_message = none;
    lease_expires_at = none;
    cancel_requested_at = none;
    deadline_at = some (moment.now + run_timeout_ms);
    started_at = none;
    finished_at = none;
    created_at = moment.now;
  }

  abbrev pub new_run_leg : RunMoment → ResolvedLeg N → RunLegRow N
  new_run_leg moment leg = record {
    id = moment.leg_id leg.symbol;
    quant_run_id = moment.run_id;
    asset_id = leg.asset_id;
    dataset_version_id = leg.dataset_version_id;
    strategy_version_id = leg.strategy_version_id;
    symbol_snapshot = leg.symbol;
    market_snapshot = market_name leg.market;
    currency_snapshot = leg.currency;
    allocation_bps = leg.allocation_bps;
    initial_notional = leg.initial_notional;
    leverage = leg.leverage;
    parameters = leg.strategy_parameters;
    implementation_hash = leg.implementation_hash;
    status = "queued";
    progress = 0;
    metrics = none;
    error_code = none;
  }

  abbrev pub cached_response : RunRow N → RunResponse N → RunResponse N
  cached_response run response =
      if run.status == "succeeded"
      then record response { cache_hit = true; source_run_id = some run.id }
      else response

  -- The cached run is answered; without one, a run and its legs are created.
  abbrev pub reuse_or_queue :
      TenantContext
      → RunMoment
      → Submission N
      → List (ResolvedLeg N)
      → String
      → Option (RunRow N)
      → RunStore N
      → Result RunError (RunStore N × RunResponse N)
  reuse_or_queue context moment input legs hash (some cached) db = do
    response ← quant_run_to_response context.organization_id db cached
    ok (db, cached_response cached response)
  reuse_or_queue context moment input legs hash none db = do
    let out = record db {
      runs = db.runs ++ new_run context moment input legs hash ∷ [];
      legs = db.legs ++ map (new_run_leg moment) legs;
    }
    response ← load_run context.organization_id moment.run_id out
    ok (out, response)

  unfoldable pub create_portfolio_quant_run :
      ⦃num : Number N⦄
      → Outside N
      → TenantContext
      → RunMoment
      → Submission N
      → RunStore N
      → Result RunError (RunStore N × RunResponse N)
  unfolding resolve_portfolio_legs quant_run_to_response find_cached new_run load_run
  create_portfolio_quant_run outside context moment submission db = do
    input ← outside.normalize_submission submission
    legs ← resolve_portfolio_legs outside.normalize_rule input context db.strategies db.assets
    let hash = outside.run_hash input legs portfolio_engine_version
    reuse_or_queue context moment input legs hash (find_cached context.organization_id hash db.runs)
        db
