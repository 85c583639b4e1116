-- ===== src/Runs/Answer.antt =====
-- src/lib/backend/quant-runs.ts: quantRunToResponse and loadRunWithClient. A JSON column is passed on as
-- it is stored.
use Prim.Native.String.{String}
use text.Mathlib.Text.{◌==◌}
use radar_asset.Base.{
  Bool, false, ◌&&◌, ◌||◌, Option, none, some, List, [], ◌∷◌, if◌then◌else◌, Result, ok, err, ◌>>=◌,
  required, map_result, find, keep, any, take, ltb,
}
use radar_asset.Base.Text.{text_lt}
use radar_asset.Base.Sort.{sort}
use radar_asset.Runs.State.{
  RunError, run_not_found, status_invalid, market_invalid, kind_invalid, row_missing, StrategyRow,
  RunRow, RunLegRow, ArtifactRow, RunStore, LegResponse, ArtifactResponse, RunResponse,
}
use radar_asset.Runs.Legs.{supported_market, includes}

unfoldable pub quant_run_status : String → Result RunError String
unfolding any
quant_run_status value =
    if includes
      ("queued" ∷ "running" ∷ "succeeded" ∷ "failed" ∷ "cancel_requested" ∷ "cancelled"
        ∷ "timed_out" ∷ [])
      value
    then ok value
    else err status_invalid

unfoldable pub artifact_kind : String → Result RunError String
unfolding any
artifact_kind value =
    if includes
      ("equity" ∷ "drawdown" ∷ "trades" ∷ "manifest" ∷ "analytics" ∷ "report_html" ∷ "benchmark"
        ∷ "contribution" ∷ "cash_flow" ∷ "rebalance" ∷ "robustness" ∷ [])
      value
    then ok value
    else err kind_invalid

unfoldable pub to_artifact_response : ArtifactRow → Result RunError ArtifactResponse
unfolding artifact_kind
to_artifact_response artifact = do
  kind ← artifact_kind artifact.kind
  ok (record {
    id = artifact.id;
    quant_run_leg_id = artifact.quant_run_leg_id;
    scope_key = artifact.scope_key;
    kind = kind;
    checksum = artifact.checksum;
    payload = artifact.payload;
    row_count = artifact.row_count;
    schema_version = artifact.schema_version;
  })

abbrev code_of : Option StrategyRow → Option String
code_of none = none
code_of (some s) = some s.code

abbrev version_of : Option StrategyRow → Option String
version_of none = none
version_of (some s) = some s.version

abbrev strategy_of : List StrategyRow → Option String → Option StrategyRow
strategy_of strategies none = none
strategy_of strategies (some id) = find (λ s. s.id == id) strategies

abbrev artifact_after : ArtifactRow → ArtifactRow → Bool
artifact_after x y =
    text_lt y.scope_key x.scope_key || ((x.scope_key == y.scope_key) && text_lt y.kind x.kind)

unfoldable pub artifacts_of : String → String → List ArtifactRow → List ArtifactRow
unfolding keep sort text_lt
artifacts_of organization_id id artifacts =
    sort artifact_after
      (keep (λ a. (a.quant_run_id == id) && (a.organization_id == organization_id)) artifacts)

module _ {ℓ} {N : Type ℓ} where
  unfoldable pub to_leg_response : List StrategyRow → RunLegRow N → Result RunError (LegResponse N)
  unfolding find supported_market quant_run_status
  to_leg_response strategies leg = do
    strategy ← required (find (λ s. s.id == leg.strategy_version_id) strategies) row_missing
    market ← required (supported_market leg.market_snapshot) market_invalid
    status ← quant_run_status leg.status
    ok (record {
      id = leg.id;
      symbol = leg.symbol_snapshot;
      market = market;
      currency = leg.currency_snapshot;
      allocation_bps = leg.allocation_bps;
      initial_notional = leg.initial_notional;
      leverage = leg.leverage;
      strategy_code = strategy.code;
      strategy_version = strategy.version;
      strategy_name = strategy.name;
      strategy_parameters = leg.parameters;
      implementation_hash = leg.implementation_hash;
      dataset_version_id = leg.dataset_version_id;
      status = status;
      progress = leg.progress;
      metrics = leg.metrics;
      error_code = leg.error_code;
    })

  -- The legs and artifacts of a run, as `runInclude` orders them.
  unfoldable pub legs_of : String → List (RunLegRow N) → List (RunLegRow N)
  unfolding keep sort text_lt
  legs_of id legs =
      sort (λ x y. text_lt y.symbol_snapshot x.symbol_snapshot)
        (keep (λ l. l.quant_run_id == id) legs)

  unfoldable pub quant_run_to_response :
      String → RunStore N → RunRow N → Result RunError (RunResponse N)
  unfolding quant_run_status find legs_of artifacts_of to_leg_response to_artifact_response
      map_result
  quant_run_to_response organization_id db run = do
    status ← quant_run_status run.status
    let strategy = strategy_of db.strategies run.strategy_version_id
    legs ← map_result (to_leg_response db.strategies) (legs_of run.id db.legs)
    artifacts ← map_result to_artifact_response (artifacts_of organization_id run.id db.artifacts)
    ok (record {
      id = run.id;
      strategy_name = run.strategy_name;
      strategy_code = code_of strategy;
      strategy_version = version_of strategy;
      status = status;
      timeframe = "1d";
      progress = run.progress;
      strategy_hash = run.strategy_hash;
      dataset_version_ids = run.dataset_version_ids;
      engine_version = run.engine_version;
      parameters = run.parameters;
      metrics = run.metrics;
      error_message = run.error_message;
      started_at = run.started_at;
      finished_at = run.finished_at;
      created_at = run.created_at;
      cache_hit = false;
      source_run_id = none;
      legs = legs;
      artifacts = artifacts;
    })

  abbrev pub is_run : String → String → RunRow N → Bool
  is_run organization_id id run = (run.id == id) && (run.organization_id == organization_id)

  unfoldable pub load_run : String → String → RunStore N → Result RunError (RunResponse N)
  unfolding find quant_run_to_response
  load_run organization_id id db = do
    run ← required (find (is_run organization_id id) db.runs) run_not_found
    quant_run_to_response organization_id db run

  -- The newest 25 runs of the organisation.
  unfoldable pub list_portfolio_quant_runs :
      String → RunStore N → Result RunError (List (RunResponse N))
  unfolding keep sort quant_run_to_response map_result
  list_portfolio_quant_runs organization_id db =
      let own = keep (λ (r : RunRow N). r.organization_id == organization_id) db.runs in
      map_result (quant_run_to_response organization_id db)
        (take 25 (sort (λ x y. ltb x.created_at y.created_at) own))
