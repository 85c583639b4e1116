-- ===== src/Runs/State.antt =====
-- The data of src/lib/backend/quant-runs.ts: the submission, the rows that it reads and writes, as far as
-- it reads them, and its errors. A JSON value is its text, a date that is compared is its ISO text, and
-- the times of a run are milliseconds.
use Prim.Native.String.{String}
use radar_asset.Base.{ℕ, Bool, Option, List, Result}
use radar_asset.Allocation.{AllocationError}
use radar_asset.Builder.State.{Assumptions}

pub data RunError : Type 0 where
  asset_unavailable dataset_unavailable dataset_range_insufficient dataset_provider_gap : RunError
  dataset_calendar_unverified leverage_limit_exceeded strategy_unavailable : RunError
  strategy_unsupported : RunError
  of_allocation : AllocationError → RunError
  submission_invalid rule_invalid run_not_found status_invalid market_invalid kind_invalid :
      RunError
  row_missing : RunError

pub data SupportedMarket : Type 0 where
  vn_equity crypto_spot metal_spot : SupportedMarket

abbrev pub market_name : SupportedMarket → String
market_name vn_equity = "vn_equity"
market_name crypto_spot = "crypto_spot"
market_name metal_spot = "metal_spot"

pub record SubmissionLeg {ℓ} (N : Type ℓ) : Type ℓ where
  pub symbol : String
  pub allocation_bps : ℕ
  pub leverage : N
  pub strategy_code : String
  pub strategy_version : String
  pub strategy_parameters : String

pub record Submission {ℓ} (N : Type ℓ) : Type ℓ where
  pub timeframe : String
  pub from : String
  pub to : String
  pub total_capital : N
  pub assumptions : Assumptions N
  pub legs : List (SubmissionLeg N)

pub record DatasetIssue : Type 0 where
  pub classification : String
  pub range_start : String
  pub range_end : String

pub record DatasetVersion : Type 0 where
  pub id : String
  pub checksum : String
  pub version : ℕ
  pub is_active : Bool
  pub quality_status : String
  pub coverage_start : String
  pub coverage_end : String
  pub issues : List DatasetIssue

pub record Dataset : Type 0 where
  pub timeframe : String
  pub adjustment_policy : String
  pub versions : List DatasetVersion

pub record QuantAsset {ℓ} (N : Type ℓ) : Type ℓ where
  pub id : String
  pub symbol : String
  pub market : String
  pub currency : String
  pub max_leverage : N
  pub listed_from : List String
  pub datasets : List Dataset

pub record CustomVersion : Type 0 where
  pub status : String
  pub rule_definition : String
  pub strategy_status : String

pub record StrategyRow : Type 0 where
  pub id : String
  pub code : String
  pub version : String
  pub name : String
  pub status : String
  pub organization_id : Option String
  pub implementation_hash : String
  pub supported_markets : List String
  pub supported_timeframes : List String
  pub custom : Option CustomVersion

-- What `normalizeExecutableRule` makes of a definition: its currency, and the whole of it.
pub record ExecutableRule : Type 0 where
  pub currency : String
  pub definition : String

pub record ResolvedLeg {ℓ} (N : Type ℓ) : Type ℓ where
  pub symbol : String
  pub asset_id : String
  pub dataset_version_id : String
  pub dataset_checksum : String
  pub strategy_version_id : String
  pub implementation_hash : String
  pub allocation_bps : ℕ
  pub leverage : N
  pub strategy_parameters : String
  pub initial_notional : N
  pub market : SupportedMarket
  pub currency : String
  pub strategy_code : String
  pub strategy_version : String
  pub listing_first_observed_at : Option String

pub record HistoricalCoverage : Type 0 where
  pub first_observed_at : Option String
  pub complete_for_requested_range : Bool
  pub warning_code : Option String

pub record RunRow {ℓ} (N : Type ℓ) : Type ℓ where
  pub id : String
  pub organization_id : String
  pub user_id : Option String
  pub strategy_version_id : Option String
  pub strategy_name : String
  pub status : String
  pub timeframe : String
  pub progress : ℕ
  pub strategy_hash : Option String
  pub dataset_version_ids : List String
  pub engine_version : String
  pub parameters : Submission N × HistoricalCoverage
  pub metrics : Option String
  pub error_message : Option String
  pub lease_expires_at : Option ℕ
  pub cancel_requested_at : Option ℕ
  pub deadline_at : Option ℕ
  pub started_at : Option ℕ
  pub finished_at : Option ℕ
  pub created_at : ℕ

pub record RunLegRow {ℓ} (N : Type ℓ) : Type ℓ where
  pub id : String
  pub quant_run_id : String
  pub asset_id : String
  pub dataset_version_id : String
  pub strategy_version_id : String
  pub symbol_snapshot : String
  pub market_snapshot : String
  pub currency_snapshot : String
  pub allocation_bps : ℕ
  pub initial_notional : N
  pub leverage : N
  pub parameters : String
  pub implementation_hash : String
  pub status : String
  pub progress : ℕ
  pub metrics : Option String
  pub error_code : Option String

pub record ArtifactRow : Type 0 where
  pub id : String
  pub organization_id : String
  pub quant_run_id : String
  pub quant_run_leg_id : Option String
  pub scope_key : String
  pub kind : String
  pub checksum : String
  pub payload : String
  pub row_count : ℕ
  pub schema_version : ℕ

pub record RunStore {ℓ} (N : Type ℓ) : Type ℓ where
  pub strategies : List StrategyRow
  pub assets : List (QuantAsset N)
  pub runs : List (RunRow N)
  pub legs : List (RunLegRow N)
  pub artifacts : List ArtifactRow

pub record LegResponse {ℓ} (N : Type ℓ) : Type ℓ where
  pub id : String
  pub symbol : String
  pub market : SupportedMarket
  pub currency : String
  pub allocation_bps : ℕ
  pub initial_notional : N
  pub leverage : N
  pub strategy_code : String
  pub strategy_version : String
  pub strategy_name : String
  pub strategy_parameters : String
  pub implementation_hash : String
  pub dataset_version_id : String
  pub status : String
  pub progress : ℕ
  pub metrics : Option String
  pub error_code : Option String

pub record ArtifactResponse : Type 0 where
  pub id : String
  pub quant_run_leg_id : Option String
  pub scope_key : String
  pub kind : String
  pub checksum : String
  pub payload : String
  pub row_count : ℕ
  pub schema_version : ℕ

pub record RunResponse {ℓ} (N : Type ℓ) : Type ℓ where
  pub id : String
  pub strategy_name : String
  pub strategy_code : Option String
  pub strategy_version : Option String
  pub status : String
  pub timeframe : String
  pub progress : ℕ
  pub strategy_hash : Option String
  pub dataset_version_ids : List String
  pub engine_version : String
  pub parameters : Submission N × HistoricalCoverage
  pub metrics : Option String
  pub error_message : Option String
  pub started_at : Option ℕ
  pub finished_at : Option ℕ
  pub created_at : ℕ
  pub cache_hit : Bool
  pub source_run_id : Option String
  pub legs : List (LegResponse N)
  pub artifacts : List ArtifactResponse

-- The time of a request in milliseconds, and the ids that the database gives: of a run, and of the leg of
-- a symbol.
pub record RunMoment : Type 0 where
  pub now : ℕ
  pub run_id : String
  pub leg_id : String → String

-- The functions that are parameters: `normalizeBacktestSubmission`, `normalizeExecutableRule` and
-- `hashResolvedPortfolioRun`.
pub record Outside {ℓ} (N : Type ℓ) : Type ℓ where
  pub normalize_submission : Submission N → Result RunError (Submission N)
  pub normalize_rule : String → Result RunError ExecutableRule
  pub run_hash : Submission N → List (ResolvedLeg N) → String → String
