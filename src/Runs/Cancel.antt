-- ===== src/Runs/Cancel.antt =====
-- src/lib/backend/quant-runs.ts: cancelPortfolioQuantRun. Its transaction reads the run and then updates
-- the rows whose status is still the one that it asks for, so a worker may change the rows in between:
-- what it does to each row before the first update, and before the second, are parameters.
use Prim.Native.String.{String}
use text.Mathlib.Text.{◌==◌}
use radar_asset.Base.{
  ℕ, Bool, ◌&&◌, none, some, map, if◌then◌else◌, ltb, Result, ok, ◌>>=◌, required, find, count,
}
use radar_asset.Access.{TenantContext}
use radar_asset.Runs.State.{RunError, run_not_found, RunRow, RunLegRow, RunStore, RunResponse}
use radar_asset.Runs.Answer.{is_run, load_run}

module _ {ℓ} {N : Type ℓ} where
  -- The condition of an `updateMany`: the run of the organisation, in a status.
  abbrev pub is_in : String → String → String → RunRow N → Bool
  is_in organization_id id status run = is_run organization_id id run && (run.status == status)

  abbrev pub with_status : String → ℕ → RunRow N → RunRow N
  with_status status requested_at run = record run {
    status = status;
    cancel_requested_at = some requested_at;
  }

  abbrev pub cancelled_run : ℕ → RunRow N → RunRow N
  cancelled_run requested_at run = record run {
    status = "cancelled";
    progress = 100;
    cancel_requested_at = some requested_at;
    finished_at = some requested_at;
    lease_expires_at = none;
  }

  abbrev pub if_in : String → String → String → (RunRow N → RunRow N) → RunRow N → RunRow N
  if_in organization_id id status change run =
      if is_in organization_id id status run then change run else run

  abbrev cancelled_leg : String → RunLegRow N → RunLegRow N
  cancelled_leg id leg =
      if (leg.quant_run_id == id) && (leg.status == "queued")
      then record leg { status = "cancelled"; progress = 100 }
      else leg

  -- The request that a running run be cancelled.
  abbrev pub request_row : String → String → ℕ → RunRow N → RunRow N
  request_row organization_id id requested_at =
      if_in organization_id id "running" (with_status "cancel_requested" requested_at)

  abbrev pub cancel_row : String → String → ℕ → RunRow N → RunRow N
  cancel_row organization_id id requested_at =
      if_in organization_id id "queued" (cancelled_run requested_at)

  -- The branch on the status that was read.
  unfoldable pub cancel_by :
      (RunRow N → RunRow N)
      → (RunRow N → RunRow N)
      → String
      → String
      → ℕ
      → String
      → RunStore N
      → RunStore N
  unfolding count
  cancel_by meanwhile later organization_id id requested_at status db =
      let runs = map meanwhile db.runs in
      if status == "queued"
      then (if ltb 0 (count (is_in organization_id id "queued") runs)
          then record db {
            runs = map (cancel_row organization_id id requested_at) runs;
            legs = map (cancelled_leg id) db.legs;
          }
          else record db {
            runs = map (λ r. request_row organization_id id requested_at (later r)) runs;
          })
      else if status == "running"
      then record db { runs = map (request_row organization_id id requested_at) runs }
      else record db { runs = runs }

  unfoldable pub cancel_portfolio_quant_run :
      (RunRow N → RunRow N)
      → (RunRow N → RunRow N)
      → TenantContext
      → ℕ
      → String
      → RunStore N
      → Result RunError (RunStore N × RunResponse N)
  unfolding find cancel_by load_run
  cancel_portfolio_quant_run meanwhile later context requested_at id db = do
    existing ← required (find (is_run context.organization_id id) db.runs) run_not_found
    let out = cancel_by meanwhile later context.organization_id id requested_at existing.status db
    response ← load_run context.organization_id id out
    ok (out, response)
