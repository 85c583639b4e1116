-- ===== src/Ingestion.antt =====
-- src/lib/backend/ingestion-requests.ts: a request for the ingestion of market data, in a serializable
-- transaction that is tried again on a write conflict. What the database makes of each attempt is a
-- parameter; the rows are the requests, with the fields that the code compares.
pub mod Laws
mod Tests
use Prim.Native.Nat.{zero, suc}
use Prim.Native.String.{String}
use text.Mathlib.Text.{◌==◌}
use radar_asset.Base.{
  ℕ, ◌-◌, Bool, true, false, ◌&&◌, ◌||◌, not, Option, none, some, List, [], ◌∷◌, if◌then◌else◌, leb,
  find, count, Result, ok, err, ◌>>=◌, ◌>>◌, guard,
}

pub data RequestStatus : Type 0 where
  queued running succeeded failed : RequestStatus

pub data IngestionError : Type 0 where
  rate_limited write_conflict other_failure : IngestionError

pub record Row : Type 0 where
  pub organization_id : String
  pub user_id : String
  pub instrument_id : String
  pub timeframe : String
  pub status : RequestStatus

abbrev pub transaction_retry_attempts : ℕ
transaction_retry_attempts = 5

-- `ACTIVE_STATUSES`.
abbrev pub is_active : Row → Bool
is_active r = elim r.status [ queued ↦ true | running ↦ true | succeeded ↦ false | failed ↦ false ]

abbrev pub of_organization : String → Row → Bool
of_organization organization r = (r.organization_id == organization) && is_active r

abbrev pub of_user : String → String → Row → Bool
of_user organization user r = of_organization organization r && (r.user_id == user)

abbrev pub of_instrument : String → String → String → String → Row → Bool
of_instrument organization user instrument timeframe r =
    of_user organization user r && ((r.instrument_id == instrument) && (r.timeframe == timeframe))

abbrev pub new_row : String → String → String → String → Row
new_row organization user instrument timeframe = record {
  organization_id = organization;
  user_id = user;
  instrument_id = instrument;
  timeframe = timeframe;
  status = queued;
}

-- What is done once the active request of the instrument and timeframe, if there is one, has been looked up.
abbrev pub answered :
    String
    → String
    → String
    → String
    → List Row
    → Option Row
    → Result IngestionError (List Row × (Row × Bool))
answered organization user instrument timeframe rows (some active) = ok (rows, (active, false))
answered organization user instrument timeframe rows none = do
  guard
      (not (
        leb 20 (count (of_user organization user) rows)
        || leb 100 (count (of_organization organization) rows)))
      rate_limited
  let created = new_row organization user instrument timeframe
  ok (created ∷ rows, (created, true))

-- The body of the transaction. The rows stand with the newest first, as `orderBy` asks of `findFirst`;
-- the result says whether a row was created.
unfoldable pub execute :
    String → String → String → String → List Row → Result IngestionError (List Row × (Row × Bool))
unfolding find count
execute organization user instrument timeframe rows =
    answered organization user instrument timeframe rows
      (find (of_instrument organization user instrument timeframe) rows)

-- What the database makes of an attempt.
pub data Attempt : Type 0 where
  serialized conflicted broken : Attempt

abbrev pub try : {A : Type 0} → Attempt → Result IngestionError A → Result IngestionError A
try serialized result = result
try conflicted result = err write_conflict
try broken result = err other_failure

abbrev is_conflict : IngestionError → Bool
is_conflict write_conflict = true
is_conflict _ = false

-- `fuel` attempts are left after this one.
unfoldable pub retry :
    {A : Type 0} → ℕ → List Attempt → Result IngestionError A → Result IngestionError A
retry zero [] result = result
retry zero (a ∷ attempts) result = try a result
retry (suc fuel) [] result = result
retry (suc fuel) (a ∷ attempts) result = elim (try a result) [
  | ok r ↦ ok r
  | err e ↦ elim (is_conflict e) [ true ↦ retry fuel attempts result | false ↦ err e ]
]

-- The attempts that the list does not name are serialized.
unfoldable pub request_market_ingestion :
    List Attempt
    → String
    → String
    → String
    → String
    → List Row
    → Result IngestionError (List Row × (Row × Bool))
unfolding execute retry
request_market_ingestion attempts organization user instrument timeframe rows =
    retry (transaction_retry_attempts - 1) attempts
      (execute organization user instrument timeframe rows)
