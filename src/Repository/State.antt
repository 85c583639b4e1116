-- ===== src/Repository/State.antt =====
-- The rows that src/lib/backend/portfolio-repository.ts reads and writes, as prisma/schema.prisma
-- declares them, with the columns that the code uses. A date is its ISO text, and a decimal column holds
-- the number that was written to it.
use Prim.Native.String.{String}
use radar_asset.Base.{Bool, Option, List}
use radar_asset.Fx.{FxError}
use radar_asset.Ledger.{TransactionType, LedgerError}

pub data RepositoryError : Type 0 where
  portfolio_not_found asset_not_found asset_unsupported transaction_not_found : RepositoryError
  type_unsupported snapshot_invalid asset_missing signal_used_twice : RepositoryError
  signal_already_acted signal_scope_mismatch signal_side_mismatch : RepositoryError
  of_ledger : LedgerError → RepositoryError
  of_fx : FxError → RepositoryError

pub record PortfolioRow : Type 0 where
  pub id : String
  pub organization_id : String
  pub name : String

pub record AssetRow : Type 0 where
  pub id : String
  pub symbol : String
  pub name : String
  pub asset_class : String
  pub market : String
  pub currency : String

pub record TransactionRow {ℓ} (N : Type ℓ) : Type ℓ where
  pub id : String
  pub portfolio_id : String
  pub asset_id : String
  pub source_signal_id : Option String
  pub kind : String
  pub quantity : N
  pub price : N
  pub fee : N
  pub currency : String
  pub fx_rate_to_vnd : N
  pub fx_effective_date : Option String
  pub fx_source : Option String
  pub fx_fallback : Bool
  pub note : Option String
  pub executed_at : String
  pub created_at : String

pub record PositionRow {ℓ} (N : Type ℓ) : Type ℓ where
  pub portfolio_id : String
  pub asset_id : String
  pub quantity : N
  pub average_cost : N

-- A strategy signal, with the portfolio of its assignment.
pub record SignalRow : Type 0 where
  pub id : String
  pub organization_id : String
  pub portfolio_id : String
  pub asset_id : String
  pub signal_type : String
  pub status : String
  pub execution_at : Option String

-- A rate from USD to VND.
pub record FxRow {ℓ} (N : Type ℓ) : Type ℓ where
  pub effective_date : String
  pub fetched_at : String
  pub mid : N
  pub source : String

pub record Database {ℓ} (N : Type ℓ) : Type ℓ where
  pub portfolios : List PortfolioRow
  pub assets : List AssetRow
  pub transactions : List (TransactionRow N)
  pub positions : List (PositionRow N)
  pub signals : List SignalRow
  pub fx_rates : List (FxRow N)

-- What the body of a request says of a transaction.
pub record TransactionInput {ℓ} (N : Type ℓ) : Type ℓ where
  pub symbol : String
  pub kind : TransactionType
  pub quantity : N
  pub price : N
  pub fee : Option N
  pub currency : Option String
  -- none where the body says nothing, as undefined does
  pub note : Option (Option String)
  pub executed_at : Option String
  pub source_signal_id : Option String

-- The time of a request, and the id that the database gives to a row that it creates.
pub record Moment : Type 0 where
  pub now : String
  pub new_id : String
