-- ===== src/Lib.antt =====
-- The logic of RadarAsset, a portfolio and research application, as definitions and theorems.
--
-- Base holds what the parts share: lists, options and results over the native numbers, texts and their
-- order, a stable sort, maps in insertion order, integers, and the interface Number.
--
-- Ledger models src/lib/backend/portfolio.ts: round, applyPortfolioTransaction,
-- compareLedgerTransactions and replayPortfolioLedger, with the types of src/lib/backend/types.ts. Steps
-- is about one round of the replay, Replay about the positions it ends in, Failures about its errors,
-- Totals about its list of transactions and the capital, Order about the comparison.
-- Fx models src/lib/backend/fx-rates.ts: normalizeCurrency, convertMoney and selectRateOnOrBefore.
-- Allocation models src/lib/backtest/allocation.ts and equalAllocationForTotal of
-- src/lib/backtest/builder-state.ts.
-- Freshness models calculateFreshness and the expected bars of src/lib/market-data/health.ts.
-- Performance models buildPortfolioPerformance and buildTradeAwarePerformance of
-- src/lib/backend/portfolio.ts on top of Ledger: State its variables, Bars the days and prices, Trading
-- the transactions of a day, Value the value of a day, Report the final result, Build the whole.
-- Performance.Follows relates its positions to those of the replay; plain forgets the currency, which
-- the performance does not fill in.
-- RequestCache models src/lib/client/request-cache.ts as a sequence of events: calls of its functions,
-- with the time of each, and rejections of loads.
-- Access models hasTenantCapability of src/lib/auth/permissions.ts, and normalizeTenantRole,
-- resolveTenantContext and requireTenantCapability of src/lib/auth/tenant-context.ts.
-- Preview models getTransactionValueError, buildTransactionPreview, transactionCurrencyForAsset and
-- isSellSelectionDisabled of src/lib/portfolio-transaction-preview.ts.
-- Builder models reduceBuilder and applyOptimizerProposal of src/lib/backtest/builder-state.ts: State
-- its data, Legs the operations on legs, Reduce the actions; Distinct, Laws and Invariant the proofs. Of
-- a catalogue item and of an optimizer's proposal only the fields are kept that the builder reads. A
-- share that is typed in comes as its Math.round, or as none if it is not finite.
-- Ingestion models requestMarketIngestion of src/lib/backend/ingestion-requests.ts. The rows are those of
-- one serializable transaction; the outcome of each attempt, which the database decides, is a list that
-- is a parameter. The lookup of the instrument and the listing of requests are left out.
-- Ledger.Support models isSupportedPortfolioAsset of src/lib/backend/portfolio.ts.
-- Repository models rebuildPortfolioPositions, latestFxSnapshot, portfolioAndAsset,
-- validateSourceSignalExecution and the creation, change and deletion of a transaction of
-- src/lib/backend/portfolio-repository.ts: State the rows of the tables, Rebuild and Operations the
-- code of the changes; Keys, Mirror, Steps, Laws, RoundTrip, Tenancy and Signals the proofs. Each
-- operation is a function from the rows to the rows or an error, since it runs in one database transaction. A date is its ISO
-- text and is taken as already normalised; a decimal column keeps the number that is written; a
-- findFirst without an order takes the first of the list; the ids and the time are parameters. The
-- search of the portfolio, of the asset and of the transaction to change or delete, which the code makes
-- just before that transaction, is made on the same rows. What a foreign key promises is an error of its
-- own (asset_missing), and a unique source signal is a check before the row is added
-- (signal_used_twice). The response that is loaded afterwards is a function of its own: Bars and Load
-- model loadPortfolioResponse, with the two queries of price bars as a parameter, and
-- preferActiveDatasetBars of src/lib/backend/market-repository.ts. Ledger.Quantities and Quantities are
-- proofs about it.
-- Response models buildPortfolioResponse and calculateRiskMetrics of src/lib/backend/portfolio.ts with
-- their statistics. toFixed, toLocaleString and the access of an array at a computed number are a
-- parameter (Runtime); a square is a product.
-- Runs models src/lib/backend/quant-runs.ts: Legs resolvePortfolioLegs, Answer quantRunToResponse,
-- loadRunWithClient and listPortfolioQuantRuns, Create createPortfolioQuantRun, Cancel
-- cancelPortfolioQuantRun. normalizeBacktestSubmission, normalizeExecutableRule and
-- hashResolvedPortfolioRun are parameters (Outside), and so is what a worker does to the rows between the
-- statements of a cancellation. Rows, Covering, Fitting, Eligible, Reuse and Stopped are the proofs. JSON columns are texts that are passed on; rows come in the order of
-- their list where a query names none; a descending order puts null first, as PostgreSQL does.
--
-- What is abstract. A number of the source is an element of a type with the interface Number: the
-- operations that the code uses, with no laws but those that a theorem names. Whole numbers are an
-- instance, which the tests run. localeCompare is a parameter, a comparison of texts; where its laws
-- matter they are the hypothesis IsComparison. The order of < and of sort on texts is by code points,
-- which agrees with the order by UTF-16 units on codes, symbols and ISO dates. trim removes the white
-- space of ECMAScript; toUpperCase is that of ASCII and of the two other letters with an ASCII capital.
-- A Date is its number of milliseconds since 1970, so theorems on dates ask for one some days later.
-- A Map, and an object whose keys are symbols, is a list of entries in insertion order, and a thrown
-- error is a value of an error type.
--
-- Bounds. weekday_fuel, three rounds, is enough for the loop back to a weekday, since at most two days
-- in a row are none; the loop of expectedFptDailyBarOpen has the ten rounds of the source, and never
-- needs them all. The retry loop of Ingestion has the five attempts of the source. The remainder counter
-- of the equal division stops at zero, where the source counts on below zero: both give no further unit.
--
-- Not modelled: the user interface, the database but for the rows that the modelled code reads and writes,
-- the HTTP service of the quant engine,
-- and the texts of the errors.
pub mod Base
pub mod Access
pub mod Allocation
pub mod Builder
pub mod Freshness
pub mod Fx
pub mod Ingestion
pub mod Ledger
pub mod Performance
pub mod Preview
pub mod Repository
pub mod RequestCache
pub mod Response
pub mod Runs
