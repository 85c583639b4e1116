-- ===== src/Ledger/Totals.antt =====
-- The totals and the transaction list of a replay.
use Prim.Native.String.{String}
use mathlib.Core.List.{Perm, append_assoc, append-nil, map-append}
use radar_asset.Base.{
  ◌≡◌, refl, sym, ap, ◌∙◌, Bool, true, false, List, [], ◌∷◌, ◌++◌, map, keep, if◌then◌else◌, ok,
  >>=-eq-ok, ok_inj,
}
use radar_asset.Base.Sort.{sort-perm, IsSorted, sort-IsSorted}
use radar_asset.Base.Assoc.{Dict}
use radar_asset.Base.Number.{Number, of_ℕ}
use radar_asset.Ledger.{
  TransactionType, buy, sell, Sign, is_positive, compare_ledger_transactions, LedgerAsset,
  Transaction, ReplayedTransaction, ReplayState, ReplayResult, capital, round, record_transaction,
  replay_start, replay_step, replay_loop, asset_map, in_ledger_order, replay_portfolio_ledger,
}
use radar_asset.Ledger.Order.{IsComparison, compare_ledger_transactions-IsConsistent}
use radar_asset.Ledger.Steps.{Round, replay_step-Round}
use radar_asset.Ledger.Replay.{replay_portfolio_ledger-IsReplayed}

-- `compareLedgerTransactions(left, right) > 0`.
abbrev pub is_after {ℓ} :
    {N : Type ℓ} → (String → String → Sign) → Transaction N → Transaction N → Bool
is_after compare x y = is_positive (compare_ledger_transactions compare x y)

abbrev is_buy : TransactionType → Bool
is_buy buy = true
is_buy sell = false

module _ {ℓ} {N : Type ℓ} ⦃num : Number N⦄ where
  abbrev cost : Transaction N → N
  cost t = num.plus (num.times t.quantity t.price) t.fee

  abbrev sum_from : N → List N → N
  sum_from total [] = total
  sum_from total (x ∷ xs) = sum_from (num.plus total x) xs

  -- What the buys of a ledger cost, added up from the left: their quantity times their price, and the fee.
  abbrev pub buy_capital : N → List (Transaction N) → N
  buy_capital total ts = sum_from total (map cost (keep (λ t. is_buy t.kind) ts))

  buy_capital_step :
      (kind : TransactionType) (t : Transaction N) (total : N) (rest : List (Transaction N))
      → sum_from total (map cost (if is_buy kind then t ∷ rest else rest))
        ≡ sum_from (capital kind t total) (map cost rest)
  buy_capital_step buy t total rest = refl
  buy_capital_step sell t total rest = refl

  abbrev pub sources : List (ReplayedTransaction N) → List (Transaction N)
  sources = map (λ r. r.source)

  Round-sources :
      {assets : Dict (LedgerAsset N)} {s : ReplayState N} {t : Transaction N} {out : ReplayState N}
      → Round assets s t out
      → (sources out.transactions ≡ sources s.transactions ++ t ∷ [])
        × (out.cumulative_buy_capital ≡ capital t.kind t s.cumulative_buy_capital)
  unfolding record_transaction
  Round-sources {s} r = rw r.result (map-append _ s.transactions _, refl)

  replay_loop-sources :
      (assets : Dict (LedgerAsset N)) (s : ReplayState N) (ts : List (Transaction N))
      {out : ReplayState N}
      → replay_loop assets s ts ≡ ok out
      → (sources out.transactions ≡ sources s.transactions ++ ts)
        × (out.cumulative_buy_capital ≡ buy_capital s.cumulative_buy_capital ts)
  unfolding replay_loop keep
  replay_loop-sources assets s [] e = rw (← ok_inj e) (sym (append-nil _), refl)
  replay_loop-sources assets s (t ∷ ts) e =
      let (next, stepped, rest) = >>=-eq-ok (replay_step assets s t) _ e in
      let (here, paid) = Round-sources (replay_step-Round assets s t stepped) in
      let (later, total) = replay_loop-sources assets next ts rest in
      (
        later ∙ (ap (λ l. l ++ ts) here ∙ append_assoc (sources s.transactions) (t ∷ []) ts),
        total
            ∙ (ap (λ c. buy_capital c ts) paid
                ∙ sym (
                    buy_capital_step t.kind t s.cumulative_buy_capital
                      (keep (λ t. is_buy t.kind) ts))),
      )

  -- Where the comparison of texts is a total preorder, a replay that returns lists exactly the given
  -- transactions, none of them behind one that it precedes in the order of the ledger.
  pub replay_portfolio_ledger-order :
      (compare : String → String → Sign) (assets : List (LedgerAsset N)) (ts : List (Transaction N))
      {r : ReplayResult N}
      → IsComparison compare
      → replay_portfolio_ledger compare assets ts ≡ ok r
      → Perm (sources r.transactions) ts × IsSorted (is_after compare) (sources r.transactions)
  unfolding in_ledger_order
  replay_portfolio_ledger-order compare assets ts collates e =
      let d = replay_portfolio_ledger-IsReplayed compare assets ts e in
      let listed =
        ap sources d.transactions
        ∙ (replay_loop-sources (asset_map [] assets) replay_start (in_ledger_order compare ts)
            d.looped).0 in
      rw listed (
        sort-perm _ ts,
        sort-IsSorted _ (compare_ledger_transactions-IsConsistent compare collates) ts,
      )

  -- The capital that a replay that returns reports is the sum, over the buys alone and in the order of the
  -- ledger, of quantity times price and the fee, rounded once at the end to eight digits.
  pub replay_portfolio_ledger-capital :
      (compare : String → String → Sign) (assets : List (LedgerAsset N)) (ts : List (Transaction N))
      {r : ReplayResult N}
      → replay_portfolio_ledger compare assets ts ≡ ok r
      → r.cumulative_buy_capital ≡ round (buy_capital (of_ℕ 0) (in_ledger_order compare ts)) 8
  replay_portfolio_ledger-capital compare assets ts e =
      let d = replay_portfolio_ledger-IsReplayed compare assets ts e in
      d.capital
      ∙ ap (λ c. round c 8)
          (replay_loop-sources (asset_map [] assets) replay_start (in_ledger_order compare ts)
            d.looped).1
