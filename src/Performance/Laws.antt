-- ===== src/Performance/Laws.antt =====
-- The loop over the days, and the result of the performance.
use Prim.Native.String.{String}
use radar_asset.Base.{
  ℕ, zero, suc, ◌≡◌, refl, sym, ap, ◌∙◌, ◌-◌, ◌≤◌, subst, inl, inr, ◌||◌, Bool, false, Option, none,
  some, List, [], ◌∷◌, Bool-cases, leb, ok, >>=-eq-ok, ok_inj, last?, length, or_default,
  length-map, length-drop, arith,
}
use radar_asset.Base.Assoc.{Dict, get}
use radar_asset.Base.Int.{pos_part}
use radar_asset.Base.Number.{Number}
use radar_asset.Ledger.{
  Sign, LedgerAsset, Transaction, ReplayState, ReplayResult, replay_start, replay_loop, asset_map,
  in_ledger_order, replay_portfolio_ledger,
}
use radar_asset.Ledger.Replay.{replay_portfolio_ledger-IsReplayed}
use radar_asset.Performance.State.{
  HistoricalBar, Performance, PerformancePoint, PerformanceInput, Trading, Valuation, DayState,
}
use radar_asset.Performance.Bars.{note_prices, bars_by_date, performance_dates, slice_last}
use radar_asset.Performance.Value.{value_day}
use radar_asset.Performance.Report.{empty_benchmark, rebase, reported}
use radar_asset.Performance.Build.{day_step, day_loop, start_of_days, build_portfolio_performance}
use radar_asset.Performance.Follows.{plain_all, IsFollowing, IsWaiting, trade_loop-IsFollowing}

left-false : (a b : Bool) → (a || b) ≡ false → a ≡ false
left-false a b h = ground arith

module _ {ℓ} {N : Type ℓ} ⦃num : Number N⦄ where
  value_day-positions :
      (label : String → String) (benchmark_id : Option String) (key : String) (prices : Dict N)
      (q : Trading N) (v : Valuation N)
      → (value_day label benchmark_id key prices q v).0.positions ≡ q.positions
  unfolding value_day
  value_day-positions label benchmark_id key prices q v = ground arith

  pub day_step-IsFollowing :
      (label : String → String) (benchmark_id : Option String) (assets : Dict (LedgerAsset N))
      (by_date : Dict (List (HistoricalBar N))) (start : ReplayState N)
      (ledger : List (Transaction N)) (s : DayState N) (key : String) {out : ReplayState N}
      → replay_loop assets start ledger ≡ ok out
      → IsFollowing assets start ledger s.trading s.upcoming
      → (next : DayState N) × (day_step label benchmark_id assets by_date s key ≡ ok next)
        × IsFollowing assets start ledger next.trading next.upcoming
        × IsWaiting key next.upcoming
  unfolding day_step
  day_step-IsFollowing label benchmark_id assets by_date start ledger s key whole f =
      let (q, rest, looped, g, w) =
        trade_loop-IsFollowing assets start ledger key s.trading s.upcoming whole f in
      let prices = note_prices (or_default (get key by_date) []) s.latest_prices in
      let valued = value_day label benchmark_id key prices q s.valuation in
      (
        record {
          trading = valued.0;
          valuation = valued.1;
          latest_prices = prices;
          upcoming = rest;
        },
        rw looped refl,
        record {
          executed = g.executed;
          reached = g.reached;
          split = g.split;
          replayed = g.replayed;
          same_positions =
              g.same_positions
              ∙ ap plain_all
                  (sym (value_day-positions label benchmark_id key prices q s.valuation));
        },
        w,
      )

  pub day_loop-IsFollowing :
      (label : String → String) (benchmark_id : Option String) (assets : Dict (LedgerAsset N))
      (by_date : Dict (List (HistoricalBar N))) (start : ReplayState N)
      (ledger : List (Transaction N)) (s : DayState N) (dates : List String) {out : ReplayState N}
      → replay_loop assets start ledger ≡ ok out
      → IsFollowing assets start ledger s.trading s.upcoming
      → (final : DayState N) × (day_loop label benchmark_id assets by_date s dates ≡ ok final)
        × IsFollowing assets start ledger final.trading final.upcoming
        × ((key : String) → last? dates ≡ some key → IsWaiting key final.upcoming)
  unfolding day_loop
  day_loop-IsFollowing label benchmark_id assets by_date start ledger s [] whole f =
      (s, refl, f, λ key h. cc)
  day_loop-IsFollowing label benchmark_id assets by_date start ledger s (d ∷ []) whole f =
      let (next, stepped, g, w) =
        day_step-IsFollowing label benchmark_id assets by_date start ledger s d whole f in
      (next, rw stepped refl, g, λ key h. subst (λ k. IsWaiting k next.upcoming) (cc h) w)
  day_loop-IsFollowing label benchmark_id assets by_date start ledger s (d ∷ e ∷ dates) whole f =
      let (next, stepped, g, w) =
        day_step-IsFollowing label benchmark_id assets by_date start ledger s d whole f in
      let (final, looped, h, k) =
        day_loop-IsFollowing label benchmark_id assets by_date start ledger next (e ∷ dates) whole
          g in
      (final, rw stepped looped, h, k)

  -- `IsWaiting` after the last of some days, if there is one.
  abbrev pub IsStopped : Option String → List (Transaction N) → Type 0
  IsStopped none upcoming = Unit
  IsStopped (some key) upcoming = IsWaiting key upcoming

  stopped :
      (last : Option String) (upcoming : List (Transaction N))
      → ((key : String) → last ≡ some key → IsWaiting key upcoming)
      → IsStopped last upcoming
  stopped none upcoming h = tt
  stopped (some key) upcoming h = h key refl

  -- Of a ledger that the replay accepts, from its start: the loop over any list of days returns. The
  -- positions that it ends with are, up to their currency, those of the replay of a first part of the
  -- ledger, and the next transaction, if there is one, is dated after the last day.
  pub day_loop-follows :
      (label : String → String) (benchmark_id : Option String) (assets : Dict (LedgerAsset N))
      (by_date : Dict (List (HistoricalBar N))) (ledger : List (Transaction N))
      (dates : List String) {out : ReplayState N}
      → replay_loop assets replay_start ledger ≡ ok out
      → (final : DayState N) × (day_loop label benchmark_id assets by_date
            (start_of_days ledger)
            dates
          ≡ ok final)
        × IsFollowing assets replay_start ledger final.trading final.upcoming
        × IsStopped (last? dates) final.upcoming
  unfolding replay_loop
  day_loop-follows label benchmark_id assets by_date ledger dates whole =
      let (final, looped, f, waits) =
        day_loop-IsFollowing label benchmark_id assets by_date replay_start ledger
          (start_of_days ledger) dates whole
          (record {
            executed = [];
            reached = replay_start;
            split = refl;
            replayed = refl;
            same_positions = refl;
          }) in
      (final, looped, f, stopped (last? dates) final.upcoming waits)

  -- The performance is available for every ledger that the replay accepts, whatever the bars: the
  -- errors of the loop are not reached.
  pub build_portfolio_performance-available :
      (compare : String → String → Sign) (label : String → String) (input : PerformanceInput N)
      {r : ReplayResult N}
      → replay_portfolio_ledger compare input.assets input.transactions ≡ ok r
      → (p : Performance N) × (build_portfolio_performance compare label input ≡ ok p)
  unfolding build_portfolio_performance
  build_portfolio_performance-available compare label input e =
      let d = replay_portfolio_ledger-IsReplayed compare input.assets input.transactions e in
      let by_date = bars_by_date [] input.bars in
      let dates = performance_dates input.transactions by_date in
      let (final, looped, f, w) =
        day_loop-follows label input.benchmark_asset_id (asset_map [] input.assets) by_date
          (in_ledger_order compare input.transactions) dates d.looped in
      elim (Bool-cases (leb (pos_part input.limit) 0 || leb (length dates) 0)) [
        | inl none_there ↦
            (record { performance = []; benchmark = empty_benchmark }, rw none_there refl)
        | inr there ↦ (reported (pos_part input.limit) final, rw (there, looped) refl)
      ]

  length-rebase : (l : List (PerformancePoint N)) → length (rebase l) ≡ length l
  unfolding rebase
  length-rebase [] = refl
  length-rebase (p ∷ ps) = length-map _ (p ∷ ps)

  reported_bounded :
      (limit : ℕ) (s : DayState N)
      → leb limit 0 ≡ false
      → length (reported limit s).performance ≤ limit
  unfolding reported slice_last
  reported_bounded zero s positive = cc
  reported_bounded (suc n) s positive =
      let points = s.valuation.points in
      omega (
        arith,
        length-rebase (slice_last (suc n) points),
        length-drop (length points - suc n) points,
      )

  -- A performance has at most `limit` points, and none where the limit is zero or negative.
  pub build_portfolio_performance-bounded :
      (compare : String → String → Sign) (label : String → String) (input : PerformanceInput N)
      {p : Performance N}
      → build_portfolio_performance compare label input ≡ ok p
      → length p.performance ≤ pos_part input.limit
  unfolding build_portfolio_performance
  build_portfolio_performance-bounded compare label input e =
      let by_date = bars_by_date [] input.bars in
      let dates = performance_dates input.transactions by_date in
      let limit = pos_part input.limit in
      elim (Bool-cases (leb limit 0 || leb (length dates) 0)) [
        | inl none_there ↦
            subst (λ (x : Performance N). length x.performance ≤ limit)
              (ok_inj (rw none_there at e)) (omega arith)
        | inr there ↦
            let (s, looped, same) =
              >>=-eq-ok
                (day_loop label input.benchmark_asset_id (asset_map [] input.assets) by_date
                  (start_of_days (in_ledger_order compare input.transactions)) dates)
                (λ s. ok (reported limit s)) (rw there at e) in
            subst (λ (x : Performance N). length x.performance ≤ limit) (ok_inj same)
              (reported_bounded limit s (left-false (leb limit 0) (leb (length dates) 0) there))
      ]
