-- ===== src/Repository/Mirror.antt =====
-- The stored positions of a portfolio, and the replay of its stored transactions.
use Prim.Native.String.{String}
use mathlib.Core.List.{append-nil}
use text.Mathlib.TextEquality.{eq_iff}
use text.Mathlib.TextPositions.{eq_refl}
use radar_asset.Base.{
  ◌≡◌, sym, ap, ap₂, ◌∙◌, subst, ◌≢◌, true, false, not, List, ◌++◌, map, ok, >>=-eq-ok, ok_inj,
  keep, keep-append, keep-none, keep_whole, keep-keep, keep-apart, All-map, All-intro, arith,
}
use radar_asset.Base.Equality.{eq_false}
use radar_asset.Base.Number.{Number}
use radar_asset.Ledger.{Position, ReplayResult, Sign}
use radar_asset.Repository.State.{PositionRow, Database}
use radar_asset.Repository.Rebuild.{
  of_portfolio, rows_of, replay_rows, to_position_row, is_position_of, replace_positions,
  rebuild_portfolio_positions,
}

module _ {ℓ} {N : Type ℓ} ⦃num : Number N⦄ where
  abbrev pub positions_of : String → List (PositionRow N) → List (PositionRow N)
  positions_of portfolio_id rows = keep (is_position_of portfolio_id) rows

  -- The stored positions of the portfolio are those of the replay of its transactions, which returns.
  pub record IsMirrored (compare : String → String → Sign) (portfolio_id : String) (db : Database N)
      : Type ℓ where
    pub ledger : ReplayResult N
    pub replayed : replay_rows compare db.assets (rows_of portfolio_id db.transactions) ≡ ok ledger
    pub stored :
        positions_of portfolio_id db.positions ≡ map (to_position_row portfolio_id) ledger.positions

  pub own_positions :
      (portfolio_id : String) (ps : List (Position N)) (rows : List (PositionRow N))
      → positions_of portfolio_id (replace_positions portfolio_id ps rows)
        ≡ map (to_position_row portfolio_id) ps
  unfolding replace_positions
  own_positions portfolio_id ps rows =
      let own = is_position_of portfolio_id in
      keep-append own (keep (λ p. not (own p)) rows) (map (to_position_row portfolio_id) ps)
      ∙ ap₂ (λ a b. a ++ b) (keep-apart (λ p. not (own p)) own rows (λ x h. ground arith))
          (keep_whole own (map (to_position_row portfolio_id) ps) (
            All-map (λ x. own x ≡ true) (to_position_row portfolio_id) ps
              (λ x. eq_refl portfolio_id)))

  pub other_positions :
      (portfolio_id other : String) (ps : List (Position N)) (rows : List (PositionRow N))
      → portfolio_id ≢ other
      → positions_of other (replace_positions portfolio_id ps rows) ≡ positions_of other rows
  unfolding replace_positions
  other_positions portfolio_id other ps rows apart =
      let own = is_position_of portfolio_id in
      let theirs = is_position_of other in
      keep-append theirs (keep (λ p. not (own p)) rows) (map (to_position_row portfolio_id) ps)
      ∙ (ap₂ (λ a b. a ++ b)
            (keep-keep (λ p. not (own p)) theirs rows
              (All-intro (λ x. theirs x ≡ true → not (own x) ≡ true) rows
                (λ x h. ap not (
                  eq_false x.portfolio_id portfolio_id
                    (λ e. apart (sym e ∙ (eq_iff x.portfolio_id other).0 h))))))
            (keep-none theirs (map (to_position_row portfolio_id) ps) (
              All-map (λ x. theirs x ≡ false) (to_position_row portfolio_id) ps
                (λ x. eq_false portfolio_id other apart)))
          ∙ append-nil (positions_of other rows))

  -- What a rebuild that returns has done.
  pub record IsRebuilt (compare : String → String → Sign) (portfolio_id : String)
      (db out : Database N) : Type ℓ where
    pub ledger : ReplayResult N
    pub replayed : replay_rows compare db.assets (rows_of portfolio_id db.transactions) ≡ ok ledger
    pub result :
        out ≡ record db { positions = replace_positions portfolio_id ledger.positions db.positions }

  pub rebuild_portfolio_positions-IsRebuilt :
      (compare : String → String → Sign) (portfolio_id : String) (db : Database N)
      {out : Database N}
      → rebuild_portfolio_positions compare portfolio_id db ≡ ok out
      → IsRebuilt compare portfolio_id db out
  unfolding rebuild_portfolio_positions
  rebuild_portfolio_positions-IsRebuilt compare portfolio_id db e =
      let (ledger, replayed, same) =
        >>=-eq-ok (replay_rows compare db.assets (rows_of portfolio_id db.transactions)) _ e in
      record { ledger = ledger; replayed = replayed; result = sym (ok_inj same) }

  pub IsRebuilt-IsMirrored :
      (compare : String → String → Sign) (portfolio_id : String) (db : Database N)
      {out : Database N}
      → IsRebuilt compare portfolio_id db out
      → IsMirrored compare portfolio_id out
  IsRebuilt-IsMirrored compare portfolio_id db r =
      subst (IsMirrored compare portfolio_id) (sym r.result) (record {
        ledger = r.ledger;
        replayed = r.replayed;
        stored = own_positions portfolio_id r.ledger.positions db.positions;
      })

  pub IsRebuilt-others :
      (compare : String → String → Sign) (portfolio_id other : String) (db : Database N)
      {out : Database N}
      → IsRebuilt compare portfolio_id db out
      → portfolio_id ≢ other
      → positions_of other out.positions ≡ positions_of other db.positions
  IsRebuilt-others compare portfolio_id other db r apart =
      ap (λ (x : Database N). positions_of other x.positions) r.result
      ∙ other_positions portfolio_id other r.ledger.positions db.positions apart

  -- A portfolio stays mirrored where neither its transactions nor its positions have changed.
  pub unchanged-IsMirrored :
      (compare : String → String → Sign) (portfolio_id : String) (db out : Database N)
      → out.assets ≡ db.assets
      → keep (of_portfolio portfolio_id) out.transactions
        ≡ keep (of_portfolio portfolio_id) db.transactions
      → positions_of portfolio_id out.positions ≡ positions_of portfolio_id db.positions
      → IsMirrored compare portfolio_id db
      → IsMirrored compare portfolio_id out
  unfolding rows_of
  unchanged-IsMirrored compare portfolio_id db out assets rows positions m = record {
    ledger = m.ledger;
    replayed = rw (assets, rows) m.replayed;
    stored = positions ∙ m.stored;
  }
