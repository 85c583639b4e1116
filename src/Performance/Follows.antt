-- ===== src/Performance/Follows.antt =====
-- The ledger that the performance keeps day by day follows the replay of the whole ledger.
use Prim.Native.String.{String}
use mathlib.Core.List.{append_assoc}
use radar_asset.Base.{
  ◌≡◌, refl, sym, ap, ap₂, ◌∙◌, inl, inr, false, Option, none, some, List, [], ◌∷◌, ◌++◌,
  Bool-cases, Result, ok, err, >>=-eq-ok, ok_inj, arith,
}
use radar_asset.Base.Assoc.{Dict, get, put, remove}
use radar_asset.Base.Number.{Number}
use radar_asset.Ledger.{
  TransactionType, buy, sell, LedgerError, Position, LedgerAsset, Transaction, ReplayState, opened,
  bought, sold, dispatch, apply_portfolio_transaction, enrich, store_position, replay_step,
  replay_loop,
}
use radar_asset.Ledger.Steps.{replay_step-Round, Round-positions}
use radar_asset.Performance.State.{Trading}
use radar_asset.Performance.Trading.{labelled, book, trade_step, trade_loop, is_due}

module _ {ℓ} {N : Type ℓ} where
  -- A position without its currency, which the performance does not fill in.
  abbrev pub plain : Position N → Position N
  plain p = record p { currency = none }

  abbrev plain_option : Option (Position N) → Option (Position N)
  plain_option none = none
  plain_option (some p) = some (plain p)

  abbrev plain_result : Result LedgerError (Position N) → Result LedgerError (Position N)
  plain_result (err e) = err e
  plain_result (ok p) = ok (plain p)

  unfoldable pub plain_all : Dict (Position N) → Dict (Position N)
  plain_all [] = []
  plain_all ((k, p) ∷ m) = (k, plain p) ∷ plain_all m

  get-plain_all :
      (k : String) (m : Dict (Position N)) → get k (plain_all m) ≡ plain_option (get k m)
  unfolding get plain_all
  get-plain_all k [] = refl
  get-plain_all k ((j, p) ∷ m) = ground (arith, get-plain_all k m)

  plain_all-put :
      (k : String) (p : Position N) (m : Dict (Position N))
      → plain_all (put k p m) ≡ put k (plain p) (plain_all m)
  unfolding put plain_all
  plain_all-put k p [] = refl
  plain_all-put k p ((j, q) ∷ m) = ground (arith, plain_all-put k p m)

  plain_all-remove :
      (k : String) (m : Dict (Position N)) → plain_all (remove k m) ≡ remove k (plain_all m)
  unfolding remove plain_all
  plain_all-remove k [] = refl
  plain_all-remove k ((j, q) ∷ m) = ground (arith, plain_all-remove k m)

  returned :
      (x : Result LedgerError (Position N)) {q : Position N}
      → plain_result x ≡ ok q
      → (p : Position N) × (x ≡ ok p) × (plain p ≡ q)
  returned (err e) h = cc
  returned (ok p) h = (p, refl, ok_inj h)

module _ {ℓ} {N : Type ℓ} ⦃num : Number N⦄ where
  plain_all-store_position :
      (p : Position N) (t : Transaction N) (m : Dict (Position N))
      → plain_all (store_position p t m) ≡ store_position (plain p) t (plain_all m)
  unfolding store_position
  plain_all-store_position p t m =
      ground (arith, plain_all-put t.asset_id p m, plain_all-remove t.asset_id m)

  dispatch-plain :
      (kind : TransactionType) (current : Option (Position N)) (t : Transaction N)
      → dispatch kind (plain_option current) t ≡ plain_result (dispatch kind current t)
  unfolding opened bought sold
  dispatch-plain buy none t = refl
  dispatch-plain sell none t = refl
  dispatch-plain buy (some p) t = refl
  dispatch-plain sell (some p) t = elim (Bool-cases (num.lt p.quantity t.quantity)) [
    | inl e ↦ rw e refl
    | inr e ↦ rw e refl
  ]

  apply-plain :
      (current : Option (Position N)) (t : Transaction N)
      → apply_portfolio_transaction (plain_option current) t
        ≡ plain_result (apply_portfolio_transaction current t)
  unfolding apply_portfolio_transaction
  apply-plain current t = dispatch-plain t.kind current t

  apply_alike :
      (c d : Option (Position N)) (t : Transaction N) {p : Position N}
      → plain_option c ≡ plain_option d
      → apply_portfolio_transaction c t ≡ ok p
      → (q : Position N) × (apply_portfolio_transaction d t ≡ ok q) × (plain q ≡ plain p)
  apply_alike c d t {p} same e = returned (apply_portfolio_transaction d t) (
      sym (apply-plain d t)
      ∙ (ap (λ x. apply_portfolio_transaction x t) (sym same)
          ∙ (apply-plain c t ∙ ap plain_result e)))

  plain-labelled :
      (asset : LedgerAsset N) (p q : Position N)
      → plain q ≡ plain p
      → plain (enrich asset p) ≡ plain (labelled asset q)
  unfolding enrich labelled
  plain-labelled asset p q h = ap (λ x. plain (labelled asset x)) (sym h)

  book_positions :
      (p : Position N) (t : Transaction N) (q : Trading N)
      → (book p t q).positions ≡ store_position p t q.positions
  unfolding book
  book_positions p t q = refl

  pub trade_step-alike :
      (assets : Dict (LedgerAsset N)) (s : ReplayState N) (q : Trading N) (t : Transaction N)
      {out : ReplayState N}
      → plain_all s.positions ≡ plain_all q.positions
      → replay_step assets s t ≡ ok out
      → (next : Trading N) × (trade_step assets q t ≡ ok next)
        × (plain_all out.positions ≡ plain_all next.positions)
  unfolding trade_step
  trade_step-alike assets s q t {out} same e =
      let r = replay_step-Round assets s t e in
      let (p, applied, alike) =
        apply_alike (get t.asset_id s.positions) (get t.asset_id q.positions) t
          (sym (get-plain_all t.asset_id s.positions)
            ∙ (ap (get t.asset_id) same ∙ get-plain_all t.asset_id q.positions))
          r.applied in
      (
        book (labelled r.asset p) t q,
        rw (r.known, applied) refl,
        ap plain_all (Round-positions r)
            ∙ (plain_all-store_position (enrich r.asset r.next) t s.positions
                ∙ (ap₂ (λ x m. store_position x t m) (plain-labelled r.asset r.next p alike) same
                    ∙ (sym (plain_all-store_position (labelled r.asset p) t q.positions)
                        ∙ ap plain_all (sym (book_positions (labelled r.asset p) t q))))),
      )

  -- What the performance has traded, `executed`, is a first part of the ledger, and its positions are
  -- those of the replay after that part, up to their currency.
  pub record IsFollowing (assets : Dict (LedgerAsset N)) (start : ReplayState N)
      (ledger : List (Transaction N)) (q : Trading N) (upcoming : List (Transaction N))
      : Type ℓ where
    pub executed : List (Transaction N)
    pub reached : ReplayState N
    pub split : executed ++ upcoming ≡ ledger
    pub replayed : replay_loop assets start executed ≡ ok reached
    pub same_positions : plain_all reached.positions ≡ plain_all q.positions

  replay_loop-append :
      (assets : Dict (LedgerAsset N)) (s : ReplayState N) (xs ys : List (Transaction N))
      {mid : ReplayState N}
      → replay_loop assets s xs ≡ ok mid
      → replay_loop assets s (xs ++ ys) ≡ replay_loop assets mid ys
  unfolding replay_loop
  replay_loop-append assets s [] ys h = ap (λ m. replay_loop assets m ys) (ok_inj h)
  replay_loop-append assets s (x ∷ xs) ys h =
      let (next, stepped, rest) = >>=-eq-ok (replay_step assets s x) _ h in
      rw stepped (replay_loop-append assets next xs ys rest)

  replay_loop-head :
      (assets : Dict (LedgerAsset N)) (s : ReplayState N) (t : Transaction N)
      (ts : List (Transaction N)) {out : ReplayState N}
      → replay_loop assets s (t ∷ ts) ≡ ok out
      → (next : ReplayState N) × (replay_step assets s t ≡ ok next)
  unfolding replay_loop
  replay_loop-head assets s t ts h =
      let (next, stepped, rest) = >>=-eq-ok (replay_step assets s t) _ h in (next, stepped)

  replay_loop-snoc :
      (assets : Dict (LedgerAsset N)) (s : ReplayState N) (xs : List (Transaction N))
      (t : Transaction N) {mid next : ReplayState N}
      → replay_loop assets s xs ≡ ok mid
      → replay_step assets mid t ≡ ok next
      → replay_loop assets s (xs ++ t ∷ []) ≡ ok next
  unfolding replay_loop
  replay_loop-snoc assets s xs t {mid} h e = replay_loop-append assets s xs (t ∷ []) h ∙ rw e refl

  pub trade_step-IsFollowing :
      (assets : Dict (LedgerAsset N)) (start : ReplayState N) (ledger : List (Transaction N))
      (q : Trading N) (t : Transaction N) (ts : List (Transaction N)) {out : ReplayState N}
      → replay_loop assets start ledger ≡ ok out
      → IsFollowing assets start ledger q (t ∷ ts)
      → (next : Trading N) × (trade_step assets q t ≡ ok next)
        × IsFollowing assets start ledger next ts
  trade_step-IsFollowing assets start ledger q t ts whole f =
      let (after, stepped) = replay_loop-head assets f.reached t ts (
        sym (replay_loop-append assets start f.executed (t ∷ ts) f.replayed)
        ∙ (ap (replay_loop assets start) f.split ∙ whole)) in
      let (next, traded, alike) = trade_step-alike assets f.reached q t f.same_positions stepped in
      (
        next,
        traded,
        record {
          executed = f.executed ++ t ∷ [];
          reached = after;
          split = append_assoc f.executed (t ∷ []) ts ∙ f.split;
          replayed = replay_loop-snoc assets start f.executed t f.replayed stepped;
          same_positions = alike;
        },
      )

  -- The next transaction, if there is one, is dated after the day.
  abbrev pub IsWaiting : String → List (Transaction N) → Type 0
  IsWaiting key [] = Unit
  IsWaiting key (t ∷ ts) = is_due key t ≡ false

  pub trade_loop-IsFollowing :
      (assets : Dict (LedgerAsset N)) (start : ReplayState N) (ledger : List (Transaction N))
      (key : String) (q : Trading N) (ts : List (Transaction N)) {out : ReplayState N}
      → replay_loop assets start ledger ≡ ok out
      → IsFollowing assets start ledger q ts
      → (next : Trading N) × (rest : List (Transaction N)) × (trade_loop assets key q ts
          ≡ ok (next, rest))
        × IsFollowing assets start ledger next rest
        × IsWaiting key rest
  unfolding trade_loop
  trade_loop-IsFollowing assets start ledger key q [] whole f = (q, [], refl, f, tt)
  trade_loop-IsFollowing assets start ledger key q (t ∷ ts) whole f =
      elim (Bool-cases (is_due key t)) [
        | inr later ↦ (q, t ∷ ts, rw later refl, f, later)
        | inl due ↦
            let (mid, traded, g) = trade_step-IsFollowing assets start ledger q t ts whole f in
            let (next, rest, looped, h, w) =
              trade_loop-IsFollowing assets start ledger key mid ts whole g in
            (next, rest, rw (due, traded) looped, h, w)
      ]
