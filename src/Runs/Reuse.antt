-- ===== src/Runs/Reuse.antt =====
-- A submission that is made again is answered with the run that it made.
use Prim.Native.String.{String}
use mathlib.Core.List.{Memᴰ}
use text.Mathlib.TextPositions.{eq_refl}
use radar_asset.Base.{
  ℕ, suc, ◌≡◌, refl, sym, ap₂, ◌∙◌, subst, ◌≢◌, true, false, Option, none, some, List, [], ◌∷◌,
  ◌++◌, map, length, ok, >>=-eq-ok, ok_inj, find, find-append, keep, keep-append, any, get_elem?,
  All-of-Memᴰ, arith,
}
use radar_asset.Base.Sort.{length-sort}
use radar_asset.Base.Number.{Number}
use radar_asset.Access.{TenantContext}
use radar_asset.Base.Equality.{eq_false}
use radar_asset.Runs.State.{
  Submission, ResolvedLeg, RunRow, RunStore, RunResponse, RunMoment, Outside,
}
use radar_asset.Runs.Legs.{resolve_portfolio_legs}
use radar_asset.Runs.Answer.{quant_run_to_response, is_run, load_run}
use radar_asset.Runs.Create.{
  portfolio_engine_version, is_reusable, find_cached, new_run, new_run_leg, reuse_or_queue,
  create_portfolio_quant_run,
}

nothing_first {ℓ} : {A : Type ℓ} (xs : List A) → get_elem? xs 0 ≡ none → length xs ≡ 0
nothing_first [] e = refl
nothing_first (x ∷ xs) e = cc

impossible : (n : ℕ) → suc n ≡ 0 → ⊥
impossible n h = omega (arith, h)

nothing {ℓ} : {A : Type ℓ} (xs : List A) → length xs ≡ 0 → xs ≡ []
nothing [] e = refl
nothing (x ∷ xs) e = elim (impossible (length xs) e) [ ]

module _ {ℓ} {N : Type ℓ} where
  -- No run has the id.
  abbrev pub IsNewId : String → List (RunRow N) → Type ℓ
  IsNewId id runs = (run : RunRow N) → Memᴰ run runs → run.id ≢ id

  find_cached-append :
      (organization_id hash : String) (runs : List (RunRow N)) (run : RunRow N)
      → find_cached organization_id hash runs ≡ none
      → is_reusable organization_id hash run ≡ true
      → find_cached organization_id hash (runs ++ run ∷ []) ≡ some run
  unfolding find_cached
  find_cached-append organization_id hash runs run missed y =
      let p = is_reusable organization_id hash in
      let empty =
        nothing (keep p runs) (sym (length-sort _ (keep p runs)) ∙ nothing_first _ missed) in
      rw (keep-append p runs (run ∷ []), empty, y) refl

  find-is_run :
      (organization_id : String) (runs : List (RunRow N)) (run : RunRow N)
      → IsNewId run.id runs
      → run.organization_id ≡ organization_id
      → find (is_run organization_id run.id) (runs ++ run ∷ []) ≡ some run
  unfolding find
  find-is_run organization_id runs run fresh own =
      find-append (is_run organization_id run.id) runs (run ∷ []) (
        All-of-Memᴰ (λ x. is_run organization_id run.id x ≡ false) runs
          (λ x m. rw (eq_false x.id run.id (fresh x m)) refl))
      ∙ rw (eq_refl run.id, own, eq_refl organization_id) refl

  load_run-found :
      (organization_id id : String) (db : RunStore N) (run : RunRow N)
      → find (is_run organization_id id) db.runs ≡ some run
      → load_run organization_id id db ≡ quant_run_to_response organization_id db run
  unfolding load_run
  load_run-found organization_id id db run e = rw e refl

  -- What the second of two requests finds.
  abbrev IsRepeated :
      TenantContext
      → RunMoment
      → Submission N
      → List (ResolvedLeg N)
      → String
      → RunStore N
      → RunStore N × RunResponse N
      → Type ℓ
  IsRepeated context later input legs hash db p =
      (reuse_or_queue context later input legs hash
          (find_cached context.organization_id hash p.0.runs) p.0
        ≡ ok p)
      × (p.0.strategies ≡ db.strategies)
      × (p.0.assets ≡ db.assets)

  new_run-reusable :
      (context : TenantContext) (moment : RunMoment) (input : Submission N)
      (legs : List (ResolvedLeg N)) (hash : String)
      → is_reusable context.organization_id hash (new_run context moment input legs hash) ≡ true
  unfolding new_run any
  new_run-reusable context moment input legs hash =
      rw (eq_refl context.organization_id, eq_refl hash) refl

  reuse_or_queue-IsRepeated :
      (context : TenantContext) (moment later : RunMoment) (input : Submission N)
      (legs : List (ResolvedLeg N)) (hash : String) (db : RunStore N)
      {p : RunStore N × RunResponse N}
      → IsNewId moment.run_id db.runs
      → (cached : Option (RunRow N)) → find_cached context.organization_id hash db.runs ≡ cached
      → reuse_or_queue context moment input legs hash cached db ≡ ok p
      → IsRepeated context later input legs hash db p
  unfolding new_run
  reuse_or_queue-IsRepeated context moment later input legs hash db fresh (some cached) found e =
      let (response, q, same) =
        >>=-eq-ok (quant_run_to_response context.organization_id db cached) _ e in
      subst (IsRepeated context later input legs hash db) (ok_inj same)
        (rw (found, q) refl, refl, refl)
  reuse_or_queue-IsRepeated context moment later input legs hash db fresh none found e =
      let org = context.organization_id in
      let run = new_run context moment input legs hash in
      let out = record db {
        runs = db.runs ++ run ∷ [];
        legs = db.legs ++ map (new_run_leg moment) legs;
      } in
      let (response, q, same) = >>=-eq-ok (load_run org moment.run_id out) _ e in
      let loaded =
        load_run-found org moment.run_id out run (find-is_run org db.runs run fresh refl) in
      let reused =
        find_cached-append org hash db.runs run found
          (new_run-reusable context moment input legs hash) in
      subst (IsRepeated context later input legs hash db) (ok_inj same)
        (rw (reused, sym loaded ∙ q) refl, refl, refl)

module _ {ℓ} {N : Type ℓ} ⦃num : Number N⦄ (outside : Outside N) where
  create-resolved :
      (context : TenantContext) (moment : RunMoment) (submission : Submission N) (db : RunStore N)
      {input : Submission N} {legs : List (ResolvedLeg N)}
      → outside.normalize_submission submission ≡ ok input
      → resolve_portfolio_legs outside.normalize_rule input context db.strategies db.assets
        ≡ ok legs
      → create_portfolio_quant_run outside context moment submission db
        ≡ reuse_or_queue context moment input legs
            (outside.run_hash input legs portfolio_engine_version)
            (find_cached context.organization_id
              (outside.run_hash input legs portfolio_engine_version)
              db.runs)
            db
  unfolding create_portfolio_quant_run
  create-resolved context moment submission db n l = rw (n, l) refl

  created_from :
      (context : TenantContext) (moment : RunMoment) (submission : Submission N) (db : RunStore N)
      {p : RunStore N × RunResponse N}
      → create_portfolio_quant_run outside context moment submission db ≡ ok p
      → (input : Submission N) × (legs : List (ResolvedLeg N)) × (outside.normalize_submission
            submission
          ≡ ok input)
        × (resolve_portfolio_legs outside.normalize_rule input context db.strategies db.assets
            ≡ ok legs)
        × (reuse_or_queue context moment input legs
              (outside.run_hash input legs portfolio_engine_version)
              (find_cached context.organization_id
                (outside.run_hash input legs portfolio_engine_version)
                db.runs)
              db
            ≡ ok p)
  unfolding create_portfolio_quant_run
  created_from context moment submission db e =
      let (input, n, e1) = >>=-eq-ok (outside.normalize_submission submission) _ e in
      let (legs, l, e2) =
        >>=-eq-ok
          (resolve_portfolio_legs outside.normalize_rule input context db.strategies db.assets) _
          e1 in
      (input, legs, n, l, e2)

  -- After a submission that returns, for which the database gives its run an id that no run has, the same
  -- submission by the same organisation and user, at any later time and with no other request between,
  -- returns the same response and changes nothing: no second run is created.
  pub create_portfolio_quant_run-idempotent :
      (context : TenantContext) (moment later : RunMoment) (submission : Submission N)
      (db : RunStore N) {out : RunStore N} {response : RunResponse N}
      → IsNewId moment.run_id db.runs
      → create_portfolio_quant_run outside context moment submission db ≡ ok (out, response)
      → create_portfolio_quant_run outside context later submission out ≡ ok (out, response)
  create_portfolio_quant_run-idempotent context moment later submission db {out} {response} fresh
        e =
      let (input, legs, n, l, e2) = created_from context moment submission db e in
      let hash = outside.run_hash input legs portfolio_engine_version in
      let (again, strategies, assets) =
        reuse_or_queue-IsRepeated context moment later input legs hash db fresh
          (find_cached context.organization_id hash db.runs) refl e2 in
      let resolved = resolve_portfolio_legs outside.normalize_rule input context in
      create-resolved context later submission out n (ap₂ resolved strategies assets ∙ l) ∙ again
