-- ===== src/Runs/Stopped.antt =====
-- A run that was cancelled is neither queued nor running, whatever the worker did meanwhile.
use Prim.Native.String.{String}
use mathlib.Core.List.{Memᴰ}
use text.Mathlib.Text.{◌==◌}
use text.Mathlib.TextEquality.{eq_iff}
use radar_asset.Base.{
  ℕ, suc, ◌≡◌, refl, sym, ap, ◌∙◌, subst, ◌≢◌, ◌⊎◌, inl, inr, Bool, true, false, ◌&&◌, &&-eq-true,
  List, [], ◌∷◌, map, ltb, Bool-cases, All, ok, required, >>=-eq-ok, required-eq-ok, ok_inj, find,
  find-true, count, arith,
}
use radar_asset.Access.{TenantContext}
use radar_asset.Base.Equality.{eq_apart}
use radar_asset.Base.{find-Memᴰ}
use radar_asset.Runs.State.{run_not_found, RunRow, RunStore, RunResponse}
use radar_asset.Runs.Answer.{is_run, load_run}
use radar_asset.Runs.Cancel.{is_in, request_row, cancel_row, cancel_by, cancel_portfolio_quant_run}

All-map_Memᴰ {ℓ κ μ} :
    {A : Type ℓ} {B : Type κ} (P : B → Type μ) (f : A → B) (xs : List A)
    → ((x : A) → Memᴰ x xs → P (f x))
    → All P (map f xs)
All-map_Memᴰ P f [] h = tt
All-map_Memᴰ P f (x ∷ xs) h = (h x (Memᴰ.head refl), All-map_Memᴰ P f xs (λ y m. h y (Memᴰ.tail m)))

All-map-map {ℓ κ μ ν} :
    {A : Type ℓ} {B : Type κ} {C : Type ν} (P : C → Type μ) (f : B → C) (g : A → B) (xs : List A)
    → ((x : A) → Memᴰ x xs → P (f (g x)))
    → All P (map f (map g xs))
All-map-map P f g [] h = tt
All-map-map P f g (x ∷ xs) h =
    (h x (Memᴰ.head refl), All-map-map P f g xs (λ y m. h y (Memᴰ.tail m)))

count-zero {ℓ} :
    {A : Type ℓ} (p : A → Bool) (xs : List A)
    → All (λ x. p x ≡ false) xs
    → ltb 0 (count p xs) ≡ false
unfolding count
count-zero p [] h = refl
count-zero p (x ∷ xs) (n, h) = rw n (count-zero p xs h)

positive : (n : ℕ) → ltb 0 (suc n) ≡ true
positive n = ground arith

count-positive {ℓ} :
    {A : Type ℓ} (p : A → Bool) (xs : List A) (x : A)
    → Memᴰ x xs
    → p x ≡ true
    → ltb 0 (count p xs) ≡ true
unfolding count
count-positive p (y ∷ xs) x (Memᴰ.head e) h = rw (ap p (sym e) ∙ h) (positive (count p xs))
count-positive p (y ∷ xs) x (Memᴰ.tail m) h = elim (Bool-cases (p y)) [
  | inl t ↦ rw t (positive (count p xs))
  | inr n ↦ rw n (count-positive p xs x m h)
]
count-positive p [] x m h = elim m [ ]

Memᴰ-map {ℓ κ} :
    {A : Type ℓ} {B : Type κ} (f : A → B) (xs : List A) (x : A) → Memᴰ x xs → Memᴰ (f x) (map f xs)
Memᴰ-map f (y ∷ xs) x (Memᴰ.head e) = Memᴰ.head (ap f e)
Memᴰ-map f (y ∷ xs) x (Memᴰ.tail m) = Memᴰ.tail (Memᴰ-map f xs x m)
Memᴰ-map f [] x m = elim m [ ]

-- What a worker may do to a row: it keeps its identity, puts no run back into the queue, and starts none
-- but a queued one.
pub record IsWorker {ℓ} {N : Type ℓ} (step : RunRow N → RunRow N) : Type ℓ where
  pub same_id : (run : RunRow N) → (step run).id ≡ run.id
  pub same_organization : (run : RunRow N) → (step run).organization_id ≡ run.organization_id
  pub queued : (run : RunRow N) → (step run).status ≡ "queued" → run.status ≡ "queued"
  pub running :
      (run : RunRow N)
      → (step run).status ≡ "running"
      → (run.status ≡ "queued") ⊎ (run.status ≡ "running")

module _ {ℓ} {N : Type ℓ} (organization_id id : String) where
  -- If the row is the run, its status is neither of the two.
  abbrev pub IsStopped : RunRow N → Type 0
  IsStopped run =
      is_run organization_id id run ≡ true → (run.status ≢ "queued") × (run.status ≢ "running")

  worker-is_run :
      (step : RunRow N → RunRow N) (run : RunRow N)
      → IsWorker step
      → is_run organization_id id (step run) ≡ is_run organization_id id run
  worker-is_run step run w = rw (w.same_id run, w.same_organization run) refl

  cancel_row-IsStopped :
      (at : ℕ) (run : RunRow N)
      → (is_run organization_id id run ≡ true → run.status ≡ "queued")
      → IsStopped (cancel_row organization_id id at run)
  cancel_row-IsStopped at run e = elim (Bool-cases (is_run organization_id id run)) [
    | inl y ↦
        rw (y, (eq_iff run.status "queued").1 (e y))
          (λ t. (eq_apart "cancelled" "queued" refl, eq_apart "cancelled" "running" refl))
    | inr n ↦ rw n (λ t. cc (n, t))
  ]

  request_row-IsStopped :
      (at : ℕ) (run : RunRow N)
      → (is_run organization_id id run ≡ true → run.status ≢ "queued")
      → IsStopped (request_row organization_id id at run)
  request_row-IsStopped at run apart = elim (Bool-cases (is_run organization_id id run)) [
    | inl y ↦ elim (Bool-cases (run.status == "running")) [
      | inl r ↦
          rw (y, r)
            (λ t. (
              eq_apart "cancel_requested" "queued" refl,
              eq_apart "cancel_requested" "running" refl,
            ))
      | inr n ↦ rw (y, n) (λ t. (apart y, eq_apart run.status "running" n))
    ]
    | inr n ↦ rw n (λ t. cc (n, t))
  ]

  cancel_by-IsStopped :
      (meanwhile later : RunRow N → RunRow N) (at : ℕ) (db : RunStore N) (existing : RunRow N)
      → IsWorker meanwhile
      → IsWorker later
      → Memᴰ existing db.runs
      → is_run organization_id id existing ≡ true
      → ((run : RunRow N)
          → Memᴰ run db.runs
          → is_run organization_id id run ≡ true
          → run ≡ existing)
      → All IsStopped (cancel_by meanwhile later organization_id id at existing.status db).runs
  unfolding cancel_by
  cancel_by-IsStopped meanwhile later at db existing w v there own only =
      let first =
        λ (run : RunRow N) (m : Memᴰ run db.runs)
            (t : is_run organization_id id (meanwhile run) ≡ true).
          only run m (sym (worker-is_run meanwhile run w) ∙ t) in
      elim (Bool-cases (existing.status == "queued")) [
        | inl y ↦ elim (Bool-cases ((meanwhile existing).status == "queued")) [
          | inl q ↦
              let found =
                count-positive (is_in organization_id id "queued") (map meanwhile db.runs)
                  (meanwhile existing) (Memᴰ-map meanwhile db.runs existing there)
                  (rw (worker-is_run meanwhile existing w ∙ own, q) refl) in
              rw (y, found)
                (All-map-map IsStopped (cancel_row organization_id id at) meanwhile db.runs
                  (λ run m. cancel_row-IsStopped at (meanwhile run) (λ t.
                    ap (λ r. (meanwhile r).status) (first run m t)
                    ∙ (eq_iff (meanwhile existing).status "queued").0 q)))
          | inr n ↦
              let missed = count-zero (is_in organization_id id "queued") (map meanwhile db.runs) (
                All-map_Memᴰ (λ r. is_in organization_id id "queued" r ≡ false) meanwhile db.runs
                  (λ run m.
                    both-false (is_run organization_id id (meanwhile run))
                      ((meanwhile run).status == "queued")
                      (λ t.
                        ap (λ (r : RunRow N). (meanwhile r).status == "queued") (first run m t)
                        ∙ n))) in
              rw (y, missed)
                (All-map-map IsStopped (λ r. request_row organization_id id at (later r)) meanwhile
                  db.runs
                  (λ run m. request_row-IsStopped at (later (meanwhile run)) (λ t e.
                    eq_apart (meanwhile existing).status "queued" n (
                      ap (λ (r : RunRow N). (meanwhile r).status)
                        (sym (first run m (sym (worker-is_run later (meanwhile run) v) ∙ t)))
                      ∙ v.queued (meanwhile run) e))))
        ]
        | inr n ↦ elim (Bool-cases (existing.status == "running")) [
          | inl y ↦
              rw (n, y)
                (All-map-map IsStopped (request_row organization_id id at) meanwhile db.runs
                  (λ run m. request_row-IsStopped at (meanwhile run) (λ t e.
                    eq_apart existing.status "queued" n
                      (ap (λ (r : RunRow N). r.status) (sym (first run m t)) ∙ w.queued run e))))
          | inr n' ↦
              rw (n, n')
                (All-map_Memᴰ IsStopped meanwhile db.runs (λ run m t.
                  let same = ap (λ (r : RunRow N). r.status) (sym (first run m t)) in
                  (
                    λ e. eq_apart existing.status "queued" n (same ∙ w.queued run e),
                    λ e. elim (w.running run e) [
                      | inl q ↦ eq_apart existing.status "queued" n (same ∙ q)
                      | inr r ↦ eq_apart existing.status "running" n' (same ∙ r)
                    ],
                  )))
        ]
      ]
    where
      both-false : (a b : Bool) → (a ≡ true → b ≡ false) → (a && b) ≡ false
      both-false true b h = h refl
      both-false false b h = refl

-- Where no two runs have the same id, a worker may change the rows between the reading of the run and the
-- first update, and between the updates: it keeps the identity of a run, puts none back into the queue and
-- starts none but a queued one. Then, if a cancellation returns, the run of the organisation with the id
-- is neither queued nor running.
pub cancel_portfolio_quant_run-IsStopped {ℓ} :
    {N : Type ℓ} (meanwhile later : RunRow N → RunRow N) (context : TenantContext) (at : ℕ)
    (id : String) (db out : RunStore N) (response : RunResponse N)
    → IsWorker meanwhile
    → IsWorker later
    → ((a b : RunRow N) → Memᴰ a db.runs → Memᴰ b db.runs → a.id ≡ b.id → a ≡ b)
    → cancel_portfolio_quant_run meanwhile later context at id db ≡ ok (out, response)
    → All (IsStopped context.organization_id id) out.runs
unfolding cancel_portfolio_quant_run
cancel_portfolio_quant_run-IsStopped {N = N} meanwhile later context at id db out response w v keyed
      e =
    let org = context.organization_id in
    let (existing, f, e1) = >>=-eq-ok (required (find (is_run org id) db.runs) run_not_found) _ e in
    let stopped = cancel_by meanwhile later org id at existing.status db in
    let (answer, l, same) = >>=-eq-ok (load_run org id stopped) _ e1 in
    let there = required-eq-ok (find (is_run org id) db.runs) run_not_found f in
    let own = find-true (is_run org id) db.runs there in
    let id_of = λ (run : RunRow N) (t : is_run org id run ≡ true).
      (eq_iff run.id id).0 (&&-eq-true (run.id == id) (run.organization_id == org) t).0 in
    subst (λ (p : RunStore N × RunResponse N). All (IsStopped org id) p.0.runs) (ok_inj same)
      (cancel_by-IsStopped org id meanwhile later at db existing w v
        (find-Memᴰ (is_run org id) db.runs there) own
        (λ run m t.
          keyed run existing m (find-Memᴰ (is_run org id) db.runs there)
            (id_of run t ∙ sym (id_of existing own))))
