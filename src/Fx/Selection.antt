-- ===== src/Fx/Selection.antt =====
-- What `select_rate_on_or_before` selects, and when it throws.
use Prim.Native.String.{String}
use mathlib.Core.List.{Memᴰ, reverse_aux}
use text.Mathlib.TextEquality.{eq_iff}
use radar_asset.Base.{
  ◌≡◌, refl, sym, subst, ◌⊎◌, inl, inr, ◌↔◌, true, false, Option, none, some, List, [], ◌∷◌,
  if◌then◌else◌, ok, err, arith, Bool-cases, All, ok_inj, err_inj, Result-cases, >>=-eq-ok,
  All-reverse_aux, Memᴰ-reverse_aux,
}
use radar_asset.Base.Text.{text_lt, text_lt_irrefl, text_lt_trans}
use radar_asset.Base.Number.{Number}
use radar_asset.Fx.{
  FxError, invalid_observation, FxRatePoint, ResolvedFxRate, is_usable, replaces, select_step,
  select_loop, resolved, select_rate_on_or_before,
}

not_lt_of_lt : (a b c : String) → text_lt a b ≡ true → text_lt a c ≡ false → text_lt b c ≡ false
not_lt_of_lt a b c h k = elim (Bool-cases (text_lt b c)) [
  | inl e ↦ cc (text_lt_trans a b c h e)
  | inr e ↦ e
]

module _ {ℓ} {N : Type ℓ} ⦃num : Number N⦄ where
  -- Dated on or before the day that is asked for.
  abbrev pub IsEligible : String → FxRatePoint N → Type 0
  IsEligible requested p = text_lt requested p.effective_date ≡ false

  -- No later than the chosen one, and from Vietcombank on the same day only if the chosen one is.
  pub record IsNoBetter (best p : FxRatePoint N) : Type 0 where
    pub no_later : text_lt best.effective_date p.effective_date ≡ false
    pub vietcombank_wins :
        p.effective_date ≡ best.effective_date
        → p.source ≡ "vietcombank"
        → best.source ≡ "vietcombank"

  pub data IsSelected (requested : String) (seen : List (FxRatePoint N))
      : Option (FxRatePoint N) → Type ℓ where
    nothing :
        All (λ p. text_lt requested p.effective_date ≡ true) seen → IsSelected requested seen none
    latest :
        (best : FxRatePoint N)
        → Memᴰ best seen
        → IsEligible requested best
        → is_usable best.rate ≡ true
        → All (λ p. (text_lt requested p.effective_date ≡ true) ⊎ IsNoBetter best p) seen
        → IsSelected requested seen (some best)

  -- What an observation that takes the place of `best` inherits from it.
  IsNoBetter-of_replaces :
      (best p q : FxRatePoint N)
      → replaces (some best) p ≡ true
      → IsNoBetter best q
      → IsNoBetter p q
  unfolding replaces
  IsNoBetter-of_replaces best p q h k =
      elim (Bool-cases (text_lt best.effective_date p.effective_date)) [
        | inl newer ↦ record {
          no_later =
              not_lt_of_lt best.effective_date p.effective_date q.effective_date newer k.no_later;
          vietcombank_wins = λ same _. absurd (clash newer same);
        }
        | inr old ↦ record {
          no_later = ground (arith, eq_iff p.effective_date best.effective_date);
          vietcombank_wins = λ _ _. ground (arith, eq_iff p.source "vietcombank");
        }
      ]
    where
      clash :
          text_lt best.effective_date p.effective_date ≡ true
          → q.effective_date ≡ p.effective_date
          → ⊥
      clash newer same = cc (rw (← same) at newer, k.no_later)

  IsNoBetter-of_kept : (best p : FxRatePoint N) → replaces (some best) p ≡ false → IsNoBetter best p
  unfolding replaces
  IsNoBetter-of_kept best p h = record {
    no_later = ground arith;
    vietcombank_wins = λ same viet. ground (
      arith,
      eq_iff p.effective_date best.effective_date,
      eq_iff p.source "vietcombank",
      eq_iff best.source "vietcombank",
    );
  }

  IsNoBetter-self : (p : FxRatePoint N) → IsNoBetter p p
  IsNoBetter-self p = record {
    no_later = text_lt_irrefl p.effective_date;
    vietcombank_wins = λ _ h. h;
  }

  weaken :
      (requested : String) (best p : FxRatePoint N) (qs : List (FxRatePoint N))
      → replaces (some best) p ≡ true
      → All (λ q. (text_lt requested q.effective_date ≡ true) ⊎ IsNoBetter best q) qs
      → All (λ q. (text_lt requested q.effective_date ≡ true) ⊎ IsNoBetter p q) qs
  weaken requested best p [] h k = tt
  weaken requested best p (q ∷ qs) h (inl e, k) = (inl e, weaken requested best p qs h k)
  weaken requested best p (q ∷ qs) h (inr e, k) =
      (inr (IsNoBetter-of_replaces best p q h e), weaken requested best p qs h k)

  All-later :
      (requested : String) (p : FxRatePoint N) (qs : List (FxRatePoint N))
      → All (λ q. text_lt requested q.effective_date ≡ true) qs
      → All (λ q. (text_lt requested q.effective_date ≡ true) ⊎ IsNoBetter p q) qs
  All-later requested p [] h = tt
  All-later requested p (q ∷ qs) (e, h) = (inl e, All-later requested p qs h)

  -- What one round keeps, with the observation of the round put before the ones seen.
  select_step-IsSelected :
      (requested : String) (seen : List (FxRatePoint N)) (p : FxRatePoint N)
      {sel next : Option (FxRatePoint N)}
      → IsSelected requested seen sel
      → select_step requested sel p ≡ ok next
      → IsSelected requested (p ∷ seen) next
  unfolding select_step
  select_step-IsSelected requested seen p {sel} {next} s e =
      elim (Bool-cases (text_lt requested p.effective_date)) [
        | inl later ↦
            subst (IsSelected requested (p ∷ seen)) (ok_inj (rw later at e)) (skipped later s)
        | inr eligible ↦ elim (Bool-cases (is_usable p.rate)) [
          | inr bad ↦ cc (rw (eligible, bad) at e)
          | inl usable ↦
              subst (IsSelected requested (p ∷ seen)) (ok_inj (rw (eligible, usable) at e))
                (taken eligible usable s)
        ]
      ]
    where
      skipped :
          {o : Option (FxRatePoint N)}
          → text_lt requested p.effective_date ≡ true
          → IsSelected requested seen o
          → IsSelected requested (p ∷ seen) o
      skipped later (nothing h) = nothing (later, h)
      skipped later (latest best m el u h) = latest best (Memᴰ.tail m) el u (inl later, h)

      taken :
          {o : Option (FxRatePoint N)}
          → text_lt requested p.effective_date ≡ false
          → is_usable p.rate ≡ true
          → IsSelected requested seen o
          → IsSelected requested (p ∷ seen) (if replaces o p then some p else o)
      taken eligible usable (nothing h) =
          latest p (Memᴰ.head refl) eligible usable
            (inr (IsNoBetter-self p), All-later requested p seen h)
      taken eligible usable (latest best m el u h) = elim (Bool-cases (replaces (some best) p)) [
        | inl y ↦ rw y (
            latest p (Memᴰ.head refl) eligible usable
              (inr (IsNoBetter-self p), weaken requested best p seen y h))
        | inr n ↦ rw n (latest best (Memᴰ.tail m) el u (inr (IsNoBetter-of_kept best p n), h))
      ]

  select_loop-IsSelected :
      (requested : String) (seen rest : List (FxRatePoint N)) {sel out : Option (FxRatePoint N)}
      → IsSelected requested seen sel
      → select_loop requested sel rest ≡ ok out
      → IsSelected requested (reverse_aux rest seen) out
  unfolding select_loop
  select_loop-IsSelected requested seen [] {sel} {out} s e =
      subst (IsSelected requested seen) (ok_inj e) s
  select_loop-IsSelected requested seen (p ∷ ps) {sel} s e =
      let (next, here, later) = >>=-eq-ok (select_step requested sel p) _ e in
      select_loop-IsSelected requested (p ∷ seen) ps
        (select_step-IsSelected requested seen p s here) later

  in_order :
      (requested : String) (rates : List (FxRatePoint N)) {out : Option (FxRatePoint N)}
      → IsSelected requested (reverse_aux rates []) out
      → IsSelected requested rates out
  in_order requested rates (nothing h) = nothing (All-reverse_aux _ rates [] h).0
  in_order requested rates (latest best m el u h) = elim (Memᴰ-reverse_aux rates [] m) [
    | inl k ↦ latest best k el u (All-reverse_aux _ rates [] h).0
    | inr k ↦ elim k [ ]
  ]

  -- Where the selection returns, the result is the emergency fallback and no observation is dated on or before
  -- the requested day; or it is an observation of the list, usable and not after that day, such that
  -- no other eligible one has a later date, and one of the same date is from Vietcombank only if the
  -- result is.
  pub select_rate_on_or_before-IsSelected :
      (rates : List (FxRatePoint N)) (requested : String) {r : ResolvedFxRate N}
      → select_rate_on_or_before rates requested ≡ ok r
      → (o : Option (FxRatePoint N)) × (r ≡ resolved o) × IsSelected requested rates o
  unfolding select_rate_on_or_before
  select_rate_on_or_before-IsSelected rates requested e =
      let (o, looped, same) = >>=-eq-ok (select_loop requested none rates) _ e in
      (
        o,
        sym (ok_inj same),
        in_order requested rates (select_loop-IsSelected requested [] rates (nothing tt) looped),
      )

  -- An observation that makes the loop throw.
  abbrev pub IsInvalid : String → FxRatePoint N → Type 0
  IsInvalid requested p = (text_lt requested p.effective_date ≡ false) × (is_usable p.rate ≡ false)

  select_step-throws :
      (requested : String) (sel : Option (FxRatePoint N)) (p : FxRatePoint N)
      → IsInvalid requested p
      → select_step requested sel p ≡ err invalid_observation
  unfolding select_step
  select_step-throws requested sel p (eligible, bad) = rw (eligible, bad)

  select_step_cases :
      (requested : String) (sel : Option (FxRatePoint N)) (p : FxRatePoint N)
      → ((next : Option (FxRatePoint N)) × (select_step requested sel p ≡ ok next))
        ⊎ IsInvalid requested p
  unfolding select_step
  select_step_cases requested sel p = elim (Bool-cases (text_lt requested p.effective_date)) [
    | inl later ↦ inl (sel, rw later)
    | inr eligible ↦ elim (Bool-cases (is_usable p.rate)) [
      | inl usable ↦ inl (if replaces sel p then some p else sel, rw (eligible, usable))
      | inr bad ↦ inr (eligible, bad)
    ]
  ]

  select_loop-throws :
      (requested : String) (sel : Option (FxRatePoint N)) (rates : List (FxRatePoint N))
      (p : FxRatePoint N)
      → Memᴰ p rates
      → IsInvalid requested p
      → select_loop requested sel rates ≡ err invalid_observation
  unfolding select_loop
  select_loop-throws requested sel [] p m bad = elim m [ ]
  select_loop-throws requested sel (q ∷ qs) p (Memᴰ.head e) bad =
      rw (select_step-throws requested sel q (subst (IsInvalid requested) e bad))
  select_loop-throws requested sel (q ∷ qs) p (Memᴰ.tail m) bad =
      elim (select_step_cases requested sel q) [
        | inl (next, e) ↦ rw e (select_loop-throws requested next qs p m bad)
        | inr here ↦ rw (select_step-throws requested sel q here)
      ]

  select_loop-blames :
      (requested : String) (sel : Option (FxRatePoint N)) (rates : List (FxRatePoint N))
      {x : FxError}
      → select_loop requested sel rates ≡ err x
      → (x ≡ invalid_observation) × ((p : FxRatePoint N) × Memᴰ p rates × IsInvalid requested p)
  unfolding select_loop
  select_loop-blames requested sel [] e = cc
  select_loop-blames requested sel (q ∷ qs) {x} e = elim (select_step_cases requested sel q) [
    | inl (next, stepped) ↦
        let (same, (p, m, bad)) =
          select_loop-blames requested next qs (rw (stepped, select_loop) at e) in
        (same, (p, Memᴰ.tail m, bad))
    | inr bad ↦
        (sym (err_inj (rw (select_step-throws requested sel q bad) at e)), (q, Memᴰ.head refl, bad))
  ]

  -- The selection of a rate throws exactly when an observation dated on or before the requested day has
  -- a rate that is not finite or not positive.
  pub select_rate_on_or_before-throws_iff :
      (rates : List (FxRatePoint N)) (requested : String)
      → ((x : FxError) × (select_rate_on_or_before rates requested ≡ err x))
        ↔ ((p : FxRatePoint N) × Memᴰ p rates × IsInvalid requested p)
  unfolding select_rate_on_or_before
  select_rate_on_or_before-throws_iff rates requested = (
    λ (x, e). elim (Result-cases (select_loop requested none rates)) [
      | inl (o, looped) ↦ cc (rw looped at e)
      | inr (y, looped) ↦ (select_loop-blames requested none rates looped).1
    ],
    λ (p, m, bad). (invalid_observation, rw (select_loop-throws requested none rates p m bad)),
  )
