-- ===== src/Runs/Covering.antt =====
-- src/lib/backend/quant-runs.ts, resolvePortfolioLegs: the dataset that a leg is run on.
use Prim.Native.String.{String, ◌++◌}
use mathlib.Core.List.{Memᴰ}
use text.Mathlib.Text.{◌==◌}
use text.Mathlib.TextEquality.{eq_iff}
use radar_asset.Base.{
  ℕ, ◌≤◌, ◌≡◌, refl, subst, ◌⊎◌, inl, inr, Bool, true, false, not, ◌&&◌, &&-eq-true, ◌||◌, Option,
  none, some, List, ok, required, ltb, Bool-cases, >>=-eq-ok, guard-eq-ok, required-eq-ok, ok_inj,
  find, find-true, find-Memᴰ, keep, keep-true, Memᴰ-keep, Memᴰ-of_keep, All-Memᴰ, any-of_Memᴰ,
  arith,
}
use radar_asset.Base.Sort.{IsConsistent, first-sort}
use radar_asset.Base.Text.{text_lt}
use radar_asset.Builder.State.{DividendMode, exclude, adjusted_prices}
use radar_asset.Runs.State.{
  dataset_unavailable, dataset_range_insufficient, dataset_provider_gap,
  dataset_calendar_unverified, Submission, DatasetIssue, DatasetVersion, Dataset, QuantAsset,
}
use radar_asset.Runs.Legs.{
  date_boundary, policy_for, is_relevant, is_eligible_version, newest_version, dataset_of,
  has_issue, eligible_dataset,
}
use radar_asset.Runs.Rows.{neither, not-true}

either-true : (a b : Bool) → (a || b) ≡ true → (a ≡ true) ⊎ (b ≡ true)
either-true a b h = ground arith

or_right : (a b : Bool) → b ≡ true → (a || b) ≡ true
or_right a b h = ground arith

-- A version that is active and whose quality has passed, if only with a warning.
pub record IsUsable (v : DatasetVersion) : Type 0 where
  pub active : v.is_active ≡ true
  pub quality : (v.quality_status ≡ "passed") ⊎ (v.quality_status ≡ "warning")

eligible-IsUsable : (v : DatasetVersion) → is_eligible_version v ≡ true → IsUsable v
eligible-IsUsable v e =
    let good = (v.quality_status == "passed") || (v.quality_status == "warning") in
    let (active, quality) = &&-eq-true v.is_active good e in
    record {
      active = active;
      quality =
          elim (either-true (v.quality_status == "passed") (v.quality_status == "warning")
            quality) [
              | inl p ↦ inl ((eq_iff v.quality_status "passed").0 p)
              | inr w ↦ inr ((eq_iff v.quality_status "warning").0 w)
            ];
    }

IsUsable-eligible : (v : DatasetVersion) → IsUsable v → is_eligible_version v ≡ true
IsUsable-eligible v u = elim u.quality [
  | inl p ↦ rw (u.active, (eq_iff v.quality_status "passed").1 p) refl
  | inr w ↦ rw (u.active, (eq_iff v.quality_status "warning").1 w) (or_right _ true refl)
]

-- A usable version, with no usable version of the dataset above it.
pub record IsNewest (d : Dataset) (v : DatasetVersion) : Type 0 where
  pub stored : Memᴰ v d.versions
  pub usable : IsUsable v
  pub newest : (w : DatasetVersion) → Memᴰ w d.versions → IsUsable w → w.version ≤ v.version

abbrev is_older : DatasetVersion → DatasetVersion → Bool
is_older x y = ltb x.version y.version

not_below : (a b : ℕ) → ltb a b ≡ false → b ≤ a
not_below a b e = ground arith

not_both : (a b : ℕ) → ltb a b ≡ true → ltb b a ≡ false
not_both a b e = ground arith

not_below_trans : (a b c : ℕ) → ltb a b ≡ false → ltb b c ≡ false → ltb a c ≡ false
not_below_trans a b c e f = ground arith

is_older-IsConsistent : IsConsistent is_older
is_older-IsConsistent = record {
  one_way = λ x y. not_both x.version y.version;
  le_trans = λ x y z. not_below_trans x.version y.version z.version;
}

newest_version-IsNewest :
    (d : Dataset) {v : DatasetVersion} → newest_version (some d) ≡ some v → IsNewest d v
unfolding newest_version
newest_version-IsNewest d {v} e =
    let (there, below) =
      first-sort is_older (keep is_eligible_version d.versions) is_older-IsConsistent e in
    record {
      stored = Memᴰ-keep is_eligible_version d.versions there;
      usable = eligible-IsUsable v (keep-true is_eligible_version d.versions there);
      newest = λ w m u. not_below v.version w.version (
          All-Memᴰ (λ y. is_older v y ≡ false) (keep is_eligible_version d.versions) w below
            (Memᴰ-of_keep is_eligible_version d.versions m (IsUsable-eligible w u)));
    }

-- The dataset that the version found is of.
version_of-IsNewest :
    (timeframe policy : String) (datasets : List Dataset) (o : Option Dataset) {v : DatasetVersion}
    → find (λ d. (d.timeframe == timeframe) && (d.adjustment_policy == policy)) datasets ≡ o
    → newest_version o ≡ some v
    → (d : Dataset) × Memᴰ d datasets
      × (d.timeframe ≡ timeframe)
      × (d.adjustment_policy ≡ policy)
      × IsNewest d v
unfolding newest_version
version_of-IsNewest timeframe policy datasets none e n = cc
version_of-IsNewest timeframe policy datasets (some d) e n =
    let p = λ (d : Dataset). (d.timeframe == timeframe) && (d.adjustment_policy == policy) in
    let (same, kept) =
      &&-eq-true (d.timeframe == timeframe) (d.adjustment_policy == policy)
        (find-true p datasets e) in
    (
      d,
      find-Memᴰ p datasets e,
      (eq_iff d.timeframe timeframe).0 same,
      (eq_iff d.adjustment_policy policy).0 kept,
      newest_version-IsNewest d n,
    )

dataset_of-IsNewest :
    (timeframe policy : String) (datasets : List Dataset) {v : DatasetVersion}
    → dataset_of timeframe policy datasets ≡ some v
    → (d : Dataset) × Memᴰ d datasets
      × (d.timeframe ≡ timeframe)
      × (d.adjustment_policy ≡ policy)
      × IsNewest d v
unfolding dataset_of
dataset_of-IsNewest timeframe policy datasets e =
    version_of-IsNewest timeframe policy datasets _ refl e

-- The mode of the dividends with the policy that it asks for.
abbrev pub IsPolicy : DividendMode → String → Type 0
IsPolicy mode policy =
    ((mode ≡ adjusted_prices) × (policy ≡ "total_return")) ⊎ ((mode ≡ exclude) × (policy ≡ "raw"))

policy_for-IsPolicy :
    (mode : DividendMode) (policy : String) → policy ≡ policy_for mode → IsPolicy mode policy
policy_for-IsPolicy adjusted_prices policy e = inl (refl, e)
policy_for-IsPolicy exclude policy e = inr (refl, e)

-- An issue of the two classes that a run may not meet.
abbrev pub IsBarred : DatasetIssue → Type 0
IsBarred i = (i.classification ≡ "PROVIDER_GAP") ⊎ (i.classification ≡ "CALENDAR_RANGE_UNVERIFIED")

-- Whether the range of the issue lies wholly before or wholly after the requested one.
abbrev pub IsOutside : String → String → DatasetIssue → Type 0
IsOutside from to i =
    (text_lt (to ++ "T00:00:00.000Z") i.range_start ≡ true)
    ⊎ (text_lt i.range_end (from ++ "T00:00:00.000Z") ≡ true)

no_issue-IsOutside :
    (classification from to : String) (v : DatasetVersion) (i : DatasetIssue)
    → has_issue classification from to v ≡ false
    → (i.classification == "PROVIDER_GAP") || (i.classification == "CALENDAR_RANGE_UNVERIFIED")
      ≡ true
    → Memᴰ i v.issues
    → i.classification ≡ classification
    → IsOutside from to i
unfolding has_issue
no_issue-IsOutside classification from to v i clear barred m same =
    elim (Bool-cases (text_lt (date_boundary to) i.range_start)) [
      | inl after ↦ inl after
      | inr reaches ↦ elim (Bool-cases (text_lt i.range_end (date_boundary from))) [
        | inl before ↦ inr before
        | inr meets ↦ cc (
          clear,
          any-of_Memᴰ (λ i. i.classification == classification)
              (keep (is_relevant from to) v.issues) i
              (Memᴰ-of_keep (is_relevant from to) v.issues m (rw (reaches, meets, barred) refl))
              ((eq_iff i.classification classification).1 same),
        )
      ]
    ]

module _ {ℓ} {N : Type ℓ} (input : Submission N) where
  -- The dataset of the asset for the timeframe and the prices that the submission asks for, and its
  -- newest usable version, which covers the requested range and has no barred issue in it.
  pub record IsCovering (asset : QuantAsset N) (v : DatasetVersion) : Type 0 where
    pub dataset : Dataset
    pub stored : Memᴰ dataset asset.datasets
    pub same_timeframe : dataset.timeframe ≡ input.timeframe
    pub policy : IsPolicy input.assumptions.dividend_mode dataset.adjustment_policy
    pub newest : IsNewest dataset v
    pub starts : text_lt (input.from ++ "T00:00:00.000Z") v.coverage_start ≡ false
    pub ends : text_lt v.coverage_end (input.to ++ "T00:00:00.000Z") ≡ false
    pub clear : (i : DatasetIssue) → Memᴰ i v.issues → IsBarred i → IsOutside input.from input.to i

  barred-IsOutside :
      (v : DatasetVersion) (i : DatasetIssue)
      → has_issue "CALENDAR_RANGE_UNVERIFIED" input.from input.to v ≡ false
      → has_issue "PROVIDER_GAP" input.from input.to v ≡ false
      → Memᴰ i v.issues
      → IsBarred i
      → IsOutside input.from input.to i
  barred-IsOutside v i certified complete m (inl gap) =
      no_issue-IsOutside "PROVIDER_GAP" input.from input.to v i complete
        (rw ((eq_iff i.classification "PROVIDER_GAP").1 gap) refl) m gap
  barred-IsOutside v i certified complete m (inr unsure) =
      no_issue-IsOutside "CALENDAR_RANGE_UNVERIFIED" input.from input.to v i certified
        (or_right (i.classification == "PROVIDER_GAP") _
          ((eq_iff i.classification "CALENDAR_RANGE_UNVERIFIED").1 unsure))
        m unsure

  pub eligible_dataset-IsCovering :
      (asset : QuantAsset N) {dataset : DatasetVersion}
      → eligible_dataset input asset ≡ ok dataset
      → IsCovering asset dataset
  unfolding eligible_dataset
  eligible_dataset-IsCovering asset e =
      let policy = policy_for input.assumptions.dividend_mode in
      let (dataset, d, e3) =
        >>=-eq-ok (required (dataset_of input.timeframe policy asset.datasets) dataset_unavailable)
          _ e in
      let early = text_lt (date_boundary input.from) dataset.coverage_start in
      let late = text_lt dataset.coverage_end (date_boundary input.to) in
      let (range, e4) = guard-eq-ok (not (early || late)) dataset_range_insufficient _ e3 in
      let calendar = has_issue "CALENDAR_RANGE_UNVERIFIED" input.from input.to dataset in
      let gap = has_issue "PROVIDER_GAP" input.from input.to dataset in
      let (certified, e5) = guard-eq-ok (not calendar) dataset_calendar_unverified _ e4 in
      let (complete, e6) = guard-eq-ok (not gap) dataset_provider_gap _ e5 in
      let (row, there, timeframe, kept, newest) =
        dataset_of-IsNewest input.timeframe policy asset.datasets (
          required-eq-ok (dataset_of input.timeframe policy asset.datasets) dataset_unavailable
            d) in
      subst (IsCovering asset) (ok_inj e6) (record {
        dataset = row;
        stored = there;
        same_timeframe = timeframe;
        policy = policy_for-IsPolicy input.assumptions.dividend_mode row.adjustment_policy kept;
        newest = newest;
        starts = (neither early late range).0;
        ends = (neither early late range).1;
        clear =
            λ i. barred-IsOutside dataset i (not-true calendar certified) (not-true gap complete);
      })
