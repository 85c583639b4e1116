-- ===== src/Base/Sort.antt =====
-- `[...xs].sort(compare)`: a stable sort, for a comparison that may read any state. The result of a
-- stable sort by a consistent comparison does not depend on the algorithm; this one inserts.
use Prim.Native.Nat.{suc}
use native.Mathlib.Omega.{arith}
use mathlib.Core.Path.{◌≡◌, refl, sym, ap, subst, ◌∙◌}
use mathlib.Core.Logic.{inl, inr}
use mathlib.Core.Bool.{Bool, true, false}
use mathlib.Core.List.{List, [], ◌∷◌, map, Perm, Memᴰ}
use mathlib.Core.Option.{some, some-injective}
use mathlib.Core.List.Perm
use radar_asset.Base.Tests.{if◌then◌else◌, Bool-cases}
use radar_asset.Base.Lists.{All, length, get_elem?, All-of-Memᴰ}

module _ {ℓ} {A : Type ℓ} where
  -- `after x y`: `compare(x, y) > 0`, so `x` goes behind `y`.
  unfoldable pub insert : (A → A → Bool) → A → List A → List A
  insert after x [] = x ∷ []
  insert after x (y ∷ ys) =
      let rest = insert after x ys in if after x y then y ∷ rest else x ∷ y ∷ ys

  unfoldable pub sort : (A → A → Bool) → List A → List A
  unfolding insert
  sort after [] = []
  sort after (x ∷ xs) = insert after x (sort after xs)

  -- Every element stands behind none that follows it.
  abbrev pub IsSorted : (A → A → Bool) → List A → Type 0
  IsSorted after [] = Unit
  IsSorted after (x ∷ xs) = All (λ y. after x y ≡ false) xs × IsSorted after xs

  module _ (after : A → A → Bool) where
    pub insert-perm : (x : A) (xs : List A) → Perm (insert after x xs) (x ∷ xs)
    unfolding insert
    insert-perm x [] = Perm.refl (x ∷ [])
    insert-perm x (y ∷ ys) = elim (Bool-cases (after x y)) [
      | inl e ↦ rw e (Perm.trans (Perm.cons y (insert-perm x ys)) (Perm.swap x y ys))
      | inr e ↦ rw e (Perm.refl (x ∷ y ∷ ys))
    ]

    pub sort-perm : (xs : List A) → Perm (sort after xs) xs
    unfolding sort
    sort-perm [] = Perm.refl []
    sort-perm (x ∷ xs) = Perm.trans (insert-perm x (sort after xs)) (Perm.cons x (sort-perm xs))

    pub All-insert {κ} :
        (P : A → Type κ) (x : A) (xs : List A) → P x → All P xs → All P (insert after x xs)
    unfolding insert
    All-insert P x [] p h = (p, tt)
    All-insert P x (y ∷ ys) p (q, h) = elim (Bool-cases (after x y)) [
      | inl e ↦ rw e (q, All-insert P x ys p h)
      | inr e ↦ rw e (p, (q, h))
    ]

    pub All-sort {κ} : (P : A → Type κ) (xs : List A) → All P xs → All P (sort after xs)
    unfolding sort
    All-sort P [] h = tt
    All-sort P (x ∷ xs) (p, h) = All-insert P x (sort after xs) p (All-sort P xs h)

    length-insert : (x : A) (xs : List A) → length (insert after x xs) ≡ suc (length xs)
    unfolding insert
    length-insert x [] = refl
    length-insert x (y ∷ ys) = ground (arith, length-insert x ys)

    pub length-sort : (xs : List A) → length (sort after xs) ≡ length xs
    unfolding sort
    length-sort [] = refl
    length-sort (x ∷ xs) = length-insert x (sort after xs) ∙ ap suc (length-sort xs)

    insert-All {κ} :
        (P : A → Type κ) (x : A) (xs : List A) → All P (insert after x xs) → P x × All P xs
    unfolding insert
    insert-All P x [] (p, h) = (p, tt)
    insert-All P x (y ∷ ys) h = elim (Bool-cases (after x y)) [
      | inl e ↦ let (q, k) = rw e at h in let (p, l) = insert-All P x ys k in (p, (q, l))
      | inr e ↦ rw e at h
    ]

    pub sort-All {κ} : (P : A → Type κ) (xs : List A) → All P (sort after xs) → All P xs
    unfolding sort
    sort-All P [] h = tt
    sort-All P (x ∷ xs) h = let (p, k) = insert-All P x (sort after xs) h in (p, sort-All P xs k)

    -- A consistent comparison: not both ways round, and `≤` is transitive.
    pub record IsConsistent : Type ℓ where
      pub one_way : (x y : A) → after x y ≡ true → after y x ≡ false
      pub le_trans : (x y z : A) → after x y ≡ false → after y z ≡ false → after x z ≡ false

    module _ (laws : IsConsistent) where
      behind-All :
          (x y : A) (ys : List A)
          → after x y ≡ false
          → All (λ z. after y z ≡ false) ys
          → All (λ z. after x z ≡ false) ys
      behind-All x y [] e h = tt
      behind-All x y (z ∷ zs) e (f, h) = (laws.le_trans x y z e f, behind-All x y zs e h)

      pub insert-IsSorted :
          (x : A) (xs : List A) → IsSorted after xs → IsSorted after (insert after x xs)
      unfolding insert
      insert-IsSorted x [] h = (tt, tt)
      insert-IsSorted x (y ∷ ys) (h, k) = elim (Bool-cases (after x y)) [
        | inl e ↦ rw e (
          All-insert (λ z. after y z ≡ false) x ys (laws.one_way x y e) h,
          insert-IsSorted x ys k,
        )
        | inr e ↦ rw e ((e, behind-All x y ys e h), (h, k))
      ]

      pub sort-IsSorted : (xs : List A) → IsSorted after (sort after xs)
      unfolding sort
      sort-IsSorted [] = tt
      sort-IsSorted (x ∷ xs) = insert-IsSorted x (sort after xs) (sort-IsSorted xs)

module _ {ℓ} {A : Type ℓ} (after : A → A → Bool) where
  not_behind_itself : IsConsistent after → (x : A) → after x x ≡ false
  not_behind_itself laws x = elim (Bool-cases (after x x)) [
    | inl e ↦ laws.one_way x x e
    | inr e ↦ e
  ]

  first_of_sorted :
      (x : A) (xs ys : List A)
      → IsConsistent after
      → sort after xs ≡ x ∷ ys
      → Memᴰ x xs × All (λ y. after x y ≡ false) xs
  first_of_sorted x xs ys laws e =
      let own = All-sort after (λ a. Memᴰ a xs) xs (All-of-Memᴰ (λ a. Memᴰ a xs) xs (λ a m. m)) in
      let sorted = sort-IsSorted after laws xs in
      (
        (subst (All (λ a. Memᴰ a xs)) e own).0,
        sort-All after (λ y. after x y ≡ false) xs
            (subst (All (λ y. after x y ≡ false)) (sym e)
              (not_behind_itself laws x, (subst (IsSorted after) e sorted).0)),
      )

  -- The first of a sorted list is one of its elements, and stands behind none of them.
  pub first-sort :
      (xs : List A) {x : A}
      → IsConsistent after
      → get_elem? (sort after xs) 0 ≡ some x
      → Memᴰ x xs × All (λ y. after x y ≡ false) xs
  first-sort xs {x} laws e = first_of (sort after xs) refl e
    where
      first_of :
          (zs : List A)
          → sort after xs ≡ zs
          → get_elem? zs 0 ≡ some x
          → Memᴰ x xs × All (λ y. after x y ≡ false) xs
      first_of [] s e = cc
      first_of (z ∷ zs) s e =
          first_of_sorted x xs zs laws (s ∙ ap (λ a. a ∷ zs) (some-injective _ _ e))

module _ {ℓ κ} {A : Type ℓ} {B : Type κ} (after : B → B → Bool) (key : A → B) where
  map-insert :
      (x : A) (xs : List A)
      → map key (insert (λ a b. after (key a) (key b)) x xs) ≡ insert after (key x) (map key xs)
  unfolding insert
  map-insert x [] = refl
  map-insert x (y ∷ ys) = elim (Bool-cases (after (key x) (key y))) [
    | inl e ↦ rw e (ap (λ l. key y ∷ l) (map-insert x ys))
    | inr e ↦ rw e refl
  ]

  -- Sorting by a key sorts the keys.
  pub map-sort :
      (xs : List A) → map key (sort (λ a b. after (key a) (key b)) xs) ≡ sort after (map key xs)
  unfolding sort
  map-sort [] = refl
  map-sort (x ∷ xs) =
      map-insert x (sort (λ a b. after (key a) (key b)) xs)
      ∙ ap (insert after (key x)) (map-sort xs)
