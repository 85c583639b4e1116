-- ===== src/Base/Assoc.antt =====
-- `Map` with text keys: the entries in the order of insertion. `set` on a key that is there keeps its
-- place; a key that was deleted comes back at the end.
use Prim.Native.String.{String}
use mathlib.Core.Path.{◌≡◌, refl}
use mathlib.Core.Logic.{inl, inr}
use mathlib.Core.Bool.{true, false}
use mathlib.Core.Option.{Option, none, some}
use mathlib.Core.List.{List, [], ◌∷◌}
use native.Mathlib.Omega.{arith}
use text.Mathlib.Text.{◌==◌}
use text.Mathlib.TextEquality.{eq_iff}
use radar_asset.Base.Tests.{if◌then◌else◌, Bool-cases}
use radar_asset.Base.Lists.{All}

abbrev pub Dict {ℓ} : Type ℓ → Type ℓ
Dict V = List (String × V)

module _ {ℓ} {V : Type ℓ} where
  unfoldable pub get : String → Dict V → Option V
  get k [] = none
  get k ((j, v) ∷ m) = if j == k then some v else get k m

  unfoldable pub put : String → V → Dict V → Dict V
  put k v [] = (k, v) ∷ []
  put k v ((j, w) ∷ m) = if j == k then (j, v) ∷ m else (j, w) ∷ put k v m

  unfoldable pub remove : String → Dict V → Dict V
  remove k [] = []
  remove k ((j, w) ∷ m) = if j == k then m else (j, w) ∷ remove k m

  unfoldable pub values : Dict V → List V
  values [] = []
  values ((j, v) ∷ m) = v ∷ values m

  unfoldable pub keys : Dict V → List String
  keys [] = []
  keys ((j, v) ∷ m) = j ∷ keys m

  -- No key stands twice.
  abbrev pub IsAbsent : String → Dict V → Type 0
  IsAbsent k m = All (λ e. (e.0 == k) ≡ false) m

  abbrev pub HasDistinctKeys : Dict V → Type 0
  HasDistinctKeys [] = Unit
  HasDistinctKeys ((j, v) ∷ m) = IsAbsent j m × HasDistinctKeys m

  pub get-put :
      (k j : String) (v : V) (m : Dict V) → get j (put k v m) ≡ (if k == j then some v else get j m)
  unfolding get put
  get-put k j v [] = refl
  get-put k j v ((i, w) ∷ m) = ground (arith, eq_iff k j, eq_iff i k, eq_iff i j, get-put k j v m)

  pub get-IsAbsent : (k : String) (m : Dict V) → IsAbsent k m → get k m ≡ none
  unfolding get
  get-IsAbsent k [] h = refl
  get-IsAbsent k ((j, w) ∷ m) (e, h) = rw e (get-IsAbsent k m h)

  IsAbsent-of_eq : (j k : String) (m : Dict V) → (j == k) ≡ true → IsAbsent j m → IsAbsent k m
  IsAbsent-of_eq j k m e h = rw (← (eq_iff j k).0 e) h

  pub get-remove :
      (k j : String) (m : Dict V)
      → HasDistinctKeys m
      → get j (remove k m) ≡ (if k == j then none else get j m)
  unfolding get remove
  get-remove k j [] h = ground arith
  get-remove k j ((i, w) ∷ m) (n, h) = ground (
    arith,
    eq_iff k j,
    eq_iff i k,
    eq_iff i j,
    get-remove k j m h,
    get-IsAbsent j m,
    IsAbsent-of_eq i j m,
  )

  put-IsAbsent :
      (k j : String) (v : V) (m : Dict V) → (k == j) ≡ false → IsAbsent j m → IsAbsent j (put k v m)
  unfolding put
  put-IsAbsent k j v [] e h = (e, tt)
  put-IsAbsent k j v ((i, w) ∷ m) e (n, h) = ground (arith, put-IsAbsent k j v m e h)

  remove-IsAbsent : (k j : String) (m : Dict V) → IsAbsent j m → IsAbsent j (remove k m)
  unfolding remove
  remove-IsAbsent k j [] h = tt
  remove-IsAbsent k j ((i, w) ∷ m) (n, h) = ground (arith, remove-IsAbsent k j m h)

  pub put-HasDistinctKeys :
      (k : String) (v : V) (m : Dict V) → HasDistinctKeys m → HasDistinctKeys (put k v m)
  unfolding put
  put-HasDistinctKeys k v [] h = (tt, tt)
  put-HasDistinctKeys k v ((i, w) ∷ m) (n, h) = elim (Bool-cases (i == k)) [
    | inl e ↦ rw e (n, h)
    | inr e ↦ rw e (
      put-IsAbsent k i v m (ground (arith, eq_iff i k, eq_iff k i)) n,
      put-HasDistinctKeys k v m h,
    )
  ]

  pub remove-HasDistinctKeys :
      (k : String) (m : Dict V) → HasDistinctKeys m → HasDistinctKeys (remove k m)
  unfolding remove
  remove-HasDistinctKeys k [] h = tt
  remove-HasDistinctKeys k ((i, w) ∷ m) (n, h) = elim (Bool-cases (i == k)) [
    | inl e ↦ rw e h
    | inr e ↦ rw e (remove-IsAbsent k i m n, remove-HasDistinctKeys k m h)
  ]

  -- What holds of every entry.
  pub put-All {κ} :
      (P : String × V → Type κ) (k : String) (v : V) (m : Dict V)
      → ((j : String) → j ≡ k → P (j, v))
      → All P m
      → All P (put k v m)
  unfolding put
  put-All P k v [] p h = (p k refl, tt)
  put-All P k v ((i, w) ∷ m) p (q, h) = elim (Bool-cases (i == k)) [
    | inl e ↦ rw e (p i ((eq_iff i k).0 e), h)
    | inr e ↦ rw e (q, put-All P k v m p h)
  ]

  pub remove-All {κ} :
      (P : String × V → Type κ) (k : String) (m : Dict V) → All P m → All P (remove k m)
  unfolding remove
  remove-All P k [] h = tt
  remove-All P k ((i, w) ∷ m) (q, h) = elim (Bool-cases (i == k)) [
    | inl e ↦ rw e h
    | inr e ↦ rw e (q, remove-All P k m h)
  ]
