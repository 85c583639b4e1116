-- ===== src/Base/Lists.antt =====
-- Lists measured and indexed by native numbers, list predicates by recursion, and the array
-- methods of the source.
use Prim.Native.Nat.{ℕ, zero, suc, ◌+◌, ◌-◌, min}
use mathlib.Core.Path.{◌≡◌, refl, ap, sym, subst}
use mathlib.Core.Logic.{inl, inr}
use mathlib.Core.Bool.{Bool, true, false, ◌&&◌, ◌||◌}
use mathlib.Core.List.{List, [], ◌∷◌, ◌++◌, map, reverse_aux, Memᴰ}
use mathlib.Core.Option.{Option, none, some, some-injective}
use native.Mathlib.Omega.{arith}
use radar_asset.Base.Tests.{if◌then◌else◌, Bool-cases}

module _ {ℓ} {A : Type ℓ} where
  abbrev pub length : List A → ℕ
  length [] = 0
  length (x ∷ xs) = suc (length xs)

  abbrev pub get_elem? : List A → ℕ → Option A
  get_elem? [] i = none
  get_elem? (x ∷ xs) zero = some x
  get_elem? (x ∷ xs) (suc i) = get_elem? xs i

  abbrev pub take : ℕ → List A → List A
  take zero xs = []
  take (suc n) [] = []
  take (suc n) (x ∷ xs) = x ∷ take n xs

  abbrev pub drop : ℕ → List A → List A
  drop zero xs = xs
  drop (suc n) [] = []
  drop (suc n) (x ∷ xs) = drop n xs

  -- `Array.prototype.some`, `every`, `find` and `filter`, with a Boolean test.
  unfoldable pub any : (A → Bool) → List A → Bool
  any p [] = false
  any p (x ∷ xs) = p x || any p xs

  unfoldable pub all : (A → Bool) → List A → Bool
  all p [] = true
  all p (x ∷ xs) = p x && all p xs

  unfoldable pub find : (A → Bool) → List A → Option A
  find p [] = none
  find p (x ∷ xs) = if p x then some x else find p xs

  unfoldable pub keep : (A → Bool) → List A → List A
  keep p [] = []
  keep p (x ∷ xs) = let rest = keep p xs in if p x then x ∷ rest else rest

  unfoldable pub count : (A → Bool) → List A → ℕ
  count p [] = 0
  count p (x ∷ xs) = let rest = count p xs in if p x then suc rest else rest

  pub length-append : (xs ys : List A) → length (xs ++ ys) ≡ length xs + length ys
  length-append [] ys = omega arith
  length-append (x ∷ xs) ys = omega (arith, length-append xs ys)

  pub length-take : (n : ℕ) (xs : List A) → length (take n xs) ≡ min n (length xs)
  length-take zero xs = omega arith
  length-take (suc n) [] = omega arith
  length-take (suc n) (x ∷ xs) = omega (arith, length-take n xs)

  pub length-drop : (n : ℕ) (xs : List A) → length (drop n xs) ≡ length xs - n
  length-drop zero xs = omega arith
  length-drop (suc n) [] = omega arith
  length-drop (suc n) (x ∷ xs) = omega (arith, length-drop n xs)

-- Predicates by recursion: every element, some element (with its place).
abbrev pub All {ℓ κ} : {A : Type ℓ} → (A → Type κ) → List A → Type κ
All P [] = Unit
All P (x ∷ xs) = P x × All P xs

abbrev pub last? {ℓ} : {A : Type ℓ} → List A → Option A
last? [] = none
last? (x ∷ []) = some x
last? (x ∷ y ∷ xs) = last? (y ∷ xs)

module _ {ℓ κ} {A : Type ℓ} {B : Type κ} where
  pub length-map : (f : A → B) (xs : List A) → length (map f xs) ≡ length xs
  length-map f [] = refl
  length-map f (x ∷ xs) = ap suc (length-map f xs)

module _ {ℓ κ} {A : Type ℓ} (P : A → Type κ) where
  pub All-append : (xs ys : List A) → All P xs → All P ys → All P (xs ++ ys)
  All-append [] ys h k = k
  All-append (x ∷ xs) ys (p, h) k = (p, All-append xs ys h k)

  pub All-of-Memᴰ : (xs : List A) → ((a : A) → Memᴰ a xs → P a) → All P xs
  All-of-Memᴰ [] h = tt
  All-of-Memᴰ (x ∷ xs) h = (h x (Memᴰ.head refl), All-of-Memᴰ xs (λ a m. h a (Memᴰ.tail m)))

  pub All-Memᴰ : (xs : List A) (a : A) → All P xs → Memᴰ a xs → P a
  All-Memᴰ [] a h m = elim m [ ]
  All-Memᴰ (x ∷ xs) a (p, h) (Memᴰ.head e) = subst P (sym e) p
  All-Memᴰ (x ∷ xs) a (p, h) (Memᴰ.tail m) = All-Memᴰ xs a h m

  pub All-reverse_aux : (xs ys : List A) → All P (reverse_aux xs ys) → All P xs × All P ys
  All-reverse_aux [] ys h = (tt, h)
  All-reverse_aux (x ∷ xs) ys h =
      let (front, (p, back)) = All-reverse_aux xs (x ∷ ys) h in ((p, front), back)

  pub All-keep : (p : A → Bool) (xs : List A) → All P xs → All P (keep p xs)
  unfolding keep
  All-keep p [] h = tt
  All-keep p (x ∷ xs) (k, h) = ground (arith, All-keep p xs h)

  pub find-sound : (p : A → Bool) (xs : List A) {a : A} → find p xs ≡ some a → All P xs → P a
  unfolding find
  find-sound p [] e h = cc
  find-sound p (x ∷ xs) {a} e (k, h) = elim (Bool-cases (p x)) [
    | inl y ↦ subst P (some-injective _ _ (rw y at e)) k
    | inr n ↦ find-sound p xs (rw n at e) h
  ]
