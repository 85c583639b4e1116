-- ===== src/Base/Members.antt =====
-- What find, keep and any say of the elements of a list.
use Prim.Native.Nat.{◌≤◌}
use mathlib.Core.Path.{◌≡◌, refl, ap, sym, subst, ◌∙◌}
use mathlib.Core.Logic.{◌⊎◌, inl, inr}
use mathlib.Core.Bool.{Bool, true, false}
use mathlib.Core.List.{List, [], ◌∷◌, ◌++◌, map, reverse_aux, Memᴰ}
use mathlib.Core.Option.{none, some, some-injective}
use native.Mathlib.Omega.{arith}
use radar_asset.Base.Tests.{if◌then◌else◌, Bool-cases}
use radar_asset.Base.Lists.{length, All, All-of-Memᴰ, find, find-sound, keep, any}

pub Memᴰ-reverse_aux {ℓ} :
    {A : Type ℓ} {a : A} (xs ys : List A) → Memᴰ a (reverse_aux xs ys) → Memᴰ a xs ⊎ Memᴰ a ys
Memᴰ-reverse_aux [] ys m = inr m
Memᴰ-reverse_aux (x ∷ xs) ys m = elim (Memᴰ-reverse_aux xs (x ∷ ys) m) [
  | inl k ↦ inl (Memᴰ.tail k)
  | inr (Memᴰ.head e) ↦ inl (Memᴰ.head e)
  | inr (Memᴰ.tail k) ↦ inr k
]

pub Memᴰ-cons_map {ℓ} :
    {A : Type ℓ} {a x : A} {xs ys : List A}
    → (Memᴰ a xs → Memᴰ a ys)
    → Memᴰ a (x ∷ xs)
    → Memᴰ a (x ∷ ys)
Memᴰ-cons_map f (Memᴰ.head e) = Memᴰ.head e
Memᴰ-cons_map f (Memᴰ.tail m) = Memᴰ.tail (f m)

pub Memᴰ-swap {ℓ} :
    {A : Type ℓ} {a x y : A} {xs : List A} → Memᴰ a (x ∷ y ∷ xs) → Memᴰ a (y ∷ x ∷ xs)
Memᴰ-swap (Memᴰ.head e) = Memᴰ.tail (Memᴰ.head e)
Memᴰ-swap (Memᴰ.tail (Memᴰ.head e)) = Memᴰ.head e
Memᴰ-swap (Memᴰ.tail (Memᴰ.tail m)) = Memᴰ.tail (Memᴰ.tail m)

pub find-none {ℓ} :
    {A : Type ℓ} (p : A → Bool) (xs : List A) → find p xs ≡ none → All (λ x. p x ≡ false) xs
unfolding find
find-none p [] e = tt
find-none p (x ∷ xs) e = elim (Bool-cases (p x)) [
  | inl y ↦ cc (rw y at e)
  | inr n ↦ (n, find-none p xs (rw n at e))
]

pub find-true {ℓ} :
    {A : Type ℓ} (p : A → Bool) (xs : List A) {a : A} → find p xs ≡ some a → p a ≡ true
unfolding find
find-true p [] e = cc
find-true p (x ∷ xs) {a} e = elim (Bool-cases (p x)) [
  | inl y ↦ subst (λ z. p z ≡ true) (some-injective _ _ (rw y at e)) y
  | inr n ↦ find-true p xs (rw n at e)
]

pub find-append {ℓ} :
    {A : Type ℓ} (p : A → Bool) (xs ys : List A)
    → All (λ x. p x ≡ false) xs
    → find p (xs ++ ys) ≡ find p ys
unfolding find
find-append p [] ys h = refl
find-append p (x ∷ xs) ys (n, h) = rw n (find-append p xs ys h)

pub length-keep {ℓ} : {A : Type ℓ} (p : A → Bool) (xs : List A) → length (keep p xs) ≤ length xs
unfolding keep
length-keep p [] = omega arith
length-keep p (x ∷ xs) = ground (arith, length-keep p xs)

pub keep-append {ℓ} :
    {A : Type ℓ} (p : A → Bool) (xs ys : List A) → keep p (xs ++ ys) ≡ keep p xs ++ keep p ys
unfolding keep
keep-append p [] ys = refl
keep-append p (x ∷ xs) ys = elim (Bool-cases (p x)) [
  | inl e ↦ rw e (ap (λ l. x ∷ l) (keep-append p xs ys))
  | inr e ↦ rw e (keep-append p xs ys)
]

pub keep-none {ℓ} :
    {A : Type ℓ} (p : A → Bool) (xs : List A) → All (λ x. p x ≡ false) xs → keep p xs ≡ []
unfolding keep
keep-none p [] h = refl
keep-none p (x ∷ xs) (e, h) = rw e (keep-none p xs h)

pub keep_whole {ℓ} :
    {A : Type ℓ} (p : A → Bool) (xs : List A) → All (λ x. p x ≡ true) xs → keep p xs ≡ xs
unfolding keep
keep_whole p [] h = refl
keep_whole p (x ∷ xs) (e, h) = rw e (ap (λ l. x ∷ l) (keep_whole p xs h))

-- What one filter lets through, a second that lets all of it through does not change.
pub keep-keep {ℓ} :
    {A : Type ℓ} (p q : A → Bool) (xs : List A)
    → All (λ x. q x ≡ true → p x ≡ true) xs
    → keep q (keep p xs) ≡ keep q xs
unfolding keep
keep-keep p q [] h = refl
keep-keep p q (x ∷ xs) (f, h) = elim (Bool-cases (p x)) [
  | inl e ↦ rw e (ap (λ l. if q x then x ∷ l else l) (keep-keep p q xs h))
  | inr e ↦ elim (Bool-cases (q x)) [ inl g ↦ cc (f g, e) | inr g ↦ rw (e, g) (keep-keep p q xs h) ]
]

-- Two filters that never agree leave nothing.
pub keep-apart {ℓ} :
    {A : Type ℓ} (p q : A → Bool) (xs : List A)
    → ((x : A) → p x ≡ true → q x ≡ false)
    → keep q (keep p xs) ≡ []
unfolding keep
keep-apart p q [] h = refl
keep-apart p q (x ∷ xs) h = elim (Bool-cases (p x)) [
  | inl e ↦ rw (e, h x e) (keep-apart p q xs h)
  | inr e ↦ rw e (keep-apart p q xs h)
]

pub All-map {ℓ κ μ} :
    {A : Type ℓ} {B : Type κ} (P : B → Type μ) (f : A → B) (xs : List A)
    → ((x : A) → P (f x))
    → All P (map f xs)
All-map P f [] h = tt
All-map P f (x ∷ xs) h = (h x, All-map P f xs h)

pub All-intro {ℓ κ} : {A : Type ℓ} (P : A → Type κ) (xs : List A) → ((x : A) → P x) → All P xs
All-intro P [] h = tt
All-intro P (x ∷ xs) h = (h x, All-intro P xs h)

pub find-Memᴰ {ℓ} :
    {A : Type ℓ} (p : A → Bool) (xs : List A) {a : A} → find p xs ≡ some a → Memᴰ a xs
find-Memᴰ p xs e = find-sound (λ a. Memᴰ a xs) p xs e (All-of-Memᴰ (λ a. Memᴰ a xs) xs (λ a m. m))

pub any-Memᴰ {ℓ} :
    {A : Type ℓ} (p : A → Bool) (xs : List A) → any p xs ≡ true → (a : A) × Memᴰ a xs × (p a ≡ true)
unfolding any
any-Memᴰ p [] e = cc
any-Memᴰ p (x ∷ xs) e = elim (Bool-cases (p x)) [
  | inl y ↦ (x, Memᴰ.head refl, y)
  | inr n ↦ let (a, m, h) = any-Memᴰ p xs (rw n at e) in (a, Memᴰ.tail m, h)
]

pub any-of_Memᴰ {ℓ} :
    {A : Type ℓ} (p : A → Bool) (xs : List A) (x : A) → Memᴰ x xs → p x ≡ true → any p xs ≡ true
unfolding any
any-of_Memᴰ p (y ∷ xs) x (Memᴰ.head e) h = rw (ap p (sym e) ∙ h) refl
any-of_Memᴰ p (y ∷ xs) x (Memᴰ.tail m) h = elim (Bool-cases (p y)) [
  | inl t ↦ rw t refl
  | inr n ↦ rw n (any-of_Memᴰ p xs x m h)
]
any-of_Memᴰ p [] x m h = elim m [ ]

pub Memᴰ-append {ℓ} :
    {A : Type ℓ} {a : A} (xs ys : List A) → Memᴰ a (xs ++ ys) → Memᴰ a xs ⊎ Memᴰ a ys
Memᴰ-append [] ys m = inr m
Memᴰ-append (x ∷ xs) ys (Memᴰ.head e) = inl (Memᴰ.head e)
Memᴰ-append (x ∷ xs) ys (Memᴰ.tail m) = elim (Memᴰ-append xs ys m) [
  | inl k ↦ inl (Memᴰ.tail k)
  | inr k ↦ inr k
]

pub Memᴰ-of_keep {ℓ} :
    {A : Type ℓ} {a : A} (p : A → Bool) (xs : List A) → Memᴰ a xs → p a ≡ true → Memᴰ a (keep p xs)
unfolding keep
Memᴰ-of_keep p (x ∷ xs) (Memᴰ.head e) h = rw (ap p (sym e) ∙ h) (Memᴰ.head e)
Memᴰ-of_keep p (x ∷ xs) (Memᴰ.tail m) h = elim (Bool-cases (p x)) [
  | inl y ↦ rw y (Memᴰ.tail (Memᴰ-of_keep p xs m h))
  | inr n ↦ rw n (Memᴰ-of_keep p xs m h)
]
Memᴰ-of_keep p [] m h = elim m [ ]

pub keep-true {ℓ} :
    {A : Type ℓ} {a : A} (p : A → Bool) (xs : List A) → Memᴰ a (keep p xs) → p a ≡ true
unfolding keep
keep-true p [] m = elim m [ ]
keep-true p (x ∷ xs) m = elim (Bool-cases (p x)) [
  | inl y ↦ elim (rw y at m) [ Memᴰ.head e ↦ ap p e ∙ y | Memᴰ.tail k ↦ keep-true p xs k ]
  | inr n ↦ keep-true p xs (rw n at m)
]

pub Memᴰ-keep {ℓ} :
    {A : Type ℓ} {a : A} (p : A → Bool) (xs : List A) → Memᴰ a (keep p xs) → Memᴰ a xs
unfolding keep
Memᴰ-keep p [] m = m
Memᴰ-keep p (x ∷ xs) m = elim (Bool-cases (p x)) [
  | inl y ↦ Memᴰ-cons_map (λ k. Memᴰ-keep p xs k) (rw y at m)
  | inr n ↦ Memᴰ.tail (Memᴰ-keep p xs (rw n at m))
]
