-- ===== src/Allocation/Keys.antt =====
-- The symbols that get a weight: each once, in increasing order, whatever the order of the input.
use mathlib.Core.List.{Memᴰ}
use radar_asset.Base.{
  ◌≡◌, refl, sym, ap₂, subst, ◌∙◌, ◌≢◌, ◌⊎◌, inl, inr, Bool, true, false, List, [], ◌∷◌, arith,
  Bool-cases, All, All-Memᴰ, All-of-Memᴰ, any, Memᴰ-cons_map, Memᴰ-swap,
}
use radar_asset.Base.Words.{
  Word, word_eq, word_eq_iff, word_lt, word_lt_irrefl, word_lt_trans, word_lt_total,
}
use radar_asset.Base.Sort.{insert, sort, All-insert, All-sort}
use radar_asset.Allocation.{distinct_from, ordered_symbols}

abbrev pub IsIncreasing : List Word → Type 0
IsIncreasing [] = Unit
IsIncreasing (x ∷ xs) = All (λ y. word_lt x y ≡ true) xs × IsIncreasing xs

abbrev pub SameSymbols : List Word → List Word → Type 0
SameSymbols xs ys = (a : Word) → (Memᴰ a xs → Memᴰ a ys) × (Memᴰ a ys → Memᴰ a xs)

before-All :
    (a b : Word) (ys : List Word)
    → word_lt a b ≡ true
    → All (λ y. word_lt b y ≡ true) ys
    → All (λ y. word_lt a y ≡ true) ys
before-All a b [] h k = tt
before-All a b (y ∷ ys) h (e, k) = (word_lt_trans a b y h e, before-All a b ys h k)

not_before_itself : (a : Word) (ys : List Word) → All (λ y. word_lt a y ≡ true) ys → Memᴰ a ys → ⊥
not_before_itself a ys h m = cc (All-Memᴰ _ ys a h m, word_lt_irrefl a)

heads_agree :
    (x y : Word) (xs ys : List Word)
    → All (λ z. word_lt x z ≡ true) xs
    → All (λ z. word_lt y z ≡ true) ys
    → Memᴰ x (y ∷ ys)
    → Memᴰ y (x ∷ xs)
    → x ≡ y
heads_agree x y xs ys h k (Memᴰ.head e) m' = e
heads_agree x y xs ys h k (Memᴰ.tail m) (Memᴰ.head e) = sym e
heads_agree x y xs ys h k (Memᴰ.tail m) (Memᴰ.tail m') =
    absurd (cc (word_lt_trans x y x (All-Memᴰ _ xs y h m') (All-Memᴰ _ ys x k m), word_lt_irrefl x))

drop_head :
    (x y : Word) (xs ys : List Word)
    → x ≡ y
    → All (λ z. word_lt x z ≡ true) xs
    → ((a : Word) → Memᴰ a (x ∷ xs) → Memᴰ a (y ∷ ys))
    → (a : Word) → Memᴰ a xs
    → Memᴰ a ys
drop_head x y xs ys e h into a m = elim (into a (Memᴰ.tail m)) [
  | Memᴰ.head same ↦ absurd (not_before_itself x xs h (subst (λ z. Memᴰ z xs) (same ∙ sym e) m))
  | Memᴰ.tail k ↦ k
]

-- An increasing list is determined by its symbols.
pub increasing_unique :
    (xs ys : List Word) → IsIncreasing xs → IsIncreasing ys → SameSymbols xs ys → xs ≡ ys
increasing_unique [] [] h k s = refl
increasing_unique [] (y ∷ ys) h k s = elim ((s y).1 (Memᴰ.head refl)) [ ]
increasing_unique (x ∷ xs) [] h k s = elim ((s x).0 (Memᴰ.head refl)) [ ]
increasing_unique (x ∷ xs) (y ∷ ys) (h, hs) (k, ks) s =
    let same = heads_agree x y xs ys h k ((s x).0 (Memᴰ.head refl)) ((s y).1 (Memᴰ.head refl)) in
    ap₂ ◌∷◌ same (
      increasing_unique xs ys hs ks λ a. (
        drop_head x y xs ys same h (λ b. (s b).0) a,
        drop_head y x ys xs (sym same) k (λ b. (s b).1) a,
      ))

abbrev IsDistinct : List Word → Type 0
IsDistinct [] = Unit
IsDistinct (x ∷ xs) = All (λ y. x ≢ y) xs × IsDistinct xs

abbrev earlier : Word → Word → Bool
earlier x y = word_lt y x

any-Memᴰ : (x : Word) (seen : List Word) → any (word_eq x) seen ≡ true → Memᴰ x seen
unfolding any
any-Memᴰ x [] h = cc
any-Memᴰ x (y ∷ ys) h = elim (Bool-cases (word_eq x y)) [
  | inl e ↦ Memᴰ.head ((word_eq_iff x y).0 e)
  | inr e ↦ Memᴰ.tail (any-Memᴰ x ys (rw e at h))
]

Memᴰ-any : (x : Word) (seen : List Word) → Memᴰ x seen → any (word_eq x) seen ≡ true
unfolding any
Memᴰ-any x [] m = elim m [ ]
Memᴰ-any x (y ∷ ys) (Memᴰ.head e) = rw ((word_eq_iff x y).1 e)
Memᴰ-any x (y ∷ ys) (Memᴰ.tail m) = ground (arith, Memᴰ-any x ys m)

Memᴰ-distinct_from :
    (a : Word) (seen xs : List Word)
    → Memᴰ a (distinct_from seen xs)
    → (Memᴰ a seen → ⊥) × Memᴰ a xs
unfolding distinct_from
Memᴰ-distinct_from a seen [] m = elim m [ ]
Memᴰ-distinct_from a seen (x ∷ xs) m = elim (Bool-cases (any (word_eq x) seen)) [
  | inl e ↦ let (out, back) = Memᴰ-distinct_from a seen xs (rw e at m) in (out, Memᴰ.tail back)
  | inr e ↦ fresh e (Memᴰ-distinct_from a (x ∷ seen) xs) (rw e at m)
]
  where
    fresh :
        any (word_eq x) seen ≡ false
        → (Memᴰ a (distinct_from (x ∷ seen) xs) → (Memᴰ a (x ∷ seen) → ⊥) × Memᴰ a xs)
        → Memᴰ a (x ∷ distinct_from (x ∷ seen) xs)
        → (Memᴰ a seen → ⊥) × Memᴰ a (x ∷ xs)
    fresh e ih (Memᴰ.head same) =
        (λ k. cc (Memᴰ-any x seen (subst (λ z. Memᴰ z seen) same k), e), Memᴰ.head same)
    fresh e ih (Memᴰ.tail k) = let (out, back) = ih k in (λ j. out (Memᴰ.tail j), Memᴰ.tail back)

distinct_from-Memᴰ :
    (a : Word) (seen xs : List Word) → Memᴰ a xs → Memᴰ a seen ⊎ Memᴰ a (distinct_from seen xs)
unfolding distinct_from
distinct_from-Memᴰ a seen [] m = elim m [ ]
distinct_from-Memᴰ a seen (x ∷ xs) m = elim (Bool-cases (any (word_eq x) seen)) [
  | inl e ↦ rw e (old e m (distinct_from-Memᴰ a seen xs))
  | inr e ↦ rw e (fresh m (distinct_from-Memᴰ a (x ∷ seen) xs))
]
  where
    old :
        any (word_eq x) seen ≡ true
        → Memᴰ a (x ∷ xs)
        → (Memᴰ a xs → Memᴰ a seen ⊎ Memᴰ a (distinct_from seen xs))
        → Memᴰ a seen ⊎ Memᴰ a (distinct_from seen xs)
    old e (Memᴰ.head same) ih = inl (subst (λ z. Memᴰ z seen) (sym same) (any-Memᴰ x seen e))
    old e (Memᴰ.tail k) ih = ih k

    fresh :
        Memᴰ a (x ∷ xs)
        → (Memᴰ a xs → Memᴰ a (x ∷ seen) ⊎ Memᴰ a (distinct_from (x ∷ seen) xs))
        → Memᴰ a seen ⊎ Memᴰ a (x ∷ distinct_from (x ∷ seen) xs)
    fresh (Memᴰ.head same) ih = inr (Memᴰ.head same)
    fresh (Memᴰ.tail k) ih = elim (ih k) [
      | inl (Memᴰ.head same) ↦ inr (Memᴰ.head same)
      | inl (Memᴰ.tail j) ↦ inl j
      | inr j ↦ inr (Memᴰ.tail j)
    ]

distinct_from-IsDistinct : (seen xs : List Word) → IsDistinct (distinct_from seen xs)
unfolding distinct_from
distinct_from-IsDistinct seen [] = tt
distinct_from-IsDistinct seen (x ∷ xs) = elim (Bool-cases (any (word_eq x) seen)) [
  | inl e ↦ rw e (distinct_from-IsDistinct seen xs)
  | inr e ↦ rw e (
    All-of-Memᴰ (λ y. x ≢ y) (distinct_from (x ∷ seen) xs)
        (λ y m same. (Memᴰ-distinct_from y (x ∷ seen) xs m).0 (Memᴰ.head (sym same))),
    distinct_from-IsDistinct (x ∷ seen) xs,
  )
]

Memᴰ-insert : (a x : Word) (ys : List Word) → Memᴰ a (insert earlier x ys) → Memᴰ a (x ∷ ys)
unfolding insert
Memᴰ-insert a x [] m = m
Memᴰ-insert a x (y ∷ ys) m = elim (Bool-cases (earlier x y)) [
  | inl e ↦ Memᴰ-swap (Memᴰ-cons_map (Memᴰ-insert a x ys) (rw e at m))
  | inr e ↦ rw e at m
]

insert-Memᴰ : (a x : Word) (ys : List Word) → Memᴰ a (x ∷ ys) → Memᴰ a (insert earlier x ys)
unfolding insert
insert-Memᴰ a x [] m = m
insert-Memᴰ a x (y ∷ ys) m = elim (Bool-cases (earlier x y)) [
  | inl e ↦ rw e (Memᴰ-cons_map (insert-Memᴰ a x ys) (Memᴰ-swap m))
  | inr e ↦ rw e m
]

sort-SameSymbols : (xs : List Word) → SameSymbols (sort earlier xs) xs
unfolding sort
sort-SameSymbols [] a = (λ m. m, λ m. m)
sort-SameSymbols (x ∷ xs) a = (
  λ m. Memᴰ-cons_map (sort-SameSymbols xs a).0 (Memᴰ-insert a x (sort earlier xs) m),
  λ m. insert-Memᴰ a x (sort earlier xs) (Memᴰ-cons_map (sort-SameSymbols xs a).1 m),
)

insert-IsIncreasing :
    (x : Word) (ys : List Word)
    → All (λ y. x ≢ y) ys
    → IsIncreasing ys
    → IsIncreasing (insert earlier x ys)
unfolding insert
insert-IsIncreasing x [] n h = (tt, tt)
insert-IsIncreasing x (y ∷ ys) (n, ns) (h, hs) = elim (Bool-cases (earlier x y)) [
  | inl e ↦
      rw e (All-insert earlier (λ z. word_lt y z ≡ true) x ys e h, insert-IsIncreasing x ys ns hs)
  | inr e ↦ rw e (let up = front e in ((up, before-All x y ys up h), (h, hs)))
]
  where
    front : earlier x y ≡ false → word_lt x y ≡ true
    front e = ground (arith, word_lt_total x y)

sort-IsIncreasing : (xs : List Word) → IsDistinct xs → IsIncreasing (sort earlier xs)
unfolding sort
sort-IsIncreasing [] h = tt
sort-IsIncreasing (x ∷ xs) (n, h) =
    insert-IsIncreasing x (sort earlier xs) (All-sort earlier (λ y. x ≢ y) xs n)
      (sort-IsIncreasing xs h)

-- The ordered symbols are strictly increasing, so each stands once, and they are the symbols given.
pub ordered_symbols_lem :
    (xs : List Word) → IsIncreasing (ordered_symbols xs) × SameSymbols (ordered_symbols xs) xs
unfolding ordered_symbols
ordered_symbols_lem xs =
    let ds = distinct_from [] xs in
    (
      sort-IsIncreasing ds (distinct_from-IsDistinct [] xs),
      λ a. (
        λ m. (Memᴰ-distinct_from a [] xs ((sort-SameSymbols ds a).0 m)).1,
        λ m. (sort-SameSymbols ds a).1 (kept a (distinct_from-Memᴰ a [] xs m)),
      ),
    )
  where
    kept : (a : Word) → Memᴰ a [] ⊎ Memᴰ a (distinct_from [] xs) → Memᴰ a (distinct_from [] xs)
    kept a (inl m) = elim m [ ]
    kept a (inr m) = m

-- Two lists with the same symbols, in any order and with any repetitions, are ordered alike.
pub ordered_symbols_unique :
    (xs ys : List Word) → SameSymbols xs ys → ordered_symbols xs ≡ ordered_symbols ys
ordered_symbols_unique xs ys s =
    let (inc, same) = ordered_symbols_lem xs in
    let (inc', same') = ordered_symbols_lem ys in
    increasing_unique (ordered_symbols xs) (ordered_symbols ys) inc inc'
      λ a. (λ m. (same' a).1 ((s a).0 ((same a).0 m)), λ m. (same a).1 ((s a).1 ((same' a).0 m)))
