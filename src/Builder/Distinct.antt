-- ===== src/Builder/Distinct.antt =====
-- Lists of symbols without a repetition, kept by sorting.
use radar_asset.Base.{◌≡◌, sym, inl, inr, Bool, false, List, [], ◌∷◌, ◌++◌, Bool-cases, All, any}
use radar_asset.Base.Sort.{sort, All-insert, All-sort, insert}
use radar_asset.Base.Words.{Word, word_eq, word_eq_iff}

-- No word stands twice.
abbrev pub IsDistinct : List Word → Type 0
IsDistinct [] = Unit
IsDistinct (w ∷ ws) = All (λ v. word_eq v w ≡ false) ws × IsDistinct ws

word_eq_sym : (v w : Word) → word_eq v w ≡ false → word_eq w v ≡ false
word_eq_sym v w h = elim (Bool-cases (word_eq w v)) [
  | inr e ↦ e
  | inl e ↦ cc ((word_eq_iff v w).1 (sym ((word_eq_iff w v).0 e)), h)
]

insert-IsDistinct :
    (after : Word → Word → Bool) (w : Word) (ws : List Word)
    → All (λ v. word_eq v w ≡ false) ws
    → IsDistinct ws
    → IsDistinct (insert after w ws)
unfolding insert
insert-IsDistinct after w [] a h = (tt, tt)
insert-IsDistinct after w (v ∷ vs) (p, a) (n, h) = elim (Bool-cases (after w v)) [
  | inl e ↦ rw e (
    All-insert after (λ u. word_eq u v ≡ false) w vs (word_eq_sym v w p) n,
    insert-IsDistinct after w vs a h,
  )
  | inr e ↦ rw e ((p, a), (n, h))
]

pub sort-IsDistinct :
    (after : Word → Word → Bool) (ws : List Word) → IsDistinct ws → IsDistinct (sort after ws)
unfolding sort
sort-IsDistinct after [] h = tt
sort-IsDistinct after (w ∷ ws) (a, h) =
    insert-IsDistinct after w (sort after ws) (All-sort after (λ v. word_eq v w ≡ false) ws a)
      (sort-IsDistinct after ws h)

at_end : (P : Word → Type 0) (us : List Word) (w : Word) → All P us → P w → All P (us ++ w ∷ [])
at_end P [] w b p = (p, tt)
at_end P (u ∷ us) w (q, b) p = (q, at_end P us w b p)

pub append-IsDistinct :
    (ws : List Word) (w : Word)
    → IsDistinct ws
    → any (λ v. word_eq v w) ws ≡ false
    → IsDistinct (ws ++ w ∷ [])
unfolding any
append-IsDistinct [] w h e = (tt, tt)
append-IsDistinct (v ∷ vs) w (a, h) e = elim (Bool-cases (word_eq v w)) [
  | inl same ↦ cc (rw same at e)
  | inr apart ↦ (
    at_end (λ u. word_eq u v ≡ false) vs w a (word_eq_sym v w apart),
    append-IsDistinct vs w h (rw apart at e),
  )
]
