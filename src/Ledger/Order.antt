-- ===== src/Ledger/Order.antt =====
-- The order of the ledger: a comparison by three texts in turn is consistent if `localeCompare` is.
use Prim.Native.String.{String}
use radar_asset.Base.{◌≡◌, inl, inr, false, if◌then◌else◌, arith}
use radar_asset.Base.Sort.{IsConsistent}
use radar_asset.Base.Text.{text_lt, text_lt_irrefl, text_lt_trans, text_lt_total}
use radar_asset.Ledger.{
  Sign, negative, zero_sign, positive, or_sign, is_positive, compare_ledger_transactions,
  Transaction,
}

abbrev pub opposite : Sign → Sign
opposite negative = positive
opposite zero_sign = zero_sign
opposite positive = negative

-- What ECMA-402 promises of `localeCompare`: a total order on the texts, up to equivalence.
pub record IsComparison {ℓ} {A : Type ℓ} (compare : A → A → Sign) : Type ℓ where
  pub flip : (x y : A) → compare y x ≡ opposite (compare x y)
  pub le_trans :
      (x y z : A)
      → is_positive (compare x y) ≡ false
      → is_positive (compare y z) ≡ false
      → is_positive (compare x z) ≡ false

then_by_flip :
    (s t u v : Sign) → u ≡ opposite s → v ≡ opposite t → or_sign u v ≡ opposite (or_sign s t)
then_by_flip negative t u v h k = ground arith
then_by_flip zero_sign t u v h k = ground arith
then_by_flip positive t u v h k = ground arith

module _ {ℓ} {A : Type ℓ} where
  pub IsComparison-then_by :
      (c d : A → A → Sign)
      → IsComparison c
      → IsComparison d
      → IsComparison (λ x y. or_sign (c x y) (d x y))
  IsComparison-then_by c d h k = record {
    flip = λ x y. then_by_flip (c x y) (d x y) (c y x) (d y x) (h.flip x y) (k.flip x y);
    le_trans = λ x y z p q. ground (
      arith,
      h.flip x y,
      h.flip y z,
      h.flip x z,
      h.le_trans x y z,
      h.le_trans y z x,
      h.le_trans z x y,
      k.le_trans x y z,
    );
  }

  pub IsComparison-IsConsistent :
      (c : A → A → Sign) → IsComparison c → IsConsistent (λ x y. is_positive (c x y))
  IsComparison-IsConsistent c h = record {
    one_way = λ x y p. ground (arith, h.flip x y);
    le_trans = h.le_trans;
  }

module _ {ℓ} {N : Type ℓ} (compare : String → String → Sign) (h : IsComparison compare) where
  by_key : (key : Transaction N → String) → IsComparison (λ x y. compare (key x) (key y))
  by_key key = record {
    flip = λ x y. h.flip (key x) (key y);
    le_trans = λ x y z. h.le_trans (key x) (key y) (key z);
  }

  pub compare_ledger_transactions-IsConsistent :
      IsConsistent (λ x y. is_positive (compare_ledger_transactions {N = N} compare x y))
  unfolding compare_ledger_transactions
  compare_ledger_transactions-IsConsistent =
      IsComparison-IsConsistent (compare_ledger_transactions compare) (
        IsComparison-then_by (λ x y. compare x.executed_at y.executed_at) _
          (by_key (λ t. t.executed_at))
          (IsComparison-then_by (λ x y. compare x.created_at y.created_at) _
            (by_key (λ t. t.created_at)) (by_key (λ t. t.id))))

-- The order by code points, as one such comparison.
unfoldable pub by_code_points : String → String → Sign
unfolding text_lt
by_code_points x y = if text_lt y x then positive else if text_lt x y then negative else zero_sign

pub by_code_points-IsComparison : IsComparison by_code_points
unfolding by_code_points
by_code_points-IsComparison = record {
  flip = λ x y. ground (arith, text_lt_trans x y x, text_lt_irrefl x);
  le_trans = λ x y z p q. elim (text_lt_total x y) [
    | inl same ↦ rw same q
    | inr (inl lower) ↦ ground (
      arith,
      text_lt_trans z x y,
      text_lt_trans x y z,
      text_lt_irrefl x,
      text_lt_trans z x z,
      text_lt_trans x z x,
    )
    | inr (inr higher) ↦ ground (arith)
  ];
}
