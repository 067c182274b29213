-- ===== src/MinMax/Extrema.antt =====
-- The pair of extrema that lab_1/main.cpp (`MinMax`) and lab_4/cpp/include/minmax.h
-- (`MinMaxResult`) keep, the two updates that both write out, and what such a pair should be.
use multithreading_labs.Base.{
  ◌≡◌, refl, ◌⊎◌, inl, inr, arith, if◌then◌else◌, ℤ, ltb_ℤ, ◌≤ℤ◌, ≤ℤ_antisymm,
}

pub record MinMax : Type 0 where
  pub min_value : ℤ
  pub max_value : ℤ

abbrev pub of_value : ℤ → MinMax
of_value v = record { min_value = v; max_value = v }

-- `if (value < result.min) …; if (value > result.max) …`
unfoldable pub absorb : MinMax → ℤ → MinMax
absorb r v = record {
  min_value = if ltb_ℤ v r.min_value then v else r.min_value;
  max_value = if ltb_ℤ r.max_value v then v else r.max_value;
}

-- The same tests against another pair, in the loop that gathers the threads' results.
unfoldable pub merge : MinMax → MinMax → MinMax
merge r s = record {
  min_value = if ltb_ℤ s.min_value r.min_value then s.min_value else r.min_value;
  max_value = if ltb_ℤ r.max_value s.max_value then s.max_value else r.max_value;
}

-- `r` holds the least and the greatest of the values that `In` describes, and both occur.
pub record IsMinMax (In : ℤ → Type 0) (r : MinMax) : Type 0 where
  pub above : (v : ℤ) → In v → r.min_value ≤ℤ v
  pub below : (v : ℤ) → In v → v ≤ℤ r.max_value
  pub min_in : In r.min_value
  pub max_in : In r.max_value

pub IsMinMax-unique : {In : ℤ → Type 0} {r s : MinMax} → IsMinMax In r → IsMinMax In s → r ≡ s
IsMinMax-unique {r} {s} h k = ground (
  arith,
  ≤ℤ_antisymm r.min_value s.min_value (h.above _ k.min_in) (k.above _ h.min_in),
  ≤ℤ_antisymm r.max_value s.max_value (k.below _ h.max_in) (h.below _ k.max_in),
)

-- The same values under another description.
pub IsMinMax-of_iff :
    {In Im : ℤ → Type 0} {r : MinMax}
    → ((v : ℤ) → Im v → In v)
    → ((v : ℤ) → In v → Im v)
    → IsMinMax In r
    → IsMinMax Im r
IsMinMax-of_iff to from h = record {
  above = λ v i. h.above v (to v i);
  below = λ v i. h.below v (to v i);
  min_in = from _ h.min_in;
  max_in = from _ h.max_in;
}

pub of_value-IsMinMax : (v : ℤ) → IsMinMax (λ w. w ≡ v) (of_value v)
of_value-IsMinMax v = record {
  above = λ w e. rw e (omega arith);
  below = λ w e. rw e (omega arith);
  min_in = refl;
  max_in = refl;
}

module _ {In Im : ℤ → Type 0} {r s : MinMax} (h : IsMinMax In r) (k : IsMinMax Im s) where
  pub merge-IsMinMax : IsMinMax (λ v. In v ⊎ Im v) (merge r s)
  unfolding merge
  merge-IsMinMax = record {
    above =
        λ v i. elim i [ inl x ↦ ground (arith, h.above v x) | inr x ↦ ground (arith, k.above v x) ];
    below =
        λ v i. elim i [ inl x ↦ ground (arith, h.below v x) | inr x ↦ ground (arith, k.below v x) ];
    min_in = ground (arith, h.min_in, k.min_in);
    max_in = ground (arith, h.max_in, k.max_in);
  }

pub absorb_eq_merge : (r : MinMax) (v : ℤ) → absorb r v ≡ merge r (of_value v)
unfolding absorb merge
absorb_eq_merge r v = refl

pub absorb-IsMinMax :
    {In : ℤ → Type 0} {r : MinMax} (v : ℤ)
    → IsMinMax In r
    → IsMinMax (λ w. In w ⊎ (w ≡ v)) (absorb r v)
absorb-IsMinMax {r} v h = rw (absorb_eq_merge r v) (merge-IsMinMax h (of_value-IsMinMax v))

-- One more value, where the values `E` were known before.
pub absorb-extends :
    {E In Im : ℤ → Type 0} {r : MinMax} (v : ℤ)
    → ((w : ℤ) → Im w → In w ⊎ (w ≡ v))
    → ((w : ℤ) → In w ⊎ (w ≡ v) → Im w)
    → IsMinMax (λ w. E w ⊎ In w) r
    → IsMinMax (λ w. E w ⊎ Im w) (absorb r v)
absorb-extends v split join h =
    IsMinMax-of_iff
      (λ w i. elim i [
        | inl x ↦ inl (inl x)
        | inr x ↦ elim (split w x) [ inl y ↦ inl (inr y) | inr p ↦ inr p ]
      ])
      (λ w i. elim i [
        | inl x ↦ elim x [ inl y ↦ inl y | inr y ↦ inr (join w (inl y)) ]
        | inr p ↦ inr (join w (inr p))
      ])
      (absorb-IsMinMax v h)
