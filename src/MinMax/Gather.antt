-- ===== src/MinMax/Gather.antt =====
-- The loop that merges the threads' results gives the extrema of all that the threads have read.
use multithreading_labs.Base.{
  ℕ, zero, suc, ◌<◌, ◌≡◌, refl, ◌⊎◌, inl, inr, some, List, [], ◌∷◌, arith, length, get_elem?, ℤ,
}
use multithreading_labs.MinMax.Extrema.{MinMax, IsMinMax, merge, merge-IsMinMax, IsMinMax-of_iff}
use multithreading_labs.MinMax.{merge_all, gather}

-- Thread `j` found the extrema of the values `In j`.
abbrev pub Found : (ℕ → ℤ → Type 0) → List MinMax → Type 0
Found In [] = Unit
Found In (r ∷ rs) = IsMinMax (In 0) r × Found (λ j. In (suc j)) rs

abbrev pub Union : ℕ → (ℕ → ℤ → Type 0) → ℤ → Type 0
Union n In v = (j : ℕ) × (j < n) × In j v

Union-split :
    (n : ℕ) (In : ℕ → ℤ → Type 0) (v : ℤ)
    → Union (suc n) In v
    → In 0 v ⊎ Union n (λ j. In (suc j)) v
Union-split n In v (zero, h, x) = inl x
Union-split n In v (suc j, h, x) = inr (j, omega arith, x)

Union-join :
    (n : ℕ) (In : ℕ → ℤ → Type 0) (v : ℤ)
    → In 0 v ⊎ Union n (λ j. In (suc j)) v
    → Union (suc n) In v
Union-join n In v (inl x) = (0, omega arith, x)
Union-join n In v (inr (j, h, x)) = (suc j, omega arith, x)

merge_all-IsMinMax :
    (P : ℤ → Type 0) (In : ℕ → ℤ → Type 0) (r : MinMax) (rs : List MinMax)
    → IsMinMax P r
    → Found In rs
    → IsMinMax (λ v. P v ⊎ Union (length rs) In v) (merge_all r rs)
unfolding merge_all
merge_all-IsMinMax P In r [] h f =
    IsMinMax-of_iff (λ v i. elim i [ inl x ↦ x | inr (j, lt, x) ↦ absurd (omega arith) ])
      (λ v x. inl x) h
merge_all-IsMinMax P In r (s ∷ rs) h f =
    IsMinMax-of_iff
      (λ v i. elim i [
        | inl x ↦ inl (inl x)
        | inr u ↦ elim (Union-split (length rs) In v u) [ inl x ↦ inl (inr x) | inr x ↦ inr x ]
      ])
      (λ v i. elim i [
        | inl x ↦ elim x [ inl y ↦ inl y | inr y ↦ inr (Union-join (length rs) In v (inl y)) ]
        | inr u ↦ inr (Union-join (length rs) In v (inr u))
      ])
      (merge_all-IsMinMax (λ v. P v ⊎ In 0 v) (λ j. In (suc j)) (merge r s) rs
        (merge-IsMinMax h f.0) f.1)

pub gather-IsMinMax :
    (In : ℕ → ℤ → Type 0) (rs : List MinMax)
    → 0 < length rs
    → Found In rs
    → (r : MinMax) × (gather rs ≡ some r) × IsMinMax (Union (length rs) In) r
unfolding gather
gather-IsMinMax In [] lt f = absurd (omega arith)
gather-IsMinMax In (r ∷ rs) lt f = (
  merge_all r rs,
  refl,
  IsMinMax-of_iff (Union-split (length rs) In) (Union-join (length rs) In)
      (merge_all-IsMinMax (In 0) (λ j. In (suc j)) r rs f.0 f.1),
)

-- The slots one by one.
pub Found-of_slots :
    (In : ℕ → ℤ → Type 0) (rs : List MinMax)
    → ((j : ℕ) → j < length rs → (r : MinMax) × (get_elem? rs j ≡ some r) × IsMinMax (In j) r)
    → Found In rs
Found-of_slots In [] h = tt
Found-of_slots In (r ∷ rs) h = (
  let (s, e, p) = h 0 (omega arith) in let same : s ≡ r = cc in rw same at p,
  Found-of_slots (λ j. In (suc j)) rs (λ j lt. h (suc j) (omega arith)),
)
