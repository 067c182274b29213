-- ===== src/MinMax/Scan.antt =====
-- The loop over a range of the vector keeps the extrema of what it has read.
use multithreading_labs.Base.{
  ℕ, zero, suc, ◌+◌, ◌≤◌, ◌<◌, ◌≡◌, refl, sym, ◌∙◌, ap, ◌⊎◌, inl, inr, some, List, arith, length,
  get_elem?, get_elem?-in_range, ℤ, dec_lt,
}
use multithreading_labs.MinMax.Extrema.{
  MinMax, IsMinMax, of_value, absorb, of_value-IsMinMax, absorb-IsMinMax, IsMinMax-of_iff,
}
use multithreading_labs.MinMax.{scan}

module _ (values : List ℤ) where
  -- The values of the vector at the indices from `lo` up to `hi`.
  abbrev pub Range : ℕ → ℕ → ℤ → Type 0
  Range lo hi v = (k : ℕ) × (lo ≤ k) × (k < hi) × (get_elem? values k ≡ some v)

  Range-suc-split :
      (lo i : ℕ) (v w : ℤ)
      → get_elem? values i ≡ some v
      → Range lo (suc i) w
      → Range lo i w ⊎ (w ≡ v)
  Range-suc-split lo i v w e (k, above, below, q) = elim (dec_lt k i) [
    | yes p ↦ inl (k, above, p, q)
    | no p ↦ let at_i : k ≡ i = omega arith in inr (cc (ap (get_elem? values) at_i))
  ]

  Range-suc-join :
      (lo i : ℕ) (v w : ℤ)
      → lo ≤ i
      → get_elem? values i ≡ some v
      → Range lo i w ⊎ (w ≡ v)
      → Range lo (suc i) w
  Range-suc-join lo i v w le e (inl (k, above, below, q)) = (k, above, omega arith, q)
  Range-suc-join lo i v w le e (inr p) = (i, le, omega arith, e ∙ ap some (sym p))

  pub absorb-Range :
      (lo i : ℕ) (v : ℤ) {r : MinMax}
      → lo ≤ i
      → get_elem? values i ≡ some v
      → IsMinMax (Range lo i) r
      → IsMinMax (Range lo (suc i)) (absorb r v)
  absorb-Range lo i v le e h =
      IsMinMax-of_iff (λ w. Range-suc-split lo i v w e) (λ w. Range-suc-join lo i v w le e)
        (absorb-IsMinMax v h)

  pub of_value-Range :
      (i : ℕ) (v : ℤ) → get_elem? values i ≡ some v → IsMinMax (Range i (suc i)) (of_value v)
  of_value-Range i v e =
      IsMinMax-of_iff
        (λ w r. elim (Range-suc-split i i v w e r) [
          | inl (k, above, below, q) ↦ absurd (omega arith)
          | inr p ↦ p
        ])
        (λ w p. Range-suc-join i i v w (omega arith) e (inr p)) (of_value-IsMinMax v)

  -- Inside the vector the loop finishes, with the extrema of the longer range.
  pub scan-Range :
      (lo rounds i hi : ℕ) {r : MinMax}
      → lo ≤ i
      → i + rounds ≡ hi
      → hi ≤ length values
      → IsMinMax (Range lo i) r
      → (r' : MinMax) × (scan values i rounds r ≡ some r') × IsMinMax (Range lo hi) r'
  unfolding scan
  scan-Range lo zero i hi {r} le e fit h =
      let at_hi : i ≡ hi = omega arith in (r, refl, rw (← at_hi) h)
  scan-Range lo (suc rounds) i hi le e fit h =
      let (v, q) = get_elem?-in_range values i (omega arith) in
      let (r', run, h') =
        scan-Range lo rounds (suc i) hi (omega arith) (omega arith) fit
          (absorb-Range lo i v le q h) in
      (r', rw q run, h')
