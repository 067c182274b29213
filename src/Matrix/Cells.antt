-- ===== src/Matrix/Cells.antt =====
-- The nested loops keep the extrema of the cells that they have read.
use multithreading_labs.Base.{
  ℕ, zero, suc, ◌+◌, ◌≤◌, ◌<◌, ◌≡◌, refl, sym, subst, ap, ◌∙◌, ◌⊎◌, inl, inr, some, arith, length,
  get_elem?-in_range, All, All-get_elem?, ℤ, dec_lt, size_mod,
}
use multithreading_labs.MinMax.Extrema.{
  MinMax, IsMinMax, of_value, of_value-IsMinMax, absorb-extends, IsMinMax-of_iff,
}
use multithreading_labs.Matrix.{Matrix, cell, scan_row, scan_rows}

-- What `Matrix::generateRandom` builds from positive sizes.
pub record IsShaped (test : Matrix) : Type 0 where
  pub has_row : 0 < test.rows
  pub has_col : 0 < test.cols
  pub height : length test.arr ≡ test.rows
  pub widths : All (λ row. length row ≡ test.cols) test.arr
  pub fits : test.rows < size_mod

module _ (test : Matrix) (shaped : IsShaped test) where
  -- A cell inside the matrix can be read.
  pub cell-in_range : (i j : ℕ) → i < test.rows → j < test.cols → (v : ℤ) × (cell test i j ≡ some v)
  unfolding cell
  cell-in_range i j hi hj =
      let (row, e) = get_elem?-in_range test.arr i (omega (arith, shaped.height)) in
      let width : length row ≡ test.cols = All-get_elem? _ test.arr i row shaped.widths e in
      let (v, q) = get_elem?-in_range row j (omega arith) in (v, rw e q)

module _ (test : Matrix) where
  -- The values in the rows from `lo` up to `i` and in the first `j` cells of row `i`.
  abbrev pub Read : ℕ → ℕ → ℕ → ℤ → Type 0
  Read lo i j v =
      (a : ℕ) × (b : ℕ) × (lo ≤ a)
      × ((a < i) × (b < test.cols) ⊎ (a ≡ i) × (b < j))
      × (cell test a b ≡ some v)

  -- The values in the rows from `lo` up to `hi`.
  abbrev pub Rows : ℕ → ℕ → ℤ → Type 0
  Rows lo hi v =
      (a : ℕ) × (b : ℕ) × (lo ≤ a) × (a < hi) × (b < test.cols) × (cell test a b ≡ some v)

  Read-suc-split :
      (lo i j : ℕ) (v w : ℤ)
      → cell test i j ≡ some v
      → Read lo i (suc j) w
      → Read lo i j w ⊎ (w ≡ v)
  Read-suc-split lo i j v w e (a, b, above, inl x, q) = inl (a, b, above, inl x, q)
  Read-suc-split lo i j v w e (a, b, above, inr (p, below), q) = elim (dec_lt b j) [
    | yes h ↦ inl (a, b, above, inr (p, h), q)
    | no h ↦
        let at_j : b ≡ j = omega arith in
        inr (cc (ap (cell test a) at_j, ap (λ k. cell test k j) p))
  ]

  Read-suc-join :
      (lo i j : ℕ) (v w : ℤ)
      → lo ≤ i
      → cell test i j ≡ some v
      → Read lo i j w ⊎ (w ≡ v)
      → Read lo i (suc j) w
  Read-suc-join lo i j v w le e (inl (a, b, above, inl x, q)) = (a, b, above, inl x, q)
  Read-suc-join lo i j v w le e (inl (a, b, above, inr (p, h), q)) =
      (a, b, above, inr (p, omega arith), q)
  Read-suc-join lo i j v w le e (inr p) = (i, j, le, inr (refl, omega arith), e ∙ ap some (sym p))

  -- The loops start from a value that they have not read yet, which `E` describes.
  abbrev pub Seen : (ℤ → Type 0) → ℕ → ℕ → ℕ → MinMax → Type 0
  Seen E lo i j = IsMinMax (λ v. E v ⊎ Read lo i j v)

  -- The inner loop reads the rest of its row.
  scan_row-Seen :
      (shaped : IsShaped test) (E : ℤ → Type 0) (lo i : ℕ)
      → lo ≤ i
      → i < test.rows
      → (rounds j : ℕ) {r : MinMax} → j + rounds ≡ test.cols
      → Seen E lo i j r
      → (r' : MinMax) × (scan_row test i j rounds r ≡ some r') × Seen E lo i test.cols r'
  unfolding scan_row
  scan_row-Seen shaped E lo i le lt zero j {r} e h =
      (r, refl, subst (λ k. Seen E lo i k r) (omega arith) h)
  scan_row-Seen shaped E lo i le lt (suc rounds) j {r} e h =
      let (v, q) = cell-in_range test shaped i j lt (omega arith) in
      let h' =
        absorb-extends v (λ w. Read-suc-split lo i j v w q) (λ w. Read-suc-join lo i j v w le q)
          h in
      let (r', run, done) = scan_row-Seen shaped E lo i le lt rounds (suc j) (omega arith) h' in
      (r', rw q run, done)

  Read-cols-split : (lo i : ℕ) (v : ℤ) → Read lo (suc i) 0 v → Read lo i test.cols v
  Read-cols-split lo i v (a, b, above, inl (x, y), q) = elim (dec_lt a i) [
    | yes h ↦ (a, b, above, inl (h, y), q)
    | no h ↦ (a, b, above, inr (omega arith, y), q)
  ]
  Read-cols-split lo i v (a, b, above, inr (p, x), q) = absurd (omega arith)

  Read-cols-join : (lo i : ℕ) (v : ℤ) → lo ≤ i → Read lo i test.cols v → Read lo (suc i) 0 v
  Read-cols-join lo i v le (a, b, above, inl (x, y), q) = (a, b, above, inl (omega arith, y), q)
  Read-cols-join lo i v le (a, b, above, inr (p, x), q) = (a, b, above, inl (omega arith, x), q)

  -- The outer loop reads its rows.
  pub scan_rows-Seen :
      (shaped : IsShaped test) (E : ℤ → Type 0) (lo hi : ℕ)
      → hi ≤ test.rows
      → (rounds i : ℕ) {r : MinMax} → lo ≤ i
      → i + rounds ≡ hi
      → Seen E lo i 0 r
      → (r' : MinMax) × (scan_rows test i rounds r ≡ some r') × Seen E lo hi 0 r'
  unfolding scan_rows
  scan_rows-Seen shaped E lo hi fit zero i {r} le e h =
      (r, refl, subst (λ k. Seen E lo k 0 r) (omega arith) h)
  scan_rows-Seen shaped E lo hi fit (suc rounds) i {r} le e h =
      let (s, run, seen) =
        scan_row-Seen shaped E lo i le (omega arith) test.cols 0 (omega arith) h in
      let h' : Seen E lo (suc i) 0 s =
        IsMinMax-of_iff (λ v x. elim x [ inl y ↦ inl y | inr y ↦ inr (Read-cols-split lo i v y) ])
          (λ v x. elim x [ inl y ↦ inl y | inr y ↦ inr (Read-cols-join lo i v le y) ]) seen in
      let (r', run', done) =
        scan_rows-Seen shaped E lo hi fit rounds (suc i) (omega arith) (omega arith) h' in
      (r', rw run run', done)

  Read-none : (lo : ℕ) (v : ℤ) → ¬ Read lo lo 0 v
  Read-none lo v (a, b, above, inl (x, y), e) = omega arith
  Read-none lo v (a, b, above, inr (p, x), e) = omega arith

  Seen-start : (lo : ℕ) (first : ℤ) → Seen (λ w. w ≡ first) lo lo 0 (of_value first)
  Seen-start lo first =
      IsMinMax-of_iff (λ v x. elim x [ inl y ↦ y | inr y ↦ absurd (Read-none lo v y) ])
        (λ v x. inl x) (of_value-IsMinMax first)

  Rows-split : (lo hi : ℕ) (first v : ℤ) → Rows lo hi v → (v ≡ first) ⊎ Read lo hi 0 v
  Rows-split lo hi first v (a, b, above, below, in_row, e) =
      inr (a, b, above, inl (below, in_row), e)

  Rows-join :
      (lo hi : ℕ) (first v : ℤ)
      → lo < hi
      → 0 < test.cols
      → cell test lo 0 ≡ some first
      → (v ≡ first) ⊎ Read lo hi 0 v
      → Rows lo hi v
  Rows-join lo hi first v lt has_col q (inl p) =
      (lo, 0, omega arith, lt, has_col, q ∙ ap some (sym p))
  Rows-join lo hi first v lt has_col q (inr (a, b, above, inl (x, y), e)) = (a, b, above, x, y, e)
  Rows-join lo hi first v lt has_col q (inr (a, b, above, inr (p, x), e)) = absurd (omega arith)

  -- From the first cell of row `lo` on, the outer loop finds the extrema of its rows.
  pub scan_rows-Rows :
      (shaped : IsShaped test) (lo rounds hi : ℕ) (first : ℤ)
      → lo + rounds ≡ hi
      → hi ≤ test.rows
      → lo < hi
      → cell test lo 0 ≡ some first
      → (r : MinMax) × (scan_rows test lo rounds (of_value first) ≡ some r)
        × IsMinMax (Rows lo hi) r
  scan_rows-Rows shaped lo rounds hi first e fit lt q =
      let (r, run, h) =
        scan_rows-Seen shaped (λ w. w ≡ first) lo hi fit rounds lo (omega arith) e
          (Seen-start lo first) in
      (
        r,
        run,
        IsMinMax-of_iff (λ v. Rows-split lo hi first v)
            (λ v. Rows-join lo hi first v lt shaped.has_col q) h,
      )
