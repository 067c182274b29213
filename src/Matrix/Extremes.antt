-- ===== src/Matrix/Extremes.antt =====
-- `findMinMax` and `findMinMaxParallel` of lab 1.
use multithreading_labs.Base.{
  ℕ, ◌-◌, ◌≤◌, ◌<◌, ◌≡◌, refl, sym, subst, ap, ◌↔◌, false, Has, ◌∙◌, ◌⊎◌, inl, inr, none, some,
  List, arith, ◌>>=◌, get_elem?, get_elem?-in_range, get_elem?-bound, length-replicate, replicate,
  ℤ, pos, ◌==◌, lt→ltb, dec_lt,
}
use multithreading_labs.Blocks.{Block, blocks}
use multithreading_labs.Blocks.Tiling.{
  Tiles, blocks-Tiles, length-blocks, Tiles-within, Tiles-cover,
}
use multithreading_labs.Fork.{finish, finish_lem, IsJoined}
use multithreading_labs.MinMax.Extrema.{
  MinMax, of_value, of_value-IsMinMax, IsMinMax, IsMinMax-of_iff, IsMinMax-unique,
}
use multithreading_labs.MinMax.Gather.{Union, gather-IsMinMax, Found-of_slots}
use multithreading_labs.MinMax.{gather}
use multithreading_labs.Matrix.{
  Matrix, cell, find_min_max, min_max_worker, local_result, find_min_max_parallel, thread_configs,
}
use multithreading_labs.Matrix.Cells.{IsShaped, cell-in_range, Rows, scan_rows-Rows}

-- `r` holds the least and the greatest value of the matrix.
abbrev pub IsExtremaOf : Matrix → MinMax → Type 0
IsExtremaOf test r = IsMinMax (Rows test 0 test.rows) r

-- On a matrix with at least one row and one column, `findMinMax` reads no cell out of range and
-- returns the least and the greatest value.
pub find_min_max-IsExtremaOf :
    (test : Matrix)
    → IsShaped test
    → (r : MinMax) × (find_min_max test ≡ some r) × IsExtremaOf test r
unfolding find_min_max
find_min_max-IsExtremaOf test shaped =
    let (v, q) = cell-in_range test shaped 0 0 shaped.has_row shaped.has_col in
    let (r, run, h) =
      scan_rows-Rows test shaped 0 test.rows test.rows v (omega arith) (omega arith) shaped.has_row
        q in
    (r, rw q run, h)

min_max_worker-Rows :
    (test : Matrix) (lo hi : ℕ)
    → IsShaped test
    → lo < hi
    → hi ≤ test.rows
    → (r : MinMax) × (min_max_worker test lo hi ≡ some r) × IsMinMax (Rows test lo hi) r
unfolding min_max_worker
min_max_worker-Rows test lo hi shaped lt fit =
    let (v, q) = cell-in_range test shaped lo 0 (omega arith) shaped.has_col in
    let (r, run, h) = scan_rows-Rows test shaped lo (hi - lo) hi v (omega arith) fit lt q in
    (r, rw q run, h)

-- The values that a slot stands for: those of the thread's rows, or the first cell.
abbrev Share : Matrix → Block → ℤ → Type 0
Share test b v =
    (b.start < b.stop) × Rows test b.start b.stop v ⊎ (b.stop ≤ b.start) × (cell test 0 0 ≡ some v)

Share-Rows :
    (test : Matrix) (b : Block) (v : ℤ)
    → b.start < b.stop
    → Share test b v
    → Rows test b.start b.stop v
Share-Rows test b v lt (inl (x, y)) = y
Share-Rows test b v lt (inr (x, y)) = absurd (omega arith)

Share-first :
    (test : Matrix) (b : Block) (v w : ℤ)
    → b.stop ≤ b.start
    → cell test 0 0 ≡ some w
    → Share test b v
    → v ≡ w
Share-first test b v w ge e (inl (x, y)) = absurd (omega arith)
Share-first test b v w ge e (inr (x, y)) = cc

local_result-Share :
    (test : Matrix) (b : Block)
    → IsShaped test
    → b.stop ≤ test.rows
    → (r : MinMax) × (local_result test b ≡ some r) × IsMinMax (Share test b) r
unfolding local_result
local_result-Share test b shaped fit = elim (dec_lt b.start b.stop) [
  | yes lt ↦
      let (r, run, h) = min_max_worker-Rows test b.start b.stop shaped lt fit in
      (
        r,
        rw (lt→ltb _ _ lt) run,
        IsMinMax-of_iff (λ v. Share-Rows test b v lt) (λ v x. inl (lt, x)) h,
      )
  | no ge ↦
      let (v, q) = cell-in_range test shaped 0 0 shaped.has_row shaped.has_col in
      (
        of_value v,
        ground (arith, q),
        IsMinMax-of_iff (λ w. Share-first test b w v (omega arith) q)
            (λ w p. inr (omega arith, q ∙ ap some (sym p))) (of_value-IsMinMax v),
      )
]

-- The values that slot `i` stands for.
abbrev Slot : Matrix → List Block → ℕ → ℤ → Type 0
Slot test bs i v = (b : Block) × (get_elem? bs i ≡ some b) × Share test b v

Slot-Share :
    (test : Matrix) (bs : List Block) (i : ℕ) (b : Block) (v : ℤ)
    → get_elem? bs i ≡ some b
    → Slot test bs i v
    → Share test b v
Slot-Share test bs i b v e (c, e', x) = let same : c ≡ b = cc in subst (λ k. Share test k v) same x

module _ (test : Matrix) (threads : ℕ) (shaped : IsShaped test) (some_thread : 0 < threads) where
  abbrev bs : List Block
  bs = blocks test.rows threads

  tiles : Tiles 0 test.rows bs
  tiles = blocks-Tiles test.rows threads some_thread shaped.fits

  Slot-IsMinMax :
      (i : ℕ)
      → i < threads
      → (r : MinMax) × ((get_elem? bs i >>= local_result test) ≡ some r)
        × IsMinMax (Slot test bs i) r
  Slot-IsMinMax i lt =
      let (b, e) = get_elem?-in_range bs i (omega (arith, length-blocks test.rows threads)) in
      let (r, run, h) =
        local_result-Share test b shaped (Tiles-within 0 test.rows bs i b tiles e).1 in
      (r, rw e run, IsMinMax-of_iff (λ v. Slot-Share test bs i b v e) (λ v x. (b, e, x)) h)

  slots-cover : (v : ℤ) → Rows test 0 test.rows v → Union threads (Slot test bs) v
  slots-cover v (a, c, above, below, in_row, e) =
      let (i, b, q, from, to) = Tiles-cover 0 test.rows bs a tiles above below in
      (
        i,
        omega (arith, get_elem?-bound bs i b q, length-blocks test.rows threads),
        (b, q, inl (omega arith, (a, c, from, to, in_row, e))),
      )

  slots-within : (v : ℤ) → Union threads (Slot test bs) v → Rows test 0 test.rows v
  slots-within v (i, lt, (b, e, inl (x, (a, c, above, below, in_row, q)))) =
      let last = (Tiles-within 0 test.rows bs i b tiles e).1 in
      (a, c, omega arith, omega arith, in_row, q)
  slots-within v (i, lt, (b, e, inr (x, q))) =
      (0, 0, omega arith, shaped.has_row, shaped.has_col, q)

  gathered-IsExtremaOf :
      (order : List ℕ)
      → IsJoined threads order
      → (r : MinMax) × ((finish
              (λ i. get_elem? bs i >>= local_result test)
              order
              (replicate threads (of_value (pos 0)))
            >>= gather)
          ≡ some r)
        × IsExtremaOf test r
  gathered-IsExtremaOf order j =
      let (slots, run, len, stored) =
        finish_lem (λ i. get_elem? bs i >>= local_result test) threads
          (λ i lt. let (r, e, h) = Slot-IsMinMax i lt in (r, e)) order
          (replicate threads (of_value (pos 0))) j.known
          (length-replicate threads (of_value (pos 0))) in
      let (r, g, h) = gather-IsMinMax (Slot test bs) slots (omega arith) (
        Found-of_slots (Slot test bs) slots (λ i lt.
          let (s, e, p) = Slot-IsMinMax i (omega arith) in
          (s, stored i (inl (j.joined i (omega arith))) ∙ e, p))) in
      (
        r,
        rw run g,
        IsMinMax-of_iff (λ v x. rw len (slots-cover v x)) (λ v x. slots-within v (rw len at x)) h,
      )

-- With at least one thread, and whatever the order in which the threads finish, the parallel search
-- of a matrix that has a row and a column reads no cell out of range and returns what the
-- single-threaded one returns: the least and the greatest value. There may be more threads than
-- rows.
pub find_min_max_parallel-find_min_max :
    (test : Matrix) (num_threads : ℕ) (order : List ℕ)
    → IsShaped test
    → 0 < num_threads
    → IsJoined num_threads order
    → (r : MinMax) × (find_min_max_parallel test num_threads order ≡ some r)
      × (find_min_max test ≡ some r)
      × IsExtremaOf test r
unfolding find_min_max_parallel
find_min_max_parallel-find_min_max test num_threads order shaped some_thread j =
    let (r, e, h) = find_min_max-IsExtremaOf test shaped in
    let (s, e', h') = gathered-IsExtremaOf test num_threads shaped some_thread order j in
    let same : s ≡ r = IsMinMax-unique h' h in
    let nonzero : (num_threads == 0) ≡ false = ground arith in (r, rw nonzero (rw same at e'), e, h)

-- A search with no thread divides by zero, and `main` asks for one exactly when
-- `std::thread::hardware_concurrency` returns 2 or 3.
pub thread_configs-zero :
    (test : Matrix) (order : List ℕ) (hardware : ℕ)
    → (find_min_max_parallel test 0 order ≡ none)
      × (Has 0 (thread_configs hardware) ↔ (hardware ≡ 2) ⊎ (hardware ≡ 3))
unfolding thread_configs find_min_max_parallel
thread_configs-zero test order hardware = (refl, (ground arith, ground arith))
