-- ===== src/MinMax/Parallel.antt =====
-- `findMinMaxParallel`: whatever the number of threads and the order in which they finish.
use multithreading_labs.Base.{
  ℕ, suc, ◌+◌, ◌-◌, ◌*◌, ◌/◌, ◌≤◌, ◌<◌, ◌≡◌, ◌∙◌, inl, inr, some, List, [], ◌∷◌, arith, ◌>>=◌,
  length, get_elem?, get_elem?-in_range, get_elem?-bound, length-replicate, replicate, size_mod,
  mul_size, add_size, ℤ, pos, Bool-cases, ◌==◌, ◌||◌,
}
use multithreading_labs.Blocks.{Block, blocks}
use multithreading_labs.Blocks.Tiling.{
  Tiles, blocks-Tiles, blocks-IsEven, length-blocks, Tiles-within, Tiles-cover, IsEven-get_elem?,
}
use multithreading_labs.Fork.{finish_lem, IsJoined}
use multithreading_labs.MinMax.Extrema.{
  MinMax, of_value, IsMinMax, IsMinMax-of_iff, IsMinMax-unique,
}
use multithreading_labs.MinMax.Scan.{Range, of_value-Range, scan-Range}
use multithreading_labs.MinMax.Sequential.{IsExtremaOf, find_min_max_sequential-IsExtremaOf}
use multithreading_labs.MinMax.Gather.{Union, gather-IsMinMax, Found-of_slots}
use multithreading_labs.MinMax.{
  scan, worker, fork_join, effective_threads, find_min_max_sequential, find_min_max_parallel,
}

-- The vector holds `rows` rows of `cols` values, and its length is a `size_t`.
pub record IsMatrix (values : List ℤ) (rows cols : ℕ) : Type 0 where
  pub has_row : 0 < rows
  pub has_col : 0 < cols
  pub area : length values ≡ rows * cols
  pub fits : length values < size_mod

rows-lt-size_mod : {values : List ℤ} {rows cols : ℕ} → IsMatrix values rows cols → rows < size_mod
rows-lt-size_mod m = grind arith

-- What a thread runs, where none of its index computations wraps.
worker-scan :
    (values : List ℤ) (cols lo hi : ℕ) (v : ℤ) (b : Block)
    → mul_size b.start cols ≡ lo
    → mul_size b.stop cols ≡ hi
    → add_size lo 1 ≡ suc lo
    → get_elem? values lo ≡ some v
    → worker values cols b ≡ scan values (suc lo) (hi - suc lo) (of_value v)
unfolding worker
worker-scan values cols lo hi v b low high next q = rw (low, high, next, q)

-- One thread finds the extrema of its rows.
worker-Range :
    (values : List ℤ) (rows cols : ℕ) (b : Block)
    → IsMatrix values rows cols
    → b.start < b.stop
    → b.stop ≤ rows
    → (r : MinMax) × (worker values cols b ≡ some r)
      × IsMinMax (Range values (b.start * cols) (b.stop * cols)) r
worker-Range values rows cols b m nonempty within =
    let step : b.start * cols + cols ≤ b.stop * cols = grind (arith, m.has_col) in
    let last : b.stop * cols ≤ rows * cols = grind arith in
    let fits : rows * cols < size_mod = omega (arith, m.area, m.fits) in
    let lo = b.start * cols in
    let hi = b.stop * cols in
    let (v, q) = get_elem?-in_range values lo (omega (arith, m.area, m.has_col)) in
    let (r, run, h) =
      scan-Range values lo (hi - suc lo) (suc lo) hi (omega arith) (omega (arith, m.has_col))
        (omega (arith, m.area)) (of_value-Range values lo v q) in
    (
      r,
      worker-scan values cols lo hi v b (omega (arith, m.has_col)) (omega arith)
            (omega (arith, m.has_col)) q
          ∙ run,
      h,
    )

-- The values that thread `i` reads.
abbrev Share : List ℤ → ℕ → List Block → ℕ → ℤ → Type 0
Share values cols bs i v =
    (b : Block) × (get_elem? bs i ≡ some b) × Range values (b.start * cols) (b.stop * cols) v

Share-Range :
    (values : List ℤ) (cols : ℕ) (bs : List Block) (i : ℕ) (b : Block) (v : ℤ)
    → get_elem? bs i ≡ some b
    → Share values cols bs i v
    → Range values (b.start * cols) (b.stop * cols) v
Share-Range values cols bs i b v e (c, e', (k, above, below, q)) =
    let same : c ≡ b = cc in (k, rw (← same) above, rw (← same) below, q)

start-le : (start cols k : ℕ) → start ≤ k / cols → start * cols ≤ k
start-le start cols k h = grind arith

lt-stop : (stop cols k : ℕ) → 0 < cols → k / cols < stop → k < stop * cols
lt-stop stop cols k has_col h = grind arith

module _ (values : List ℤ) (rows cols threads : ℕ) (m : IsMatrix values rows cols)
    (some_thread : 0 < threads) (enough_rows : threads ≤ rows) where
  abbrev bs : List Block
  bs = blocks rows threads

  tiles : Tiles 0 rows bs
  tiles = blocks-Tiles rows threads some_thread (rows-lt-size_mod m)

  block-nonempty : (i : ℕ) (b : Block) → get_elem? bs i ≡ some b → b.start < b.stop
  block-nonempty i b e =
      let even =
        IsEven-get_elem? (rows / threads) bs i b
          (blocks-IsEven rows threads some_thread (rows-lt-size_mod m)) e in
      let one : 1 ≤ rows / threads = grind arith in omega (arith, even.0)

  -- Each thread finds the extrema of its share.
  Share-IsMinMax :
      (i : ℕ)
      → i < threads
      → (r : MinMax) × ((get_elem? bs i >>= worker values cols) ≡ some r)
        × IsMinMax (Share values cols bs i) r
  Share-IsMinMax i lt =
      let (b, e) = get_elem?-in_range bs i (rw (length-blocks rows threads) lt) in
      let (r, run, h) =
        worker-Range values rows cols b m (block-nonempty i b e)
          (Tiles-within 0 rows bs i b tiles e).1 in
      (r, rw e run, IsMinMax-of_iff (λ v. Share-Range values cols bs i b v e) (λ v x. (b, e, x)) h)

  -- Together the shares are the whole matrix.
  shares-cover : (v : ℤ) → Range values 0 (length values) v → Union threads (Share values cols bs) v
  shares-cover v (k, above, below, e) =
      let (i, b, q, from, to) =
        Tiles-cover 0 rows bs (k / cols) tiles (omega arith) (grind (arith, m.area, m.has_col)) in
      (
        i,
        omega (arith, get_elem?-bound bs i b q, length-blocks rows threads),
        (b, q, (k, start-le b.start cols k from, lt-stop b.stop cols k m.has_col to, e)),
      )

  shares-within :
      (v : ℤ) → Union threads (Share values cols bs) v → Range values 0 (length values) v
  shares-within v (i, lt, (b, e, (k, above, below, q))) =
      let last : b.stop * cols ≤ rows * cols =
        grind (arith, (Tiles-within 0 rows bs i b tiles e).1) in
      (k, omega arith, omega (arith, m.area), q)

  pub fork_join-IsExtremaOf :
      (order : List ℕ)
      → IsJoined threads order
      → (r : MinMax) × (fork_join values rows cols threads order ≡ some r) × IsExtremaOf values r
  unfolding fork_join
  fork_join-IsExtremaOf order j =
      let (slots, run, len, stored) =
        finish_lem (λ i. get_elem? bs i >>= worker values cols) threads
          (λ i lt. let (r, e, h) = Share-IsMinMax i lt in (r, e)) order
          (replicate threads (of_value (pos 0))) j.known
          (length-replicate threads (of_value (pos 0))) in
      let (r, g, h) = gather-IsMinMax (Share values cols bs) slots (omega arith) (
        Found-of_slots (Share values cols bs) slots (λ i lt.
          let (s, e, p) = Share-IsMinMax i (omega arith) in
          (s, stored i (inl (j.joined i (omega arith))) ∙ e, p))) in
      (
        r,
        rw run g,
        IsMinMax-of_iff (λ v x. rw len (shares-cover v x)) (λ v x. shares-within v (rw len at x)) h,
      )

effective_threads_bounds :
    (rows num_threads : ℕ)
    → 0 < rows
    → (0 < effective_threads rows num_threads) × (effective_threads rows num_threads ≤ rows)
unfolding effective_threads
effective_threads_bounds rows num_threads h = ground arith

-- For every number of threads, none included, and every order in which they finish, the parallel
-- search of a matrix reads nothing out of range and returns what the sequential search returns: the
-- least and the greatest value. It is assumed that the vector holds `rows * cols` values, at least
-- one and fewer than 2 ^ 64, and that `order` lists the threads that are joined.
pub find_min_max_parallel-IsExtremaOf :
    (values : List ℤ) (rows cols num_threads : ℕ) (order : List ℕ)
    → IsMatrix values rows cols
    → IsJoined (effective_threads rows num_threads) order
    → (r : MinMax) × (find_min_max_parallel values rows cols num_threads order ≡ some r)
      × (find_min_max_sequential values ≡ some r)
      × IsExtremaOf values r
unfolding find_min_max_parallel
find_min_max_parallel-IsExtremaOf [] rows cols num_threads order m j =
    absurd (grind (arith, m.area, m.has_row, m.has_col))
find_min_max_parallel-IsExtremaOf (v ∷ values) rows cols num_threads order m j =
    let (r, e, h) = find_min_max_sequential-IsExtremaOf (v ∷ values) (omega arith) in
    elim (Bool-cases ((num_threads == 0 || num_threads == 1) || rows == 1)) [
      | inl short ↦ (r, rw short e, e, h)
      | inr forks ↦
          let (some_thread, enough_rows) = effective_threads_bounds rows num_threads m.has_row in
          let (s, e', h') =
            fork_join-IsExtremaOf (v ∷ values) rows cols (effective_threads rows num_threads) m
              some_thread enough_rows order j in
          let same : s ≡ r = IsMinMax-unique h' h in (r, rw forks (rw same at e'), e, h)
    ]
