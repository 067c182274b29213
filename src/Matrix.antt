-- ===== src/Matrix.antt =====
-- lab_1/main.cpp and lab_1/matrix.h: the minimum and the maximum of a matrix of rows. `none` is
-- undefined behaviour: a read past the end of a vector, or a division by zero.
pub mod Cells
pub mod Extremes
pub mod Benchmark
use multithreading_labs.Base.{
  ℕ, zero, suc, ◌-◌, ◌*◌, ◌/◌, ◌<◌, Option, none, some, List, [], ◌∷◌, ◌>>=◌, get_elem?, replicate,
  ℤ, pos, ltb, ◌==◌, if◌then◌else◌,
}
use multithreading_labs.Blocks.{Block, blocks}
use multithreading_labs.Fork.{finish}
use multithreading_labs.MinMax.Extrema.{MinMax, of_value, absorb}
use multithreading_labs.MinMax.{gather}

pub record Matrix : Type 0 where
  pub rows : ℕ
  pub cols : ℕ
  pub arr : List (List ℤ)

-- `test.arr[i][j]`
unfoldable pub cell : Matrix → ℕ → ℕ → Option ℤ
cell test i j = get_elem? test.arr i >>= λ row. get_elem? row j

-- The inner loop, from column `j` on.
unfoldable pub scan_row : Matrix → ℕ → ℕ → ℕ → MinMax → Option MinMax
scan_row test i j zero result = some result
scan_row test i j (suc rounds) result =
    cell test i j >>= λ value. scan_row test i (suc j) rounds (absorb result value)

-- The outer loop, from row `i` on.
unfoldable pub scan_rows : Matrix → ℕ → ℕ → MinMax → Option MinMax
scan_rows test i zero result = some result
scan_rows test i (suc rounds) result =
    scan_row test i 0 test.cols result >>= λ r. scan_rows test (suc i) rounds r

unfoldable pub find_min_max : Matrix → Option MinMax
find_min_max test = cell test 0 0 >>= λ first. scan_rows test 0 test.rows (of_value first)

unfoldable pub min_max_worker : Matrix → ℕ → ℕ → Option MinMax
min_max_worker test start_row end_row = cell test start_row 0 >>= λ first.
    scan_rows test start_row (end_row - start_row) (of_value first)

-- What ends up in a thread's slot. With no row left no thread is started, and the slot gets the
-- first cell.
unfoldable pub local_result : Matrix → Block → Option MinMax
local_result test rows =
    if ltb rows.start rows.stop
    then min_max_worker test rows.start rows.stop
    else (cell test 0 0 >>= λ first. some (of_value first))

-- `order` is the order in which the slots are filled.
unfoldable pub find_min_max_parallel : Matrix → ℕ → List ℕ → Option MinMax
find_min_max_parallel test num_threads order =
    if num_threads == 0
    then none
    else (finish (λ i. get_elem? (blocks test.rows num_threads) i >>= local_result test) order
          (replicate num_threads (of_value (pos 0)))
        >>= gather)

-- The numbers of threads that `main` tries, of what `std::thread::hardware_concurrency` returns
-- (0 where it is not known).
unfoldable pub thread_configs : ℕ → List ℕ
thread_configs hardware_concurrency =
    let physical_cores = if hardware_concurrency / 2 == 0 then 10 else hardware_concurrency / 2 in
    let logical_cores = if hardware_concurrency == 0 then 16 else hardware_concurrency in
    physical_cores / 2
    ∷ physical_cores
    ∷ logical_cores
    ∷ logical_cores * 2
    ∷ logical_cores * 4
    ∷ logical_cores * 8
    ∷ logical_cores * 16
    ∷ []
