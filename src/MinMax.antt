-- ===== src/MinMax.antt =====
-- lab_4/cpp/include/minmax.h: the search for the minimum and the maximum of a matrix that is stored
-- by rows in one vector. `none` is undefined behaviour: a read past the end of a vector.
pub mod Extrema
pub mod Scan
pub mod Sequential
pub mod Gather
pub mod Parallel
use multithreading_labs.Base.{
  ℕ, zero, suc, ◌+◌, ◌-◌, ◌≤◌, ◌<◌, ◌≡◌, Option, none, some, List, [], ◌∷◌, ◌>>=◌, length,
  get_elem?, replicate, mul_size, add_size, ℤ, pos, ltb, ◌==◌, ◌||◌, if◌then◌else◌,
}
use multithreading_labs.Blocks.{Block, blocks}
use multithreading_labs.Fork.{finish}
use Extrema.{MinMax, of_value, absorb, merge}

-- `for (index = i; index < i + rounds; ++index)` over `data[index]`.
unfoldable pub scan : List ℤ → ℕ → ℕ → MinMax → Option MinMax
scan values i zero result = some result
scan values i (suc rounds) result =
    get_elem? values i >>= λ v. scan values (suc i) rounds (absorb result v)

unfoldable pub find_min_max_sequential : List ℤ → Option MinMax
unfolding scan
find_min_max_sequential values =
    get_elem? values 0 >>= λ first. scan values 1 (length values - 1) (of_value first)

-- The body of a thread, for its rows.
unfoldable pub worker : List ℤ → ℕ → Block → Option MinMax
unfolding scan
worker values cols rows =
    let start_index = mul_size rows.start cols in
    let end_index = mul_size rows.stop cols in
    get_elem? values start_index >>= λ first.
    scan values (add_size start_index 1) (end_index - add_size start_index 1) (of_value first)

-- The loop over `localResults` from index 1 on.
unfoldable pub merge_all : MinMax → List MinMax → MinMax
merge_all result [] = result
merge_all result (r ∷ rs) = merge_all (merge result r) rs

unfoldable pub gather : List MinMax → Option MinMax
unfolding merge_all
gather [] = none
gather (r ∷ rs) = some (merge_all r rs)

-- A call with no thread counts as a call with one, and no thread is left without a row.
unfoldable pub effective_threads : ℕ → ℕ → ℕ
effective_threads rows num_threads =
    let at_least_one = if num_threads == 0 then 1 else num_threads in
    if ltb rows at_least_one then rows else at_least_one

-- The part with threads. `order` is the order in which they finish.
unfoldable pub fork_join : List ℤ → ℕ → ℕ → ℕ → List ℕ → Option MinMax
unfolding finish worker gather
fork_join values rows cols num_threads order =
    finish (λ i. get_elem? (blocks rows num_threads) i >>= worker values cols) order
      (replicate num_threads (of_value (pos 0)))
    >>= gather

unfoldable pub find_min_max_parallel : List ℤ → ℕ → ℕ → ℕ → List ℕ → Option MinMax
unfolding fork_join find_min_max_sequential effective_threads
find_min_max_parallel [] rows cols num_threads order = some (of_value (pos 0))
find_min_max_parallel (v ∷ values) rows cols num_threads order =
    if (num_threads == 0 || num_threads == 1) || rows == 1
    then find_min_max_sequential (v ∷ values)
    else fork_join (v ∷ values) rows cols (effective_threads rows num_threads) order
