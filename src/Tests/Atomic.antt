-- ===== src/Tests/Atomic.antt =====
-- The search with atomics.
use multithreading_labs.Base.{
  suc, zero, ◌≤ℤ◌, ◌==◌, true, ℕ, ◌*◌, ◌≡◌, ◌≤◌, refl, some, false, List, [], ◌∷◌, ◌++◌, ℤ, pos,
  arith, length, replicate,
}
use multithreading_labs.Blocks.{blocks}
use multithreading_labs.Blocks.Slices.{IsDone, concat}
use multithreading_labs.MinCount.{MinResult, find_min_and_count}
use multithreading_labs.MinCount
use multithreading_labs.MinCount.{rounds, int_max}
use multithreading_labs.Random.{draw_values}
use multithreading_labs.MinAtomic.Benchmark.{
  generate_array, logical_cores, compare_searches, compare_searches-verdicts,
}
use multithreading_labs.MinAtomic.{
  Turn, turns, started, find_min_and_count_parallel_atomic, load, exchange, act,
}
use multithreading_labs.MinAtomic.Minimum.{find_min_and_count_parallel_atomic-min}
use multithreading_labs.MinAtomic.Finish.{turns-finish}
use multithreading_labs.MinAtomic.Count.{SeesNewest, find_min_and_count_parallel_atomic-loses_count}

abbrev two : List ℤ
two = pos 3 ∷ pos 1 ∷ []

abbrev by_thread : ℕ → Turn
by_thread i = record { thread = i; fails = false; age = 2 }

-- The second thread first, and then the first one.
abbrev one_by_one : List Turn
one_by_one = replicate 4 (by_thread 1) ++ replicate 4 (by_thread 0)

one_by_one-IsDone : IsDone (turns (started two 2) one_by_one).left
unfolding started blocks turns load exchange act
one_by_one-IsDone = (refl, (refl, tt))

find_min_and_count_parallel_atomic-min_example :
    (r : MinResult) × (find_min_and_count_parallel_atomic two 2 one_by_one ≡ some r)
    × (r.min_value ≡ (find_min_and_count two).min_value)
find_min_and_count_parallel_atomic-min_example =
    find_min_and_count_parallel_atomic-min two 2 one_by_one (omega arith) (omega arith)
      (omega arith, (omega arith, tt)) one_by_one-IsDone

turns-finish_example :
    let s = turns (started two 2) (by_thread 0 ∷ by_thread 1 ∷ []) in
    (others : List Turn) × (length others ≤ 4 * length (concat s.left))
    × IsDone (turns s others).left
turns-finish_example = turns-finish two 2 (by_thread 0 ∷ by_thread 1 ∷ [])

find_min_and_count_parallel_atomic-loses_count_example :
    (schedule : List Turn) × IsDone (turns (started (pos 1 ∷ pos 1 ∷ []) 2) schedule).left
    × SeesNewest (started (pos 1 ∷ pos 1 ∷ []) 2) schedule
    × (find_min_and_count_parallel_atomic (pos 1 ∷ pos 1 ∷ []) 2 schedule
        ≡ some (record { min_value = pos 1; count = 1 }))
    × (find_min_and_count (pos 1 ∷ pos 1 ∷ []) ≡ record { min_value = pos 1; count = 2 })
find_min_and_count_parallel_atomic-loses_count_example =
    find_min_and_count_parallel_atomic-loses_count (pos 1) refl

-- Two threads, and the array 3, 1.
abbrev three_then_one : ℕ → ℤ
three_then_one zero = pos 3
three_then_one (suc i) = pos 1

at_most_three : (i : ℕ) → three_then_one i ≤ℤ int_max
at_most_three zero = omega arith
at_most_three (suc i) = omega arith

drawn_mutex-IsDone :
    IsDone
      (rounds
        (MinCount.started (generate_array three_then_one 2) (logical_cores 2))
        (1 ∷ 0 ∷ [])).left
unfolding MinCount.started rounds generate_array draw_values blocks
drawn_mutex-IsDone = (refl, (refl, tt))

drawn_atomic-IsDone :
    IsDone (turns (started (generate_array three_then_one 2) (logical_cores 2)) one_by_one).left
unfolding started turns generate_array draw_values blocks load exchange act
drawn_atomic-IsDone = (refl, (refl, tt))

compare_searches-verdicts_example :
    (r : MinResult) × (find_min_and_count_parallel_atomic
        (generate_array three_then_one 2)
        (logical_cores 2)
        one_by_one
      ≡ some r)
    × (compare_searches 2 three_then_one (1 ∷ 0 ∷ []) one_by_one 2
        ≡ some (record {
          mutex_matches = true;
          atomic_matches = (find_min_and_count (generate_array three_then_one 2)).count == r.count;
        }))
compare_searches-verdicts_example =
    compare_searches-verdicts 2 three_then_one (1 ∷ 0 ∷ []) one_by_one 2 (omega arith) at_most_three
      drawn_mutex-IsDone drawn_atomic-IsDone
