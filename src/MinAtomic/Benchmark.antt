-- ===== src/MinAtomic/Benchmark.antt =====
-- lab_2/main.cpp, `main`: the three searches on a random array, and the comparison of their results;
-- and `Array::generateRandom` of lab_2/array.h.
use multithreading_labs.Base.{
  ℕ, ◌<◌, ◌≡◌, refl, ap, ◌∙◌, Option, some, Bool, true, ◌&&◌, List, ◌>>=◌, arith, ℤ, ◌==ℤ◌, ◌≤ℤ◌,
  ◌==◌, if◌then◌else◌, size_mod,
}
use multithreading_labs.Blocks.Slices.{IsDone}
use multithreading_labs.Random.{draw_values, length-draw_values, All-draw_values}
use multithreading_labs.MinCount.{
  MinResult, int_max, find_min_and_count, find_min_and_count_parallel_mutex, rounds,
}
use multithreading_labs.MinCount
use multithreading_labs.MinCount.Mutex.{find_min_and_count_parallel_mutex-sequential}
use multithreading_labs.MinAtomic.{Turn, turns, find_min_and_count_parallel_atomic}
use multithreading_labs.MinAtomic
use multithreading_labs.MinAtomic.Minimum.{find_min_and_count_parallel_atomic-min}

unfoldable pub generate_array : (ℕ → ℤ) → ℕ → List ℤ
generate_array draws size = draw_values draws 0 size

-- 0 stands for a number that is not known.
abbrev pub logical_cores : ℕ → ℕ
logical_cores hardware_concurrency = if hardware_concurrency == 0 then 16 else hardware_concurrency

abbrev pub matches : MinResult → MinResult → Bool
matches seq_result other =
    seq_result.min_value ==ℤ other.min_value && seq_result.count == other.count

-- What a round of the main loop prints of the results.
pub record Comparison : Type 0 where
  pub mutex_matches : Bool
  pub atomic_matches : Bool

-- A round of the main loop, with the schedules that the threads of the two searches run by.
unfoldable pub compare_searches : ℕ → (ℕ → ℤ) → List ℕ → List Turn → ℕ → Option Comparison
unfolding generate_array
compare_searches hardware_concurrency draws mutex_schedule atomic_schedule array_size =
    let array = generate_array draws array_size in
    let threads = logical_cores hardware_concurrency in
    let seq_result = find_min_and_count array in
    find_min_and_count_parallel_mutex array threads mutex_schedule >>= λ par_result.
    find_min_and_count_parallel_atomic array threads atomic_schedule >>= λ atomic_result.
    some (record {
      mutex_matches = matches seq_result par_result;
      atomic_matches = matches seq_result atomic_result;
    })

matches-same : (r : MinResult) → matches r r ≡ true
matches-same r = ground arith

matches-min : (r s : MinResult) → s.min_value ≡ r.min_value → matches r s ≡ (r.count == s.count)
matches-min r s e = ground arith

logical_cores-positive : (hardware : ℕ) → 0 < logical_cores hardware
logical_cores-positive hardware = ground arith

-- Whatever `hardware_concurrency` returns, for an array of fewer than 2 ^ 64 random values that are at
-- most `INT_MAX`, and under all schedules in which the threads of both searches finish: `main` prints
-- that the search with the mutex matches the sequential one, and of the search with atomics it prints
-- whether the counts are equal, since the minimum always is.
pub compare_searches-verdicts :
    (hardware : ℕ) (draws : ℕ → ℤ) (mutex_schedule : List ℕ) (atomic_schedule : List Turn)
    (array_size : ℕ)
    → array_size < size_mod
    → ((i : ℕ) → draws i ≤ℤ int_max)
    → IsDone
        (rounds
          (MinCount.started (generate_array draws array_size) (logical_cores hardware))
          mutex_schedule).left
    → IsDone
        (turns
          (MinAtomic.started (generate_array draws array_size) (logical_cores hardware))
          atomic_schedule).left
    → (r : MinResult) × (find_min_and_count_parallel_atomic
          (generate_array draws array_size)
          (logical_cores hardware)
          atomic_schedule
        ≡ some r)
      × (compare_searches hardware draws mutex_schedule atomic_schedule array_size
          ≡ some (record {
            mutex_matches = true;
            atomic_matches =
                (find_min_and_count (generate_array draws array_size)).count == r.count;
          }))
unfolding compare_searches generate_array
compare_searches-verdicts hardware draws mutex_schedule atomic_schedule array_size fits small done
      done' =
    let array = generate_array draws array_size in
    let threads = logical_cores hardware in
    let size = length-draw_values draws 0 array_size in
    let below = All-draw_values (λ v. v ≤ℤ int_max) draws 0 array_size small in
    let some_thread = logical_cores-positive hardware in
    let mutex =
      find_min_and_count_parallel_mutex-sequential array threads mutex_schedule some_thread
        (omega (arith, size, fits)) below done in
    let (r, atomic, minimum) =
      find_min_and_count_parallel_atomic-min array threads atomic_schedule some_thread
        (omega (arith, size, fits)) below done' in
    let same = matches-same (find_min_and_count array) in
    let counts = matches-min (find_min_and_count array) r minimum in
    let compared : compare_searches hardware draws mutex_schedule atomic_schedule array_size
        ≡ some (record {
          mutex_matches = matches (find_min_and_count array) (find_min_and_count array);
          atomic_matches = matches (find_min_and_count array) r;
        }) =
      rw (compare_searches, mutex, atomic) refl in
    (
      r,
      atomic,
      compared
          ∙ ap
              (λ b. some (record {
                mutex_matches = b;
                atomic_matches = matches (find_min_and_count array) r;
              }))
              same
          ∙ ap (λ b. some (record { mutex_matches = true; atomic_matches = b })) counts,
    )
