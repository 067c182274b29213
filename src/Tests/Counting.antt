-- ===== src/Tests/Counting.antt =====
-- Counted minima, and the tracker's statistics.
use multithreading_labs.Base.{
  ℕ, ◌+◌, ◌-◌, ◌/◌, ◌≤◌, ◌<◌, ◌≡◌, refl, arith, some, List, [], ◌∷◌, ℤ, pos, negsuc, ◌≤ℤ◌, Has, All,
}
use multithreading_labs.Blocks.{blocks}
use multithreading_labs.Blocks.Slices.{IsDone}
use multithreading_labs.MinCount.{
  started, rounds, find_min_and_count, find_min_and_count_parallel_mutex,
}
use multithreading_labs.MinCount.Sequential.{find_min_and_count-counts, occurrences}
use multithreading_labs.MinCount.Mutex.{find_min_and_count_parallel_mutex-sequential}
use multithreading_labs.Stats.{Floats, create}
use multithreading_labs.Stats.Durations.{sum, record_all, record_all-summary}
use multithreading_labs.Stats.Periods.{
  Note, after_push, after_pop, at_shutdown, note_all, note_all-le-elapsed,
}

abbrev counted : List ℤ
counted = pos 5 ∷ negsuc 1 ∷ pos 7 ∷ negsuc 1 ∷ pos 5 ∷ []

find_min_and_count-counts_example :
    let s = find_min_and_count counted in
    All (λ w. s.min_value ≤ℤ w) counted
    × (s.count ≡ occurrences s.min_value counted)
    × (0 < s.count)
find_min_and_count-counts_example =
    find_min_and_count-counts (pos 5) (negsuc 1 ∷ pos 7 ∷ negsuc 1 ∷ pos 5 ∷ []) (omega arith)

-- Two threads, the first of which has three values.
abbrev schedule : List ℕ
schedule = 1 ∷ 0 ∷ 0 ∷ 1 ∷ 0 ∷ []

schedule-IsDone : IsDone (rounds (started counted 2) schedule).left
unfolding rounds started blocks
schedule-IsDone = (refl, (refl, tt))

find_min_and_count_parallel_mutex-sequential_example :
    find_min_and_count_parallel_mutex counted 2 schedule ≡ some (find_min_and_count counted)
find_min_and_count_parallel_mutex-sequential_example =
    find_min_and_count_parallel_mutex-sequential counted 2 schedule (omega arith) (omega arith)
      (omega arith, (omega arith, (omega arith, (omega arith, (omega arith, tt))))) schedule-IsDone

abbrev pub whole : ℤ → ℕ
whole (pos n) = n
whole (negsuc n) = 0

-- Whole milliseconds in place of `double`.
abbrev pub whole_ms : Floats
whole_ms = record {
  Double = ℕ;
  zero_ms = 0;
  plus = ◌+◌;
  minus = ◌-◌;
  divided = ◌/◌;
  of_size = λ n. n;
  of_duration = whole;
}

record_all-summary_example :
    let s = record_all whole_ms (create whole_ms).stats (40 ∷ 20 ∷ 30 ∷ []) in
    (s.full_queue_time ≡ sum (40 ∷ 20 ∷ 30 ∷ []))
    × All (λ e. (s.full_queue_min ≤ e) × (e ≤ s.full_queue_max)) (40 ∷ 20 ∷ 30 ∷ [])
    × Has s.full_queue_min (40 ∷ 20 ∷ 30 ∷ [])
    × Has s.full_queue_max (40 ∷ 20 ∷ 30 ∷ [])
record_all-summary_example =
    record_all-summary whole_ms 40 (20 ∷ 30 ∷ []) (omega arith, (omega arith, (omega arith, tt)))

-- A queue of two places that is full from 10 to 25 and from 30 to 45.
abbrev notes : List Note
notes = after_push 1 5 ∷ after_push 2 10 ∷ after_pop 1 25 ∷ after_push 2 30 ∷ at_shutdown 45 ∷ []

note_all-le-elapsed_example :
    (note_all whole_ms 2 (create whole_ms) notes).stats.full_queue_time ≤ 50 - 0
note_all-le-elapsed_example =
    note_all-le-elapsed whole_ms 2 notes 0 50
      (omega arith, (omega arith, (omega arith, (omega arith, (omega arith, omega arith)))))
