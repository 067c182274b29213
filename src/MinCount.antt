-- ===== src/MinCount.antt =====
-- lab_2/main.cpp: the minimum of an array and how often it occurs, with one thread, with a mutex
-- and with atomics. An `Array` (lab_2/array.h) holds as many values as its `size` says, and is
-- modelled by their list. `none` is undefined behaviour, a division by zero.
pub mod Absorb
pub mod Sequential
pub mod Mutex
use multithreading_labs.Base.{
  ℕ, zero, suc, ◌≡◌, Option, none, some, List, [], ◌∷◌, map, ℤ, pos, ltb_ℤ, ◌==ℤ◌, add_size, fold,
  length, get_elem?, set, ◌==◌, if◌then◌else◌,
}
use multithreading_labs.Blocks.{blocks}
use multithreading_labs.Blocks.Slices.{slice}

pub record MinResult : Type 0 where
  pub min_value : ℤ
  pub count : ℕ

-- The two tests that the sequential loop and the critical section make on a value.
unfoldable pub absorb : MinResult → ℤ → MinResult
absorb r v =
    if ltb_ℤ v r.min_value
    then record { min_value = v; count = 1 }
    else if v ==ℤ r.min_value
    then record r { count = add_size r.count 1 }
    else r

unfoldable pub find_min_and_count : List ℤ → MinResult
unfolding absorb
find_min_and_count [] = record { min_value = pos 0; count = 0 }
find_min_and_count (v ∷ vs) = fold absorb (record { min_value = v; count = 1 }) vs

abbrev pub int_max : ℤ
int_max = pos 0x7fff_ffff

-- The result under the mutex, and for each thread the values that it has still to look at.
pub record Shared : Type 0 where
  pub global : MinResult
  pub left : List (List ℤ)

-- One round of thread `i`, from `lock_guard` to the end of its scope. A thread that is done does
-- nothing.
unfoldable pub round : Shared → ℕ → Shared
unfolding absorb
round s i = elim (get_elem? s.left i) [
  | none ↦ s
  | some vs ↦ elim vs [
    | [] ↦ s
    | v ∷ rest ↦ record { global = absorb s.global v; left = set s.left i rest }
  ]
]

-- The threads take the mutex in the order of the schedule.
unfoldable pub rounds : Shared → List ℕ → Shared
unfolding round
rounds s [] = s
rounds s (i ∷ schedule) = rounds (round s i) schedule

-- The state once the threads are started.
unfoldable pub started : List ℤ → ℕ → Shared
started values thread_count = record {
  global = record { min_value = int_max; count = 0 };
  left = map (slice values) (blocks (length values) thread_count);
}

-- What the function returns if its threads run by `schedule`.
unfoldable pub find_min_and_count_parallel_mutex : List ℤ → ℕ → List ℕ → Option MinResult
unfolding rounds started
find_min_and_count_parallel_mutex [] thread_count schedule =
    some (record { min_value = pos 0; count = 0 })
find_min_and_count_parallel_mutex (v ∷ vs) thread_count schedule =
    if thread_count == 0
    then none
    else some (rounds (started (v ∷ vs) thread_count) schedule).global
