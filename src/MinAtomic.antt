-- ===== src/MinAtomic.antt =====
-- lab_2/main.cpp, `findMinAndCountParallelAtomic`. A turn of a thread is one atomic operation. Every
-- load of `minValue` may return any value that the variable has held, so that no memory order is
-- relied on; an exchange sees the newest one, and `compare_exchange_weak` may fail without cause.
pub mod Invariant
pub mod Minimum
pub mod Finish
pub mod Count
pub mod Benchmark
use multithreading_labs.Base.{
  ℕ, Option, none, some, Bool, not, ◌&&◌, List, [], ◌∷◌, map, ℤ, pos, ltb_ℤ, ◌==ℤ◌, add_size,
  length, get_elem?, set, replicate, ◌==◌, if◌then◌else◌,
}
use multithreading_labs.Blocks.{blocks}
use multithreading_labs.Blocks.Slices.{slice}
use multithreading_labs.MinCount.{MinResult, int_max}

-- Where a thread stands with the value at hand: before the load of `currentGlobalMin`; before the
-- test of the `while` loop and the exchange; before `count.store(1)`; before the last load of
-- `minValue`; before `count.fetch_add(1)`.
pub data Point : Type 0 where
  loads : Point
  compares : ℤ → Point
  stores tests adds : Point

-- The two atomic variables, the earlier values of the first one, and for each thread its point and
-- the values that it has not dealt with yet, the one at hand first.
pub record Atomics : Type 0 where
  pub min_value : ℤ
  pub older : List ℤ
  pub count : ℕ
  pub points : List Point
  pub left : List (List ℤ)

-- What the machine chooses at a turn: the thread, whether a weak exchange fails without cause, and
-- which of the earlier values a load returns (the newest, if there is none of this number).
pub record Turn : Type 0 where
  pub thread : ℕ
  pub fails : Bool
  pub age : ℕ

unfoldable pub load : Atomics → ℕ → ℤ
load s age = elim (get_elem? s.older age) [ none ↦ s.min_value | some v ↦ v ]

abbrev pub go_to : Atomics → ℕ → Point → Atomics
go_to s i p = record s { points = set s.points i p }

-- `next_iteration`
abbrev pub advance : Atomics → ℕ → List ℤ → Atomics
advance s i rest = record s { points = set s.points i loads; left = set s.left i rest }

unfoldable pub exchange : Atomics → ℤ → Atomics
exchange s v = record s { min_value = v; older = s.min_value ∷ s.older }

-- The turn of a thread that has the value `v` at hand.
unfoldable pub act : Atomics → Turn → ℤ → List ℤ → Point → Atomics
unfolding load exchange
act s t v rest loads = go_to s t.thread (compares (load s t.age))
act s t v rest (compares current_global_min) =
    if ltb_ℤ v current_global_min
    then (if not t.fails && s.min_value ==ℤ current_global_min
        then go_to (exchange s v) t.thread stores
        else go_to s t.thread (compares (load s t.age)))
    else go_to s t.thread tests
act s t v rest stores = advance (record s { count = 1 }) t.thread rest
act s t v rest tests = if v ==ℤ load s t.age then go_to s t.thread adds else advance s t.thread rest
act s t v rest adds = advance (record s { count = add_size s.count 1 }) t.thread rest

-- A thread that is done, or that does not exist, does nothing.
unfoldable pub turn : Atomics → Turn → Atomics
turn s t = elim (get_elem? s.left t.thread) [
  | none ↦ s
  | some vs ↦ elim vs [
    | [] ↦ s
    | v ∷ rest ↦ elim (get_elem? s.points t.thread) [ none ↦ s | some p ↦ act s t v rest p ]
  ]
]

unfoldable pub turns : Atomics → List Turn → Atomics
unfolding turn
turns s [] = s
turns s (t ∷ schedule) = turns (turn s t) schedule

-- The state once the threads are started.
unfoldable pub started : List ℤ → ℕ → Atomics
started values thread_count = record {
  min_value = int_max;
  older = [];
  count = 0;
  points = replicate thread_count loads;
  left = map (slice values) (blocks (length values) thread_count);
}

-- What the function returns if its threads run by `schedule`; `none` is a division by zero.
unfoldable pub find_min_and_count_parallel_atomic : List ℤ → ℕ → List Turn → Option MinResult
unfolding turns started
find_min_and_count_parallel_atomic [] thread_count schedule =
    some (record { min_value = pos 0; count = 0 })
find_min_and_count_parallel_atomic (v ∷ vs) thread_count schedule =
    let last = turns (started (v ∷ vs) thread_count) schedule in
    if thread_count == 0
    then none
    else some (record { min_value = last.min_value; count = last.count })
