-- ===== src/MinAtomic/Count.antt =====
-- The count of `findMinAndCountParallelAtomic`: the exchange of `minValue` and the store of `count`
-- are two operations.
use multithreading_labs.Base.{
  ℕ, ◌≡◌, refl, ap, some, true, false, List, [], ◌∷◌, arith, ℤ, ltb_ℤ, ◌==ℤ◌,
}
use multithreading_labs.Blocks.{blocks}
use multithreading_labs.Blocks.Slices.{IsDone}
use multithreading_labs.MinCount.{absorb, find_min_and_count, int_max}
use multithreading_labs.MinAtomic.{
  loads, Atomics, Turn, load, exchange, act, turn, turns, started,
  find_min_and_count_parallel_atomic,
}

abbrev by_thread : ℕ → Turn
by_thread i = record { thread = i; fails = false; age = 2 }

-- Thread 0 exchanges the minimum, thread 1 finds it and adds to the count, thread 0 stores 1.
abbrev overtaken : List Turn
overtaken =
    by_thread 0
    ∷ by_thread 0
    ∷ by_thread 1
    ∷ by_thread 1
    ∷ by_thread 1
    ∷ by_thread 1
    ∷ by_thread 0
    ∷ []

-- A turn by turn account of a run: each load gives the newest value, and no exchange fails.
abbrev pub SeesNewest : Atomics → List Turn → Type 0
SeesNewest s [] = Unit
SeesNewest s (t ∷ schedule) =
    (load s t.age ≡ s.min_value) × (t.fails ≡ false) × SeesNewest (turn s t) schedule

module _ (v : ℤ) (below : ltb_ℤ v int_max ≡ true) where
  equal : (v ==ℤ v) ≡ true
  equal = ground arith

  not_below : ltb_ℤ v v ≡ false
  not_below = ground arith

  abbrev last : Atomics
  last = record {
    min_value = v;
    older = int_max ∷ [];
    count = 1;
    points = loads ∷ loads ∷ [];
    left = [] ∷ [] ∷ [];
  }

  run : turns (started (v ∷ v ∷ []) 2) overtaken ≡ last
  unfolding turns started blocks act load exchange
  run = rw (below, not_below, equal) refl

  newest : SeesNewest (started (v ∷ v ∷ []) 2) overtaken
  unfolding turn started blocks act load exchange
  newest =
      rw (below, not_below, equal)
        (
          refl,
          refl,
          (refl, refl, (refl, refl, (refl, refl, (refl, refl, (refl, refl, (refl, refl, tt)))))),
        )

  -- The bug: for every value below `INT_MAX`, on the array that has it twice and with two threads,
  -- there is a schedule in which every load sees the newest value, no exchange fails and both
  -- threads finish, and the function returns a count of 1 where the single-threaded search returns
  -- 2.
  pub find_min_and_count_parallel_atomic-loses_count :
      (schedule : List Turn) × IsDone (turns (started (v ∷ v ∷ []) 2) schedule).left
      × SeesNewest (started (v ∷ v ∷ []) 2) schedule
      × (find_min_and_count_parallel_atomic (v ∷ v ∷ []) 2 schedule
          ≡ some (record { min_value = v; count = 1 }))
      × (find_min_and_count (v ∷ v ∷ []) ≡ record { min_value = v; count = 2 })
  unfolding find_min_and_count_parallel_atomic find_min_and_count absorb
  find_min_and_count_parallel_atomic-loses_count = (
    overtaken,
    rw run (refl, (refl, tt)),
    newest,
    ap (λ (s : Atomics). some (record { min_value = s.min_value; count = s.count })) run,
    ground (arith, equal, not_below),
  )
