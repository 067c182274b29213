-- ===== src/Demo.antt =====
-- lab_3/main.cpp: the demonstration of the thread pool. Producers put tasks into the pool, a
-- coordinator starts and joins them, and `main` pauses the pool, resumes it and shuts it down. How
-- long the threads sleep is left open: any of them may take the next step.
pub mod Body
pub mod Ways
pub mod Invariant
pub mod Waits
pub mod Joining
pub mod Outcome
use multithreading_labs.Base.{
  ℕ, zero, suc, ◌+◌, ◌*◌, ◌≡◌, Option, none, some, Bool, true, false, List, [], ◌∷◌, ◌++◌, leb, ltb,
  length, get_elem?, set, if◌then◌else◌,
}
use multithreading_labs.Stats.{Floats, Stats, get_snapshot}
use multithreading_labs.Pool
use multithreading_labs.Pool.{
  Pool, Call, pushing, noting, dropping, stopping, finalizing, joining, returned, ended, create,
  enqueue, shutdown_graceful, shutdown_now, worker_step, call_step,
}

abbrev pub workers : ℕ
workers = 6

abbrev pub queue_capacity : ℕ
queue_capacity = 20

abbrev pub producer_threads : ℕ
producer_threads = 3

abbrev pub tasks_per_producer : ℕ
tasks_per_producer = 15

-- What the lambda of a task has captured.
pub record Task : Type 0 where
  pub task_id : ℕ
  pub duration : ℕ

-- A line on the console; the lines that a task prints are in `Demo.Body`.
pub data Line : Type 0 where
  says_pause says_resume says_graceful says_now : Line
  says_rejected : (task_id : ℕ) → Line

-- Where a producer stands: before its `i`-th task; in `enqueue` with it, which is call `k` of the pool;
-- behind its loop.
pub data Producer : Type 0 where
  offers : (i : ℕ) → Producer
  waits_for : (i k : ℕ) → Producer
  leaves : Producer

-- The coordinator: before it starts producer `p`; before it joins producer `p`; at its end.
pub data Coordinator : Type 0 where
  creates : (p : ℕ) → Coordinator
  joins : (p : ℕ) → Coordinator
  is_done : Coordinator

-- `main`: before the pause, before `resume`, before the shutdown, in it, before the join of the
-- coordinator, before the statistics, behind them.
pub data Place : Type 0 where
  before_pause before_resume before_shutdown : Place
  in_shutdown : (k : ℕ) → Place
  before_join before_stats after_stats : Place

module _ (F : Floats) where
  pub record Demo : Type 0 where
    pub pool : Pool F Task
    pub producers : List Producer
    pub coordinator : Coordinator
    pub main : Place
    pub lines : List Line
    pub shown : Option (Stats F)

  unfoldable pub start : Demo
  start = record {
    pool = create F workers queue_capacity;
    producers = [];
    coordinator = creates 0;
    main = before_pause;
    lines = [];
    shown = none;
  }

  abbrev pub put_producer : Demo → ℕ → Producer → Demo
  put_producer d p x = record d { producers = set d.producers p x }

  -- `enqueue` has returned `b` to producer `p`.
  unfoldable pub answered : Demo → ℕ → ℕ → Bool → Demo
  answered d p i b = record (put_producer d p (offers (suc i))) {
    lines = if b then d.lines else (d.lines ++ (says_rejected (p * tasks_per_producer + i) ∷ []));
  }

  -- Producer `p` asks for call `k` of the pool.
  unfoldable pub look : Demo → ℕ → ℕ → Option (Call Task) → Option Demo
  unfolding answered
  look d p i none = none
  look d p i (some (returned b)) = some (answered d p i b)
  look d p i (some (pushing now task)) = none
  look d p i (some (noting now result)) = none
  look d p i (some dropping) = none
  look d p i (some stopping) = none
  look d p i (some finalizing) = none
  look d p i (some joining) = none
  look d p i (some ended) = none

  -- One step of producer `p` from its place; `duration` is what `durationDist(gen)` draws.
  unfoldable pub produce : Demo → ℕ → ℕ → Producer → Option Demo
  unfolding look
  produce d p duration (offers i) =
      let task : Task = record { task_id = p * tasks_per_producer + i; duration = duration } in
      if leb i tasks_per_producer
      then some (record (put_producer d p (waits_for i (length d.pool.calls))) {
        pool = enqueue F d.pool task;
      })
      else some (put_producer d p leaves)
  produce d p duration (waits_for i k) = look d p i (get_elem? d.pool.calls k)
  produce d p duration leaves = none

  unfoldable pub producer_step : Demo → ℕ → ℕ → Option Demo
  unfolding produce
  producer_step d p duration = elim (get_elem? d.producers p) [
    | none ↦ none
    | some x ↦ produce d p duration x
  ]

  -- `producers[p].join()`
  unfoldable pub join_producer : Demo → ℕ → Option Producer → Option Demo
  join_producer d p none = none
  join_producer d p (some (offers i)) = none
  join_producer d p (some (waits_for i k)) = none
  join_producer d p (some leaves) = some (record d { coordinator = joins (suc p) })

  unfoldable pub coordinate : Demo → Coordinator → Option Demo
  unfolding join_producer
  coordinate d (creates p) =
      if ltb p producer_threads
      then some
          (record d { producers = d.producers ++ (offers 1 ∷ []); coordinator = creates (suc p) })
      else some (record d { coordinator = joins 0 })
  coordinate d (joins p) =
      let joined = join_producer d p (get_elem? d.producers p) in
      if ltb p producer_threads then joined else some (record d { coordinator = is_done })
  coordinate d is_done = none

  unfoldable pub coordinator_step : Demo → Option Demo
  unfolding coordinate
  coordinator_step d = coordinate d d.coordinator

  -- The shutdown that `main` has called returns.
  unfoldable pub return_from : Demo → Option (Call Task) → Option Demo
  return_from d none = none
  return_from d (some ended) = some (record d { main = before_join })
  return_from d (some (pushing now task)) = none
  return_from d (some (noting now result)) = none
  return_from d (some dropping) = none
  return_from d (some (returned b)) = none
  return_from d (some stopping) = none
  return_from d (some finalizing) = none
  return_from d (some joining) = none

  unfoldable pub join_coordinator : Demo → Coordinator → Option Demo
  join_coordinator d (creates p) = none
  join_coordinator d (joins p) = none
  join_coordinator d is_done = some (record d { main = before_stats })

  -- One step of `main`; `use_graceful` is whether the first argument is "graceful".
  unfoldable pub proceed_main : Bool → Demo → Place → Option Demo
  unfolding return_from join_coordinator
  proceed_main use_graceful d before_pause = some (record d {
    lines = d.lines ++ (says_pause ∷ []);
    pool = Pool.pause F d.pool;
    main = before_resume;
  })
  proceed_main use_graceful d before_resume = some (record d {
    lines = d.lines ++ (says_resume ∷ []);
    pool = Pool.resume F d.pool;
    main = before_shutdown;
  })
  proceed_main use_graceful d before_shutdown =
      let k = length d.pool.calls in
      if use_graceful
      then some (record d {
        lines = d.lines ++ (says_graceful ∷ []);
        pool = shutdown_graceful F d.pool;
        main = in_shutdown k;
      })
      else some (record d {
        lines = d.lines ++ (says_now ∷ []);
        pool = shutdown_now F d.pool;
        main = in_shutdown k;
      })
  proceed_main use_graceful d (in_shutdown k) = return_from d (get_elem? d.pool.calls k)
  proceed_main use_graceful d before_join = join_coordinator d d.coordinator
  proceed_main use_graceful d before_stats =
      some (record d { main = after_stats; shown = some (get_snapshot F d.pool.tracker) })
  proceed_main use_graceful d after_stats = none

  unfoldable pub main_step : Bool → Demo → Option Demo
  unfolding proceed_main
  main_step use_graceful d = proceed_main use_graceful d d.main

  pub data Move (use_graceful : Bool) (d : Demo) : Demo → Type 0 where
    produces :
        (p duration : ℕ) {d' : Demo} → producer_step d p duration ≡ some d' → Move use_graceful d d'
    coordinates : {d' : Demo} → coordinator_step d ≡ some d' → Move use_graceful d d'
    moves_on : {d' : Demo} → main_step use_graceful d ≡ some d' → Move use_graceful d d'
    works :
        (i : ℕ) {p' : Pool F Task}
        → worker_step F d.pool i ≡ some p'
        → Move use_graceful d (record d { pool = p' })
    proceeds :
        (k : ℕ) {p' : Pool F Task}
        → call_step F d.pool k ≡ some p'
        → Move use_graceful d (record d { pool = p' })
    passes :
        (time : ℕ)
        → Move use_graceful d (record d { pool = record d.pool { clock = d.pool.clock + time } })
