-- ===== src/Demo/Invariant.antt =====
-- What holds in every state of the demonstration, for its pool, its producers and its coordinator.
use multithreading_labs.Base.{
  ℕ, zero, suc, ◌+◌, ◌*◌, ◌-◌, ◌≤◌, ◌<◌, ◌≡◌, ap, ◌∙◌, some, Bool, List, [], ◌∷◌, ◌++◌, arith,
  length, get_elem?, set, All, All-get_elem?, total, total-append, total-set,
}
use multithreading_labs.Stats.{Floats}
use multithreading_labs.Pool
use multithreading_labs.Pool.{
  Pool, Call, pushing, returned, finalizing, stopping, enqueue, shutdown_graceful, shutdown_now,
  Step,
}
use multithreading_labs.Pool.Calls.{asked}
use multithreading_labs.Pool.Moves.{worker_step-Keeps, call_step-asked}
use multithreading_labs.Pool.Shutdown.{Reach, stepped}
use multithreading_labs.Demo.{
  workers, queue_capacity, producer_threads, tasks_per_producer, Producer, offers, waits_for,
  leaves, Coordinator, creates, joins, is_done, Demo, answered,
}
use multithreading_labs.Demo.Ways.{
  Way, asks, quits, learns, spawns, turns_around, joins_one, joins_all, pauses, resumes,
  stops_gently, stops_at_once, comes_back, meets, shows, works_in_pool, proceeds_in_pool,
  waits_in_pool,
}

-- How often a producer has called `enqueue`.
abbrev pub made : Producer → ℕ
made (offers i) = i - 1
made (waits_for i k) = i
made leaves = tasks_per_producer

abbrev pub InRange : Producer → Type 0
InRange (offers i) = (1 ≤ i) × (i ≤ suc tasks_per_producer)
InRange (waits_for i k) = (1 ≤ i) × (i ≤ tasks_per_producer)
InRange leaves = Unit

All-set :
    (xs : List Producer) (i : ℕ) (x : Producer)
    → All InRange xs
    → InRange x
    → All InRange (set xs i x)
All-set [] i x a r = tt
All-set (y ∷ xs) zero x a r = (r, a.1)
All-set (y ∷ xs) (suc i) x a r = (a.0, All-set xs i x a.1 r)

All-end :
    (xs : List Producer) (x : Producer) → All InRange xs → InRange x → All InRange (xs ++ (x ∷ []))
All-end [] x a r = (r, tt)
All-end (y ∷ xs) x a r = (a.0, All-end xs x a.1 r)

-- Where the coordinator stands says how many producers there are, and which of them have ended.
abbrev pub Coordinates : Coordinator → List Producer → Type 0
Coordinates (creates c) ps = (length ps ≡ c) × (c ≤ producer_threads)
Coordinates (joins c) ps =
    (length ps ≡ producer_threads) × ((j : ℕ) → j < c → get_elem? ps j ≡ some leaves)
Coordinates is_done ps =
    (length ps ≡ producer_threads) × ((j : ℕ) → j < producer_threads → get_elem? ps j ≡ some leaves)

module _ {F : Floats} where
  -- The calls of `enqueue` are those that the producers have made.
  abbrev pub Made : Demo F → Type 0
  Made d = (total asked d.pool.calls ≡ total made d.producers) × All InRange d.producers

module _ {F : Floats} {g : Bool} where
  -- The pool of the demonstration is a pool of six workers and twenty places.
  pub Way-Reach :
      {d d' : Demo F}
      → Reach F workers queue_capacity d.pool
      → Way F g d d'
      → Reach F workers queue_capacity d'.pool
  unfolding answered
  Way-Reach r (asks p i duration here more) = stepped r (Step.enqueues _)
  Way-Reach r (quits p i here over) = r
  Way-Reach r (learns p i k b here at) = r
  Way-Reach r (spawns c at more) = r
  Way-Reach r (turns_around c at over) = r
  Way-Reach r (joins_one c at here) = r
  Way-Reach r (joins_all c at over) = r
  Way-Reach r (pauses at) = stepped r Step.pauses
  Way-Reach r (resumes at) = stepped r Step.resumes
  Way-Reach r (stops_gently at e) = stepped r Step.shuts_down
  Way-Reach r (stops_at_once at e) = stepped r Step.shuts_down_now
  Way-Reach r (comes_back k at here) = r
  Way-Reach r (meets at e) = r
  Way-Reach r (shows at) = r
  Way-Reach r (works_in_pool i p' e) = stepped r (Step.works i e)
  Way-Reach r (proceeds_in_pool k p' e) = stepped r (Step.proceeds k e)
  Way-Reach r (waits_in_pool time) = stepped r (Step.passes time)

  pub Way-Made : {d d' : Demo F} → Made d → Way F g d d' → Made d'
  unfolding answered enqueue shutdown_graceful shutdown_now Pool.pause Pool.resume
  Way-Made {d} (sum, fit) (asks p i duration here more) =
      let r = All-get_elem? InRange d.producers p (offers i) fit here in
      let step = total-set made d.producers p (offers i) (waits_for i (length d.pool.calls)) here in
      let calls = total-append asked d.pool.calls (
        pushing d.pool.clock (record { task_id = p * tasks_per_producer + i; duration = duration })
        ∷ []) in
      let few : i ≤ tasks_per_producer = ground arith in
      (omega (arith, sum, step, calls, r.0), All-set d.producers p _ fit (r.0, few))
  Way-Made {d} (sum, fit) (quits p i here over) =
      let r = All-get_elem? InRange d.producers p (offers i) fit here in
      let step = total-set made d.producers p (offers i) leaves here in
      let all : i ≡ suc tasks_per_producer = ground arith in
      (omega (arith, sum, step, all), All-set d.producers p leaves fit tt)
  Way-Made {d} (sum, fit) (learns p i k b here at) =
      let r = All-get_elem? InRange d.producers p (waits_for i k) fit here in
      let step = total-set made d.producers p (waits_for i k) (offers (suc i)) here in
      (omega (arith, sum, step), All-set d.producers p _ fit (omega arith, omega (arith, r.1)))
  Way-Made {d} (sum, fit) (spawns c at more) = (
    omega (arith, sum, total-append made d.producers (offers 1 ∷ [])),
    All-end d.producers (offers 1) fit (omega arith, omega arith),
  )
  Way-Made m (turns_around c at over) = m
  Way-Made m (joins_one c at here) = m
  Way-Made m (joins_all c at over) = m
  Way-Made m (pauses at) = m
  Way-Made m (resumes at) = m
  Way-Made {d} (sum, fit) (stops_gently at e) =
      (omega (arith, sum, total-append asked d.pool.calls (finalizing ∷ [])), fit)
  Way-Made {d} (sum, fit) (stops_at_once at e) =
      (omega (arith, sum, total-append asked d.pool.calls (stopping ∷ [])), fit)
  Way-Made m (comes_back k at here) = m
  Way-Made m (meets at e) = m
  Way-Made m (shows at) = m
  Way-Made {d} (sum, fit) (works_in_pool i p' e) =
      (ap (total asked) (worker_step-Keeps F d.pool p' i e).0 ∙ sum, fit)
  Way-Made {d} (sum, fit) (proceeds_in_pool k p' e) = (call_step-asked F d.pool p' k e ∙ sum, fit)
  Way-Made m (waits_in_pool time) = m
