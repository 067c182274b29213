-- ===== src/Tests/Show.antt =====
-- The demonstration of lab 3, from its start to the statistics.
use multithreading_labs.Base.{
  ℕ, zero, suc, ◌+◌, ◌≡◌, refl, inl, inr, ◌⊎◌, Option, none, some, true, List, [], ◌∷◌, ◌++◌,
}
use multithreading_labs.TaskQueue
use multithreading_labs.TaskQueue.{push, wait_pop, stop_graceful, pause, resume}
use multithreading_labs.Stats
use multithreading_labs.Pool
use multithreading_labs.Pool.{
  create, worker_step, call_step, act, proceed, pop_step, after_record, enqueue, shutdown_graceful,
}
use multithreading_labs.Demo.{
  Demo, start, answered, look, produce, producer_step, join_producer, coordinate, coordinator_step,
  return_from, join_coordinator, proceed_main, main_step, produces, coordinates, moves_on, works,
  proceeds,
}
use multithreading_labs.Demo.Outcome.{Plays, begins, plays_on, Accounts, Plays-Accounts}
use multithreading_labs.Tests.Counting.{whole_ms}

-- Who takes the next step.
data Choice : Type 0 where
  producer : (p : ℕ) → Choice
  coordinator : Choice
  main : Choice
  worker : (i : ℕ) → Choice
  call : (k : ℕ) → Choice

abbrev moved : {A : Type 0} (o : Option A) → (o ≡ none) ⊎ ((a : A) × (o ≡ some a))
moved none = inl refl
moved (some a) = inr (a, refl)

abbrev Played : Type 0
Played = (d : Demo whole_ms) × Plays whole_ms true d

-- A thread that cannot move is passed over.
abbrev choose : Choice → Played → Played
choose (producer p) (d, plays) = elim (moved (producer_step whole_ms d p 5)) [
  | inl stuck ↦ (d, plays)
  | inr (d', e) ↦ (d', plays_on plays (produces p 5 e))
]
choose coordinator (d, plays) = elim (moved (coordinator_step whole_ms d)) [
  | inl stuck ↦ (d, plays)
  | inr (d', e) ↦ (d', plays_on plays (coordinates e))
]
choose main (d, plays) = elim (moved (main_step whole_ms true d)) [
  | inl stuck ↦ (d, plays)
  | inr (d', e) ↦ (d', plays_on plays (moves_on e))
]
choose (worker i) (d, plays) = elim (moved (worker_step whole_ms d.pool i)) [
  | inl stuck ↦ (d, plays)
  | inr (p', e) ↦ (_, plays_on plays (works i e))
]
choose (call k) (d, plays) = elim (moved (call_step whole_ms d.pool k)) [
  | inl stuck ↦ (d, plays)
  | inr (p', e) ↦ (_, plays_on plays (proceeds k e))
]

abbrev play : List Choice → Played → Played
play [] d = d
play (c ∷ cs) d = play cs (choose c d)

-- `n` tasks of producer `p`, the first one with call `k`.
abbrev tasks : ℕ → ℕ → ℕ → List Choice
tasks p k zero = []
tasks p k (suc n) = producer p ∷ call k ∷ call k ∷ call k ∷ producer p ∷ tasks p (k + 1) n

abbrev retires : ℕ → List Choice
retires i = worker i ∷ worker i ∷ worker i ∷ worker i ∷ []

-- The coordinator starts the producers; the first task is accepted and run; `main` pauses, resumes and
-- stops the pool.
abbrev before_stop : List Choice
before_stop =
    (coordinator ∷ coordinator ∷ coordinator ∷ coordinator ∷ [])
    ++ (tasks 0 0 1 ++ (retires 0 ++ (worker 0 ∷ worker 0 ∷ main ∷ main ∷ main ∷ [])))

-- The other tasks are refused, and the producers end.
abbrev refusals : List Choice
refusals =
    tasks 0 2 14
    ++ (tasks 1 16 15 ++ (tasks 2 31 15 ++ (producer 0 ∷ producer 1 ∷ producer 2 ∷ call 1 ∷ [])))

-- The workers end, the shutdown returns, and the producers are joined.
abbrev ends : List Choice
ends =
    (retires 0 ++ (retires 1 ++ retires 2))
    ++ ((retires 3 ++ (retires 4 ++ retires 5))
        ++ (call 1 ∷ main ∷ coordinator ∷ coordinator ∷ coordinator ∷ coordinator ∷ main ∷ []))

abbrev show : Played
unfolding start create enqueue call_step proceed worker_step act pop_step after_record
    shutdown_graceful push wait_pop stop_graceful pause resume TaskQueue.create answered look
    produce producer_step join_producer coordinate coordinator_step return_from join_coordinator
    proceed_main main_step Pool.pause Pool.resume
show = play (before_stop ++ (refusals ++ ends)) (start whole_ms, begins)

Plays-Accounts_example : Accounts whole_ms true show.0.pool
unfolding show
Plays-Accounts_example = Plays-Accounts whole_ms true show.0 show.1 refl

show-dropped : show.0.pool.tracker.stats.dropped_tasks ≡ 44
unfolding show Stats.create Stats.set_created_threads Stats.record_wait_time
    Stats.record_dropped_task Stats.note_queue_full_if_needed Stats.note_queue_not_full_if_needed
    Stats.add_samples Stats.add_sample Stats.finalize_queue_full_if_needed TaskQueue.capacity
show-dropped = refl
