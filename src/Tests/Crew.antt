-- ===== src/Tests/Crew.antt =====
-- A thread pool with one worker, a queue of one place, and one task.
use mathlib.Core.List.{Perm}
use multithreading_labs.Base.{ℕ, ◌≡◌, ◌≤◌, refl, inl, true, List, [], length, arith}
use multithreading_labs.TaskQueue
use multithreading_labs.TaskQueue.{push, wait_pop, stop_graceful}
use multithreading_labs.Stats
use multithreading_labs.Pool.Spec.{Holds}
use multithreading_labs.Pool.Flags.{create-IsValid}
use multithreading_labs.Pool.Refinement.{Matches, view, Step-Matches}
use multithreading_labs.Pool.Shutdown.{Reach, begun, stepped, Reach-Holds, all_exited-completed}
use multithreading_labs.Pool.Finish.{Stopping, run, work_left, run-all_exited}
use multithreading_labs.Pool.{
  Pool, create, worker_step, call_step, act, proceed, pop_step, after_record, enqueue,
  shutdown_graceful, enqueues, shuts_down, works, proceeds, all_exited,
}
use multithreading_labs.Tests.Counting.{whole_ms}

abbrev crew : Pool whole_ms ℕ
crew = create whole_ms 1 1

-- A task is accepted and run, and the pool is shut down.
abbrev shift : (p : Pool whole_ms ℕ) × Reach whole_ms 1 1 p
unfolding create enqueue call_step proceed worker_step act pop_step after_record shutdown_graceful
    push wait_pop stop_graceful TaskQueue.create
shift =
    let asked =
      stepped (stepped (stepped begun (enqueues 5)) (proceeds 0 refl)) (proceeds 0 refl) in
    let taken = stepped (stepped (stepped asked (works 0 refl)) (works 0 refl)) (works 0 refl) in
    let done = stepped (stepped (stepped taken (works 0 refl)) (works 0 refl)) (works 0 refl) in
    let last = stepped (stepped (stepped done shuts_down) (works 0 refl)) (works 0 refl) in
    (_, stepped (stepped last (works 0 refl)) (works 0 refl))

all_exited-completed_example :
    (shift.0.queue.tasks ≡ [])
    × (shift.0.log.accepted ≡ shift.0.log.started)
    × Perm shift.0.log.accepted shift.0.log.completed
unfolding shift
all_exited-completed_example = all_exited-completed whole_ms shift.0 shift.1 (omega arith) refl refl

Reach-Holds_example : Holds (view whole_ms shift.0)
Reach-Holds_example = Reach-Holds whole_ms shift.1

Step-Matches_example : Matches whole_ms crew (enqueue whole_ms crew 5)
Step-Matches_example = Step-Matches whole_ms (create-IsValid whole_ms 1 1) (enqueues 5)

-- A pool that is shut down before its worker has begun.
stopped-Reach : Reach whole_ms 1 1 (shutdown_graceful whole_ms crew)
stopped-Reach = stepped begun shuts_down

stopped-Stopping : Stopping whole_ms (shutdown_graceful whole_ms crew).queue
unfolding shutdown_graceful stop_graceful
stopped-Stopping = record { stops = refl; goes = inl refl }

run-all_exited_example :
    (schedule : List ℕ) × (length schedule ≤ work_left whole_ms (shutdown_graceful whole_ms crew))
    × (all_exited whole_ms (run whole_ms (shutdown_graceful whole_ms crew) schedule).workers ≡ true)
run-all_exited_example =
    run-all_exited whole_ms (shutdown_graceful whole_ms crew) stopped-Reach stopped-Stopping

-- The worker takes the task before the caller notes that the queue is full: the note is out of date,
-- and the tracker believes in a full queue that is empty.
abbrev overtaken : (p : Pool whole_ms ℕ) × Reach whole_ms 1 1 p
unfolding create enqueue call_step proceed worker_step act pop_step after_record push wait_pop
    TaskQueue.create
overtaken =
    let pushed = stepped (stepped begun (enqueues 5)) (proceeds 0 refl) in
    let taken = stepped (stepped (stepped pushed (works 0 refl)) (works 0 refl)) (works 0 refl) in
    let working_now = stepped (stepped taken (works 0 refl)) (works 0 refl) in
    (_, stepped working_now (proceeds 0 refl))

stale_note : (overtaken.0.tracker.queue_was_full ≡ true) × (overtaken.0.queue.tasks ≡ [])
unfolding overtaken Stats.note_queue_full_if_needed Stats.note_queue_not_full_if_needed Stats.create
    Stats.record_wait_time TaskQueue.capacity Stats.set_created_threads
stale_note = (refl, refl)
