-- ===== src/Pool.antt =====
-- lab_3/worker.cpp and lab_3/thread_pool.cpp: the workers and the calls of `ThreadPool`, on the queue
-- of `TaskQueue` and the tracker of `Stats`. A step of a thread ends where it gives up a mutex or has
-- read the clock. How a worker sleeps and is woken in `waitPop` is in `Monitor`.
pub mod Spec
pub mod Refinement
pub mod Places
pub mod Flags
pub mod Shutdown
pub mod Finish
pub mod Calls
pub mod Moves
pub mod Joins
use multithreading_labs.Base.{
  ℕ, ◌≡◌, ◌+◌, Option, none, some, Bool, true, false, not, ◌&&◌, List, [], ◌∷◌, ◌++◌, ltb, length,
  get_elem?, set, replicate, if◌then◌else◌,
}
use multithreading_labs.TaskQueue
use multithreading_labs.TaskQueue.{TaskQueue, PushResult, PopResult, push, wait_pop}
use multithreading_labs.Stats
use multithreading_labs.Stats.{
  Floats, Tracker, set_created_threads, record_wait_time, record_dropped_task, elapsed,
  note_queue_full_if_needed, note_queue_not_full_if_needed, finalize_queue_full_if_needed,
}

-- Where a worker stands in the loop of `run`: at its top; in `waitPop`; behind `waitPop`; behind the
-- reading of `waitEnd`; behind `recordWaitTime`, with a task; in its task; behind the loop.
pub data Worker (T : Type 0) : Type 0 where
  idle : Worker T
  waiting : (wait_start : ℕ) → Worker T
  popped : (wait_start : ℕ) → PopResult → Option T → Worker T
  timed : (wait_start wait_end : ℕ) → PopResult → Option T → Worker T
  recorded : (wait_end : ℕ) → PopResult → T → Worker T
  working : T → Worker T
  exited : Worker T

-- Where a caller of the pool stands: in `enqueue`, before `push`, before the note, before the count of
-- dropped tasks; in a shutdown, before `stopNow`, before the last note, before the joins; behind the
-- call, with what it returns.
pub data Call (T : Type 0) : Type 0 where
  pushing : (now : ℕ) → T → Call T
  noting : (now : ℕ) → PushResult → Call T
  dropping : Call T
  stopping finalizing joining : Call T
  returned : Bool → Call T
  ended : Call T

-- What the outside sees: the tasks that `enqueue` accepted, that workers began and ended, and that
-- `stopNow` threw away, each in order.
pub record Log (T : Type 0) : Type 0 where
  pub accepted : List T
  pub started : List T
  pub completed : List T
  pub discarded : List T

abbrev pub worker_limit : ℕ
worker_limit = 6

module _ (F : Floats) where
  pub record Pool (T : Type 0) : Type 0 where
    pub workers : List (Worker T)
    pub queue : TaskQueue T
    pub tracker : Tracker F
    pub stop_now_flag : Bool
    pub calls : List (Call T)
    pub log : Log T
    pub clock : ℕ

  module _ {T : Type 0} where
    unfoldable pub create : ℕ → ℕ → Pool T
    create worker_count queue_capacity =
        let actual_worker_count =
          if ltb worker_limit worker_count then worker_limit else worker_count in
        record {
          workers = replicate actual_worker_count idle;
          queue = TaskQueue.create queue_capacity;
          tracker = set_created_threads F (Stats.create F) actual_worker_count;
          stop_now_flag = false;
          calls = [];
          log = record { accepted = []; started = []; completed = []; discarded = [] };
          clock = 0;
        }

    abbrev pub put_worker : Pool T → ℕ → Worker T → Pool T
    put_worker p i w = record p { workers = set p.workers i w }

    abbrev pub put_call : Pool T → ℕ → Call T → Pool T
    put_call p i c = record p { calls = set p.calls i c }

    -- A task has been taken from the queue.
    abbrev pub start : Log T → Option T → Log T
    start log none = log
    start log (some task) = record log { started = log.started ++ (task ∷ []) }

    -- `waitPop` returns to worker `i`, or it does not return yet.
    unfoldable pub pop_step :
        Pool T → ℕ → ℕ → Option (PopResult × Option T × TaskQueue T) → Option (Pool T)
    pop_step p i wait_start none = none
    pop_step p i wait_start (some (result, task, queue)) = some (record p {
      workers = set p.workers i (popped wait_start result task);
      queue = queue;
      log = start p.log task;
    })

    -- `if (!popResult.hasTask) break;`
    unfoldable pub after_record : ℕ → PopResult → Option T → Worker T
    after_record wait_end result none = exited
    after_record wait_end result (some task) =
        if result.has_task then recorded wait_end result task else exited

    -- One step of worker `i` from its place in the loop; `none` if it cannot move.
    unfoldable pub act : Pool T → ℕ → Worker T → Option (Pool T)
    unfolding pop_step after_record
    act p i idle = some (put_worker p i (waiting p.clock))
    act p i (waiting wait_start) = pop_step p i wait_start (wait_pop p.queue)
    act p i (popped wait_start result task) =
        some (put_worker p i (timed wait_start p.clock result task))
    act p i (timed wait_start wait_end result task) =
        some (record (put_worker p i (after_record wait_end result task)) {
          tracker = record_wait_time F p.tracker (elapsed F wait_end wait_start) 1;
        })
    act p i (recorded wait_end result task) = some (record (put_worker p i (working task)) {
      tracker =
          note_queue_not_full_if_needed F p.tracker result.size_after (TaskQueue.capacity p.queue)
            wait_end;
    })
    act p i (working task) = some (record (put_worker p i idle) {
      log = record p.log { completed = p.log.completed ++ (task ∷ []) };
    })
    act p i exited = none

    unfoldable pub worker_step : Pool T → ℕ → Option (Pool T)
    worker_step p i = elim (get_elem? p.workers i) [ none ↦ none | some w ↦ act p i w ]

    -- A call of `enqueue`, of `shutdown_graceful` or of `shutdown_now` begins. The first one reads the
    -- clock, the second one stops the queue, the third one sets the flag.
    unfoldable pub enqueue : Pool T → T → Pool T
    enqueue p task = record p { calls = p.calls ++ (pushing p.clock task ∷ []) }

    unfoldable pub shutdown_graceful : Pool T → Pool T
    shutdown_graceful p = record p {
      queue = TaskQueue.stop_graceful p.queue;
      calls = p.calls ++ (finalizing ∷ []);
    }

    unfoldable pub shutdown_now : Pool T → Pool T
    shutdown_now p = record p { stop_now_flag = true; calls = p.calls ++ (stopping ∷ []) }

    unfoldable pub pause : Pool T → Pool T
    pause p = record p { queue = TaskQueue.pause p.queue }

    unfoldable pub resume : Pool T → Pool T
    resume p = record p { queue = TaskQueue.resume p.queue }

    -- `push` has returned to call `i`.
    abbrev pub accept : Log T → T → PushResult → Log T
    accept log task result = elim result.accepted [
      | true ↦ record log { accepted = log.accepted ++ (task ∷ []) }
      | false ↦ log
    ]

    abbrev pub all_exited : List (Worker T) → Bool
    all_exited [] = true
    all_exited (exited ∷ ws) = all_exited ws
    all_exited (w ∷ ws) = false

    -- One step of call `i` from its place; `none` if it cannot move.
    unfoldable pub proceed : Pool T → ℕ → Call T → Option (Pool T)
    proceed p i (pushing now task) =
        let (result, queue) = push p.queue task in
        some (record (put_call p i (noting now result)) {
          queue = queue;
          log = accept p.log task result;
        })
    proceed p i (noting now result) =
        some (record (put_call p i (if result.accepted then returned true else dropping)) {
          tracker =
              note_queue_full_if_needed F p.tracker result.size_after (TaskQueue.capacity p.queue)
                now;
        })
    proceed p i dropping =
        some (record (put_call p i (returned false)) { tracker = record_dropped_task F p.tracker })
    proceed p i stopping = some (record (put_call p i finalizing) {
      queue = TaskQueue.stop_now p.queue;
      log = record p.log { discarded = p.log.discarded ++ p.queue.tasks };
    })
    proceed p i finalizing = some (record (put_call p i joining) {
      tracker = finalize_queue_full_if_needed F p.tracker p.clock;
    })
    proceed p i joining = if all_exited p.workers then some (put_call p i ended) else none
    proceed p i (returned b) = none
    proceed p i ended = none

    unfoldable pub call_step : Pool T → ℕ → Option (Pool T)
    call_step p i = elim (get_elem? p.calls i) [ none ↦ none | some c ↦ proceed p i c ]

    pub data Step (p : Pool T) : Pool T → Type 0 where
      enqueues : (task : T) → Step p (enqueue p task)
      shuts_down : Step p (shutdown_graceful p)
      shuts_down_now : Step p (shutdown_now p)
      pauses : Step p (pause p)
      resumes : Step p (resume p)
      works : (i : ℕ) {p' : Pool T} → worker_step p i ≡ some p' → Step p p'
      proceeds : (i : ℕ) {p' : Pool T} → call_step p i ≡ some p' → Step p p'
      passes : (time : ℕ) → Step p (record p { clock = p.clock + time })
