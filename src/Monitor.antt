-- ===== src/Monitor.antt =====
-- lab_3/queue.cpp: the condition variable of `ThreadSafeQueue`, with any number of workers. Only
-- `waitPop` waits. A thread that is notified must get the mutex back before it tests the condition
-- again, and other threads may come first. `push` notifies under the mutex; `resume`, `stopGraceful`
-- and `stopNow` give it up first, so their `notify_all` is a step of its own.
pub mod Wakeup
use multithreading_labs.Base.{
  ℕ, zero, suc, ◌+◌, ◌≡◌, Option, none, some, Bool, true, false, if◌then◌else◌,
}
use multithreading_labs.TaskQueue.{
  TaskQueue, PopResult, create, push, wait_pop, pause, resume, stop_graceful, stop_now,
}
use multithreading_labs.TaskQueue.Order.{queue_after_pop}

pub record Monitor (T : Type 0) : Type 0 where
  pub queue : TaskQueue T
  pub waiting : ℕ  -- threads asleep in `cv.wait`
  pub woken : ℕ  -- threads notified, that have not tested the condition since
  pub pending : ℕ  -- calls of `notify_all` that are still to be made

module _ {T : Type 0} where
  -- `cv.notify_one()`
  unfoldable pub notify_one : Monitor T → Monitor T
  notify_one m = elim m.waiting [
    | zero ↦ m
    | suc waiting ↦ record m { waiting = waiting; woken = suc m.woken }
  ]

  -- `cv.notify_all()`
  unfoldable pub notify_all : Monitor T → Monitor T
  notify_all m = record m { waiting = 0; woken = m.woken + m.waiting }

  unfoldable pub push_step : Monitor T → T → Monitor T
  unfolding notify_one
  push_step m task =
      let (result, q) = push m.queue task in
      let m' = record m { queue = q } in if result.accepted then notify_one m' else m'

  unfoldable pub after_test : Monitor T → Option (PopResult × Option T × TaskQueue T) → Monitor T
  after_test m none = record m { waiting = suc m.waiting }
  after_test m (some (result, task, q)) = record m { queue = q }

  -- A worker has the mutex, tests the condition, and goes on or to sleep.
  unfoldable pub test_step : Monitor T → Monitor T
  unfolding after_test
  test_step m = after_test m (wait_pop m.queue)

  pub data Step (m : Monitor T) : Monitor T → Type 0 where
    pushes : (task : T) → Step m (push_step m task)
    -- A worker calls `waitPop`.
    calls : Step m (test_step m)
    -- A worker that was notified gets the mutex.
    wakes : {woken : ℕ} → m.woken ≡ suc woken → Step m (test_step (record m { woken = woken }))
    -- A spurious wake-up.
    spurious :
        {waiting : ℕ}
        → m.waiting ≡ suc waiting
        → Step m (record m { waiting = waiting; woken = suc m.woken })
    pauses : Step m (record m { queue = pause m.queue })
    resumes : Step m (record m { queue = resume m.queue; pending = suc m.pending })
    stops_graceful : Step m (record m { queue = stop_graceful m.queue; pending = suc m.pending })
    stops_now : Step m (record m { queue = stop_now m.queue; pending = suc m.pending })
    notifies :
        {pending : ℕ}
        → m.pending ≡ suc pending
        → Step m (notify_all (record m { pending = pending }))

  unfoldable pub start : ℕ → Monitor T
  unfolding create
  start capacity = record { queue = create capacity; waiting = 0; woken = 0; pending = 0 }
