-- ===== src/Tests/Queue.antt =====
-- A queue of two places.
use multithreading_labs.Base.{ℕ, suc, ◌<◌, ◌≡◌, ◌⊎◌, inl, refl, arith, List, [], ◌∷◌}
use multithreading_labs.TaskQueue.{TaskQueue, create, push, wait_pop, stop_graceful}
use multithreading_labs.TaskQueue.Order.{Op, pops, stops_now, run, apply, Conserves, run-Conserves}
use multithreading_labs.TaskQueue.Shutdown.{IsValid, create-IsValid, apply-IsValid}
use multithreading_labs.Monitor.{
  Monitor, start, push_step, test_step, calls, notifies, Step, notify_all,
}
use multithreading_labs.Monitor.Wakeup.{Reach, here, next, no_lost_wakeup, stop_strands_none}

abbrev some_calls : List (Op ℕ)
some_calls =
    Op.pushes 7
    ∷ Op.pushes 8
    ∷ Op.pushes 9
    ∷ pops
    ∷ Op.stops_graceful
    ∷ Op.pushes 10
    ∷ pops
    ∷ stops_now
    ∷ []

abbrev empty_queue : TaskQueue ℕ
empty_queue = create 2

run-Conserves_example : Conserves empty_queue.tasks (run empty_queue some_calls)
run-Conserves_example = run-Conserves empty_queue some_calls

-- The third task finds the queue full, the fourth a queue that stops.
some_calls-accepted :
    ((run empty_queue some_calls).accepted ≡ 7 ∷ 8 ∷ [])
    × ((run empty_queue some_calls).handed_out ≡ 7 ∷ 8 ∷ [])
unfolding create run push wait_pop stop_graceful
some_calls-accepted = (refl, refl)

apply-IsValid_example :
    IsValid (apply empty_queue (Op.pushes 7))
    × ((apply empty_queue (Op.pushes 7)).capacity_value ≡ empty_queue.capacity_value)
apply-IsValid_example = apply-IsValid empty_queue (Op.pushes 7) (create-IsValid 2)

-- Two workers go to sleep, then a task comes.
abbrev asleep : Monitor ℕ
asleep = test_step (test_step (start 2))

asleep-Reach : Reach 2 asleep
asleep-Reach = next (next here calls) calls

abbrev task_came : Monitor ℕ
task_came = push_step asleep 7

no_lost_wakeup_example : (0 < task_came.woken) ⊎ (0 < task_came.pending)
unfolding start test_step push_step create wait_pop push
no_lost_wakeup_example = no_lost_wakeup (next asleep-Reach (Step.pushes 7)) (omega arith) refl

abbrev stopping : Monitor ℕ
stopping = record asleep { queue = stop_graceful asleep.queue; pending = suc asleep.pending }

abbrev stopped : Monitor ℕ
stopped = notify_all (record stopping { pending = 0 })

stopped-Reach : Reach 2 stopped
unfolding start test_step create wait_pop
stopped-Reach = next (next asleep-Reach Step.stops_graceful) (notifies refl)

stop_strands_none_example : stopped.waiting ≡ 0
unfolding start test_step create wait_pop stop_graceful notify_all
stop_strands_none_example = stop_strands_none stopped-Reach refl (inl refl) refl
