-- ===== src/TaskQueue.antt =====
-- lab_3/queue.h and lab_3/queue.cpp, class `ThreadSafeQueue`. Every method holds the mutex from its
-- first line to its return, so a call is one step on the fields; only `waitPop` gives the mutex up,
-- while it waits. Who waits and who is notified is in `Monitor`.
pub mod Order
pub mod Shutdown
use multithreading_labs.Base.{
  ℕ, ◌≡◌, Option, none, some, Bool, true, false, not, ◌&&◌, ◌||◌, List, [], ◌∷◌, ◌++◌, length, leb,
  if◌then◌else◌,
}

-- A task is opaque, and `tasks` is the `std::queue`, front first.
pub record TaskQueue (T : Type 0) : Type 0 where
  pub tasks : List T
  pub capacity_value : ℕ
  pub accepting : Bool
  pub stop : Bool
  pub stop_now_flag : Bool
  pub paused : Bool

pub record PushResult : Type 0 where
  pub accepted : Bool
  pub became_full : Bool
  pub size_after : ℕ

pub record PopResult : Type 0 where
  pub has_task : Bool
  pub size_after : ℕ

abbrev pub is_empty {ℓ} : {A : Type ℓ} → List A → Bool
is_empty [] = true
is_empty (x ∷ xs) = false

module _ {T : Type 0} where
  unfoldable pub create : ℕ → TaskQueue T
  create capacity = record {
    tasks = [];
    capacity_value = capacity;
    accepting = true;
    stop = false;
    stop_now_flag = false;
    paused = false;
  }

  unfoldable pub push : TaskQueue T → T → PushResult × TaskQueue T
  push q task =
      let size_before = length q.tasks in
      if ((not q.accepting || q.stop) || q.stop_now_flag) || leb q.capacity_value size_before
      then (record { accepted = false; became_full = false; size_after = size_before }, q)
      else (let after = q.tasks ++ (task ∷ []) in
          (
            record {
              accepted = true;
              became_full = leb q.capacity_value (length after);
              size_after = length after;
            },
            record q { tasks = after },
          ))

  -- The condition that `cv.wait` waits for.
  unfoldable pub wait_condition : TaskQueue T → Bool
  wait_condition q = q.stop_now_flag || (not q.paused && (not (is_empty q.tasks) || q.stop))

  -- The part of `waitPop` below the wait, with what it assigns to `task`.
  unfoldable pub pop_front : TaskQueue T → List T → PopResult × Option T × TaskQueue T
  pop_front q [] = (record { has_task = false; size_after = 0 }, none, q)
  pop_front q (task ∷ rest) =
      (record { has_task = true; size_after = length rest }, some task, record q { tasks = rest })

  unfoldable pub after_wait : TaskQueue T → PopResult × Option T × TaskQueue T
  unfolding pop_front
  after_wait q =
      if q.stop_now_flag
      then (record { has_task = false; size_after = length q.tasks }, none, q)
      else if q.stop && is_empty q.tasks
      then (record { has_task = false; size_after = length q.tasks }, none, q)
      else if is_empty q.tasks
      then (record { has_task = false; size_after = length q.tasks }, none, q)
      else pop_front q q.tasks

  -- `none`: the caller has to wait.
  unfoldable pub wait_pop : TaskQueue T → Option (PopResult × Option T × TaskQueue T)
  unfolding wait_condition after_wait
  wait_pop q = if wait_condition q then some (after_wait q) else none

  unfoldable pub pause : TaskQueue T → TaskQueue T
  pause q = record q { paused = true }

  unfoldable pub resume : TaskQueue T → TaskQueue T
  resume q = record q { paused = false }

  unfoldable pub stop_graceful : TaskQueue T → TaskQueue T
  stop_graceful q = record q { accepting = false; stop = true; paused = false }

  unfoldable pub stop_now : TaskQueue T → TaskQueue T
  stop_now q = record q {
    tasks = [];
    accepting = false;
    stop = true;
    stop_now_flag = true;
    paused = false;
  }

  unfoldable pub capacity : TaskQueue T → ℕ
  capacity q = q.capacity_value
