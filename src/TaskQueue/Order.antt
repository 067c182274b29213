-- ===== src/TaskQueue/Order.antt =====
-- The queue as a first-in first-out buffer: histories of calls.
use mathlib.Core.List.{append_assoc, append-nil}
use multithreading_labs.Base.{
  ◌≡◌, refl, ◌⊎◌, inl, inr, Option, none, some, true, false, Bool-cases, List, [], ◌∷◌, ◌++◌, arith,
}
use multithreading_labs.TaskQueue.{
  TaskQueue, PushResult, PopResult, push, wait_pop, pause, resume, stop_graceful, stop_now,
}

-- The calls that can change the queue.
pub data Op (T : Type 0) : Type 0 where
  pushes : T → Op T
  pops : Op T
  pauses resumes stops_graceful stops_now : Op T

-- The tasks that `push` accepted, that `waitPop` handed out and that `stopNow` threw away, each in
-- order, and the queue at the end.
pub record History (T : Type 0) : Type 0 where
  pub accepted : List T
  pub handed_out : List T
  pub discarded : List T
  pub last : TaskQueue T

module _ {T : Type 0} where
  abbrev pub add_push : T → PushResult → History T → History T
  add_push t r h = elim r.accepted [ true ↦ record h { accepted = t ∷ h.accepted } | false ↦ h ]

  abbrev pub add_pop : Option T → History T → History T
  add_pop none h = h
  add_pop (some t) h = record h { handed_out = t ∷ h.handed_out }

  -- A `waitPop` that has to wait changes nothing yet.
  unfoldable pub queue_after_pop :
      TaskQueue T → Option (PopResult × Option T × TaskQueue T) → TaskQueue T
  queue_after_pop q none = q
  queue_after_pop q (some (r, task, q')) = q'

  unfoldable pub task_of_pop : Option (PopResult × Option T × TaskQueue T) → Option T
  task_of_pop none = none
  task_of_pop (some (r, task, q')) = task

  unfoldable pub run : TaskQueue T → List (Op T) → History T
  unfolding queue_after_pop task_of_pop
  run q [] = record { accepted = []; handed_out = []; discarded = []; last = q }
  run q (pushes t ∷ ops) = add_push t (push q t).0 (run (push q t).1 ops)
  run q (pops ∷ ops) = add_pop (task_of_pop (wait_pop q)) (run (queue_after_pop q (wait_pop q)) ops)
  run q (pauses ∷ ops) = run (pause q) ops
  run q (resumes ∷ ops) = run (resume q) ops
  run q (stops_graceful ∷ ops) = run (stop_graceful q) ops
  run q (stops_now ∷ ops) =
      let h = run (stop_now q) ops in record h { discarded = q.tasks ++ h.discarded }

  -- The queue after one call.
  unfoldable pub apply : TaskQueue T → Op T → TaskQueue T
  unfolding queue_after_pop
  apply q (pushes t) = (push q t).1
  apply q pops = queue_after_pop q (wait_pop q)
  apply q pauses = pause q
  apply q resumes = resume q
  apply q stops_graceful = stop_graceful q
  apply q stops_now = stop_now q

  -- After `stopNow` nothing is handed out.
  stopped-push : (q : TaskQueue T) (t : T) → (push q t).1.stop_now_flag ≡ q.stop_now_flag
  unfolding push
  stopped-push q t = ground arith

  stopped-pop :
      (q : TaskQueue T)
      → q.stop_now_flag ≡ true
      → (task_of_pop (wait_pop q) ≡ none) × (queue_after_pop q (wait_pop q) ≡ q)
  unfolding wait_pop task_of_pop queue_after_pop
  stopped-pop q h = (ground arith, ground arith)

  handed_out-stopped :
      (q : TaskQueue T) (ops : List (Op T)) → q.stop_now_flag ≡ true → (run q ops).handed_out ≡ []
  unfolding run pause resume stop_graceful stop_now
  handed_out-stopped q [] h = refl
  handed_out-stopped q (pushes t ∷ ops) h =
      ground (arith, handed_out-stopped (push q t).1 ops, stopped-push q t)
  handed_out-stopped q (pops ∷ ops) h =
      let (a, b) = stopped-pop q h in rw (a, b) (handed_out-stopped q ops h)
  handed_out-stopped q (pauses ∷ ops) h = handed_out-stopped (pause q) ops h
  handed_out-stopped q (resumes ∷ ops) h = handed_out-stopped (resume q) ops h
  handed_out-stopped q (stops_graceful ∷ ops) h = handed_out-stopped (stop_graceful q) ops h
  handed_out-stopped q (stops_now ∷ ops) h = handed_out-stopped (stop_now q) ops refl

  -- What one call does to the tasks.
  push-tasks :
      (q : TaskQueue T) (t : T)
      → ((push q t).0.accepted ≡ true) × ((push q t).1.tasks ≡ q.tasks ++ (t ∷ []))
        ⊎ ((push q t).0.accepted ≡ false) × ((push q t).1.tasks ≡ q.tasks)
  unfolding push
  push-tasks q t = ground arith

  -- `waitPop` hands out nothing and keeps the tasks, or hands out the front task.
  abbrev pub Pops : TaskQueue T → Type 0
  Pops q =
      (task_of_pop (wait_pop q) ≡ none) × ((queue_after_pop q (wait_pop q)).tasks ≡ q.tasks)
      ⊎ ((t : T) × (task_of_pop (wait_pop q) ≡ some t)
          × (q.tasks ≡ t ∷ (queue_after_pop q (wait_pop q)).tasks))

  pop-tasks_of : (q : TaskQueue T) (xs : List T) → q.tasks ≡ xs → Pops q
  unfolding wait_pop task_of_pop queue_after_pop
  pop-tasks_of q [] e = inl (ground arith, ground arith)
  pop-tasks_of q (x ∷ xs) e = elim (Bool-cases q.stop_now_flag) [
    | inl stopped ↦ inl (ground arith, ground arith)
    | inr running ↦ elim (Bool-cases q.paused) [
      | inl waits ↦ inl (ground arith, ground arith)
      | inr goes ↦ inr (x, ground arith, ground arith)
    ]
  ]

  pub pop-tasks : (q : TaskQueue T) → Pops q
  pop-tasks q = pop-tasks_of q q.tasks refl

  -- `xs` was queued before the calls of the history `h`.
  abbrev pub Conserves : List T → History T → Type 0
  Conserves xs h = xs ++ h.accepted ≡ h.handed_out ++ (h.discarded ++ h.last.tasks)

  add_push-Conserves :
      (t : T) (r : PushResult) (xs ys : List T) (h : History T)
      → (r.accepted ≡ true) × (ys ≡ xs ++ (t ∷ [])) ⊎ (r.accepted ≡ false) × (ys ≡ xs)
      → Conserves ys h
      → Conserves xs (add_push t r h)
  add_push-Conserves t r xs ys h c e = ground (arith, append_assoc xs (t ∷ []) h.accepted)

  add_pop-Conserves :
      (o : Option T) (xs ys : List T) (h : History T)
      → (o ≡ none) × (ys ≡ xs) ⊎ ((t : T) × (o ≡ some t) × (xs ≡ t ∷ ys))
      → Conserves ys h
      → Conserves xs (add_pop o h)
  add_pop-Conserves o xs ys h (inl (a, b)) e = ground arith
  add_pop-Conserves o xs ys h (inr (t, a, b)) e = ground arith

  stop_now-Conserves :
      (xs accepted handed_out discarded tasks : List T)
      → handed_out ≡ []
      → [] ++ accepted ≡ handed_out ++ (discarded ++ tasks)
      → xs ++ accepted ≡ handed_out ++ ((xs ++ discarded) ++ tasks)
  stop_now-Conserves xs accepted handed_out discarded tasks h e =
      ground (arith, append_assoc xs discarded tasks)

  -- No call loses, invents or reorders a task: what was queued at first and what was accepted since
  -- is, in this order, what was handed out, then what `stopNow` discarded, then what is still queued.
  pub run-Conserves : (q : TaskQueue T) (ops : List (Op T)) → Conserves q.tasks (run q ops)
  unfolding run pause resume stop_graceful stop_now
  run-Conserves q [] = append-nil q.tasks
  run-Conserves q (pushes t ∷ ops) =
      add_push-Conserves t (push q t).0 q.tasks (push q t).1.tasks _ (push-tasks q t)
        (run-Conserves (push q t).1 ops)
  run-Conserves q (pops ∷ ops) =
      add_pop-Conserves (task_of_pop (wait_pop q)) q.tasks _ _ (pop-tasks q)
        (run-Conserves (queue_after_pop q (wait_pop q)) ops)
  run-Conserves q (pauses ∷ ops) = run-Conserves (pause q) ops
  run-Conserves q (resumes ∷ ops) = run-Conserves (resume q) ops
  run-Conserves q (stops_graceful ∷ ops) = run-Conserves (stop_graceful q) ops
  run-Conserves q (stops_now ∷ ops) =
      stop_now-Conserves q.tasks _ _ _ _ (handed_out-stopped (stop_now q) ops refl)
        (run-Conserves (stop_now q) ops)
