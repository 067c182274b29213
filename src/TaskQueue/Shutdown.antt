-- ===== src/TaskQueue/Shutdown.antt =====
-- The flags: capacity, when a worker is sent home, and what a graceful stop leaves.
use multithreading_labs.Base.{
  ℕ, ◌+◌, ◌≤◌, ◌<◌, ◌≡◌, ◌↔◌, refl, ap, ◌⊎◌, inl, inr, none, some, true, false, Bool-cases, List,
  [], ◌∷◌, ◌++◌, arith, length, length-append, if◌then◌else◌,
}
use multithreading_labs.TaskQueue.{
  TaskQueue, push, wait_pop, pause, resume, stop_graceful, stop_now, create, capacity,
}
use multithreading_labs.TaskQueue.Order.{
  Op, pushes, pops, pauses, resumes, stops_graceful, stops_now, queue_after_pop, apply,
}

-- The queue never exceeds its capacity, and the flags imply one another.
pub record IsValid {T : Type 0} (q : TaskQueue T) : Type 0 where
  pub bounded : length q.tasks ≤ q.capacity_value
  pub stopped_now : q.stop_now_flag ≡ true → (q.stop ≡ true) × (q.tasks ≡ [])
  pub stopped : q.stop ≡ true → q.accepting ≡ false

module _ {T : Type 0} where
  push-IsValid : (q : TaskQueue T) (t : T) → IsValid q → IsValid (push q t).1
  unfolding push
  push-IsValid q t v = grind (arith, length-append q.tasks (t ∷ []))

  -- How a `waitPop` ends: it waits; it returns no task; or it returns the front task.
  abbrev pub Waits : TaskQueue T → Type 0
  Waits q =
      (q.stop_now_flag ≡ false)
      × ((q.paused ≡ true) ⊎ ((q.tasks ≡ []) × (q.stop ≡ false)))
      × (wait_pop q ≡ none)

  abbrev pub Leaves : TaskQueue T → Type 0
  Leaves q =
      (q.stop ≡ true)
      × (q.tasks ≡ [])
      × ((q.stop_now_flag ≡ true) ⊎ (q.paused ≡ false))
      × (wait_pop q ≡ some (record { has_task = false; size_after = 0 }, none, q))

  abbrev pub Takes : TaskQueue T → T → List T → Type 0
  Takes q t rest =
      (q.stop_now_flag ≡ false)
      × (q.paused ≡ false)
      × (q.tasks ≡ t ∷ rest)
      × (wait_pop q
          ≡ some (
            record { has_task = true; size_after = length rest },
            some t,
            record q { tasks = rest },
          ))

  wait_pop-cases_of :
      (q : TaskQueue T) (xs : List T)
      → IsValid q
      → q.tasks ≡ xs
      → Waits q ⊎ (Leaves q ⊎ ((t : T) × (rest : List T) × Takes q t rest))
  unfolding wait_pop
  wait_pop-cases_of q [] v e = elim (Bool-cases q.stop_now_flag) [
    | inl now ↦ let stopped = (v.stopped_now now).0 in inr (inl (stopped, e, inl now, ground arith))
    | inr later ↦ elim (Bool-cases q.paused) [
      | inl p ↦ inl (later, inl p, ground arith)
      | inr p ↦ elim (Bool-cases q.stop) [
        | inl s ↦ inr (inl (s, e, inr p, ground arith))
        | inr s ↦ inl (later, inr (e, s), ground arith)
      ]
    ]
  ]
  wait_pop-cases_of q (t ∷ rest) v e = elim (Bool-cases q.stop_now_flag) [
    | inl now ↦ let none_left = (v.stopped_now now).1 in cc
    | inr later ↦ elim (Bool-cases q.paused) [
      | inl p ↦ inl (later, inl p, ground arith)
      | inr p ↦ inr (inr (t, rest, (later, p, e, ground arith)))
    ]
  ]

  -- In a valid queue `waitPop` waits exactly while nothing is to be done; it returns without a task
  -- only when the queue is stopped and empty; and otherwise it takes the front task, alone, and
  -- reports the number of those left. (Its last test of `tasks.empty()` never succeeds.)
  pub wait_pop-cases :
      (q : TaskQueue T)
      → IsValid q
      → Waits q ⊎ (Leaves q ⊎ ((t : T) × (rest : List T) × Takes q t rest))
  wait_pop-cases q v = wait_pop-cases_of q q.tasks v refl

  pop-IsValid : (q : TaskQueue T) → IsValid q → IsValid (queue_after_pop q (wait_pop q))
  unfolding queue_after_pop
  pop-IsValid q v = elim (wait_pop-cases q v) [
    | inl (a, b, e) ↦ rw e v
    | inr rest ↦ elim rest [
      | inl (a, b, c, e) ↦ rw e v
      | inr (t, ts, (a, b, c, e)) ↦ rw e (record {
        bounded = omega (arith, v.bounded, ap length c);
        stopped_now = λ h. cc;
        stopped = v.stopped;
      })
    ]
  ]

  push-capacity : (q : TaskQueue T) (t : T) → (push q t).1.capacity_value ≡ q.capacity_value
  unfolding push
  push-capacity q t = ground arith

  pop-capacity :
      (q : TaskQueue T)
      → IsValid q
      → (queue_after_pop q (wait_pop q)).capacity_value ≡ q.capacity_value
  unfolding queue_after_pop
  pop-capacity q v = elim (wait_pop-cases q v) [
    | inl (a, b, e) ↦ rw e
    | inr rest ↦ elim rest [ inl (a, b, c, e) ↦ rw e | inr (t, ts, (a, b, c, e)) ↦ rw e ]
  ]

  -- From a valid queue, every call keeps the queue within its capacity and its flags consistent, and changes no
  -- capacity.
  pub apply-IsValid :
      (q : TaskQueue T) (op : Op T)
      → IsValid q
      → IsValid (apply q op) × ((apply q op).capacity_value ≡ q.capacity_value)
  unfolding apply pause resume stop_graceful stop_now
  apply-IsValid q (pushes t) v = (push-IsValid q t v, push-capacity q t)
  apply-IsValid q pops v = (pop-IsValid q v, pop-capacity q v)
  apply-IsValid q pauses v = ground arith
  apply-IsValid q resumes v = ground arith
  apply-IsValid q stops_graceful v = (
    record {
      bounded = v.bounded;
      stopped_now = λ h. (refl, (v.stopped_now h).1);
      stopped = λ h. refl;
    },
    refl,
  )
  apply-IsValid q stops_now v =
      (record { bounded = omega arith; stopped_now = λ h. (refl, refl); stopped = λ h. refl }, refl)

  pub create-IsValid : (capacity : ℕ) → IsValid (create {T = T} capacity)
  unfolding create
  create-IsValid capacity = record {
    bounded = omega arith;
    stopped_now = λ h. cc;
    stopped = λ h. cc;
  }

  -- What `push` reports in a valid queue, on every branch: it accepts a task exactly when no stop was called and there
  -- is room; then the task is the last one, `sizeAfter` is the new size, and `becameFull` says
  -- whether the capacity is reached. Otherwise nothing changes and `sizeAfter` is the old size.
  pub push-reports :
      (q : TaskQueue T) (t : T)
      → IsValid q
      → let (r, q') = push q t in
        ((r.accepted ≡ true)
          ↔ (q.accepting ≡ true) × (q.stop ≡ false) × (length q.tasks < q.capacity_value))
        × (r.size_after ≡ length q'.tasks)
        × ((r.became_full ≡ true) ↔ (r.accepted ≡ true) × (length q'.tasks ≡ q.capacity_value))
        × (q'.tasks ≡ (if r.accepted then q.tasks ++ (t ∷ []) else q.tasks))
  unfolding push
  push-reports q t v = (
    (λ h. (ground arith, ground arith, ground arith), λ h. ground (arith, v.stopped_now)),
    ground arith,
    (λ h. (ground arith, ground (arith, size)), λ h. ground (arith, size)),
    ground arith,
  )
    where
      size : length (q.tasks ++ (t ∷ [])) ≡ length q.tasks + 1
      size = omega (arith, length-append q.tasks (t ∷ []))
