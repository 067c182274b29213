-- ===== src/Monitor/Wakeup.antt =====
-- No wake-up is lost.
use multithreading_labs.Base.{
  ℕ, zero, suc, ◌≤◌, ◌<◌, ◌≡◌, sym, subst, ap, ◌⊎◌, inl, inr, true, false, Bool-cases, List, [],
  ◌∷◌, ◌++◌, arith, length, length-append, dec_lt,
}
use multithreading_labs.TaskQueue.{TaskQueue, push, wait_condition, is_empty, wait_pop, pause}
use multithreading_labs.TaskQueue.Order.{Op, queue_after_pop, apply}
use multithreading_labs.TaskQueue.Shutdown.{IsValid, apply-IsValid, create-IsValid, wait_pop-cases}
use multithreading_labs.Monitor.{
  Monitor, notify_one, notify_all, push_step, test_step, Step, pushes, calls, wakes, spurious,
  pauses, resumes, stops_graceful, stops_now, notifies, start,
}

pub data Reach {T : Type 0} (capacity : ℕ) : Monitor T → Type 0 where
  here : Reach capacity (start capacity)
  next : {m m' : Monitor T} → Reach capacity m → Step m m' → Reach capacity m'

-- While a worker sleeps and no `notify_all` is due, no stop is in force, and unless the queue is
-- paused there are no more tasks than workers on their way.
pub record Inv {T : Type 0} (m : Monitor T) : Type 0 where
  pub valid : IsValid m.queue
  pub running : 0 < m.waiting → m.pending ≡ 0 → m.queue.stop_now_flag ≡ false
  pub unstopped : 0 < m.waiting → m.pending ≡ 0 → m.queue.paused ≡ false → m.queue.stop ≡ false
  pub covered :
      0 < m.waiting → m.pending ≡ 0 → m.queue.paused ≡ false → length m.queue.tasks ≤ m.woken

module _ {T : Type 0} where
  push-cases :
      (q : TaskQueue T) (t : T)
      → ((push q t).0.accepted ≡ true) × ((push q t).1 ≡ record q { tasks = q.tasks ++ (t ∷ []) })
        ⊎ ((push q t).0.accepted ≡ false) × ((push q t).1 ≡ q)
  unfolding push
  push-cases q t = ground arith

  -- A new task wakes a worker.
  notify_one-Inv :
      (q : TaskQueue T) (waiting woken pending : ℕ)
      → IsValid q
      → (0 < waiting → pending ≡ 0 → q.stop_now_flag ≡ false)
      → (0 < waiting → pending ≡ 0 → q.paused ≡ false → q.stop ≡ false)
      → (0 < waiting → pending ≡ 0 → q.paused ≡ false → length q.tasks ≤ suc woken)
      → Inv (notify_one (record { queue = q; waiting = waiting; woken = woken; pending = pending }))
  unfolding notify_one
  notify_one-Inv q zero woken pending v r s c = record {
    valid = v;
    running = λ h. absurd (omega arith);
    unstopped = λ h. absurd (omega arith);
    covered = λ h. absurd (omega arith);
  }
  notify_one-Inv q (suc waiting) woken pending v r s c = record {
    valid = v;
    running = λ h. r (omega arith);
    unstopped = λ h. s (omega arith);
    covered = λ h. c (omega arith);
  }

  push_step-Inv : (m : Monitor T) (t : T) → Inv m → Inv (push_step m t)
  unfolding push_step apply
  push_step-Inv m t i = elim (push-cases m.queue t) [
    | inl (a, e) ↦
        let v : IsValid (record m.queue { tasks = m.queue.tasks ++ (t ∷ []) }) =
          rw e at ((apply-IsValid m.queue (Op.pushes t) i.valid).0) in
        rw a (
          subst (λ q. Inv (notify_one (record m { queue = q }))) (sym e)
            (notify_one-Inv (record m.queue { tasks = m.queue.tasks ++ (t ∷ []) }) m.waiting m.woken
              m.pending v i.running i.unstopped
              (λ h p q. omega (arith, i.covered h p q, length-append m.queue.tasks (t ∷ [])))))
    | inr (a, e) ↦ rw a (subst (λ q. Inv (record m { queue = q })) (sym e) i)
  ]

  -- The condition is tested by a worker that does not count as woken. If it was, the others may be
  -- one fewer than the tasks.
  test_step-Inv :
      (m : Monitor T)
      → IsValid m.queue
      → (0 < m.waiting → m.pending ≡ 0 → m.queue.stop_now_flag ≡ false)
      → (0 < m.waiting → m.pending ≡ 0 → m.queue.paused ≡ false → m.queue.stop ≡ false)
      → (0 < m.waiting
          → m.pending ≡ 0
          → m.queue.paused ≡ false
          → length m.queue.tasks ≤ suc m.woken)
      → Inv (test_step m)
  unfolding test_step apply queue_after_pop
  test_step-Inv m v r s c = elim (wait_pop-cases m.queue v) [
    | inl (later, why, e) ↦ rw e (record {
      valid = v;
      running = λ h p. later;
      unstopped = λ h p q. elim why [ inl x ↦ cc | inr x ↦ x.1 ];
      covered = λ h p q. elim why [ inl x ↦ cc | inr x ↦ omega (arith, ap length x.0) ];
    })
    | inr rest ↦ elim rest [
      | inl (stopped, none_left, why, e) ↦ rw e (record {
        valid = v;
        running = r;
        unstopped = s;
        covered = λ h p q. omega (arith, ap length none_left);
      })
      | inr (t, ts, (later, goes, front, e)) ↦
          let v' : IsValid (queue_after_pop m.queue (wait_pop m.queue)) =
            (apply-IsValid m.queue Op.pops v).0 in
          rw e (record {
            valid = rw e at v';
            running = r;
            unstopped = s;
            covered = λ h p q. omega (arith, c h p q, ap length front);
          })
    ]
  ]

  flush-Inv : (m : Monitor T) → IsValid m.queue → Inv (notify_all m)
  unfolding notify_all
  flush-Inv m v = record {
    valid = v;
    running = λ h. absurd (omega arith);
    unstopped = λ h. absurd (omega arith);
    covered = λ h. absurd (omega arith);
  }

  -- A call whose `notify_all` is still to come.
  pending-Inv :
      (m : Monitor T) (q : TaskQueue T)
      → IsValid q
      → Inv (record m { queue = q; pending = suc m.pending })
  pending-Inv m q v = record {
    valid = v;
    running = λ h p. absurd (omega arith);
    unstopped = λ h p. absurd (omega arith);
    covered = λ h p. absurd (omega arith);
  }

  pub Step-Inv : {m m' : Monitor T} → Step m m' → Inv m → Inv m'
  unfolding apply pause
  Step-Inv {m} (pushes task) i = push_step-Inv m task i
  Step-Inv {m} calls i =
      test_step-Inv m i.valid i.running i.unstopped (λ h p q. omega (arith, i.covered h p q))
  Step-Inv {m} (wakes {woken} e) i =
      test_step-Inv (record m { woken = woken }) i.valid i.running i.unstopped
        (λ h p q. omega (arith, i.covered h p q))
  Step-Inv {m} (spurious {waiting} e) i = record {
    valid = i.valid;
    running = λ h. i.running (omega arith);
    unstopped = λ h. i.unstopped (omega arith);
    covered = λ h p q. omega (arith, i.covered (omega arith) p q);
  }
  Step-Inv {m} pauses i = record {
    valid = (apply-IsValid m.queue Op.pauses i.valid).0;
    running = i.running;
    unstopped = λ h p q. cc;
    covered = λ h p q. cc;
  }
  Step-Inv {m} resumes i = pending-Inv m _ (apply-IsValid m.queue Op.resumes i.valid).0
  Step-Inv {m} stops_graceful i =
      pending-Inv m _ (apply-IsValid m.queue Op.stops_graceful i.valid).0
  Step-Inv {m} stops_now i = pending-Inv m _ (apply-IsValid m.queue Op.stops_now i.valid).0
  Step-Inv {m} (notifies {pending} e) i = flush-Inv (record m { pending = pending }) i.valid

  pub Reach-Inv : {capacity : ℕ} {m : Monitor T} → Reach capacity m → Inv m
  unfolding start
  Reach-Inv {capacity} here = record {
    valid = create-IsValid capacity;
    running = λ h. absurd (omega arith);
    unstopped = λ h. absurd (omega arith);
    covered = λ h. absurd (omega arith);
  }
  Reach-Inv (next r st) = Step-Inv st (Reach-Inv r)

  is_empty-length : (xs : List T) → is_empty xs ≡ false → 0 < length xs
  is_empty-length [] e = cc
  is_empty-length (x ∷ xs) e = omega arith

  wait_condition-parts :
      (q : TaskQueue T)
      → wait_condition q ≡ true
      → (q.stop_now_flag ≡ true) ⊎ (q.paused ≡ false) × ((q.stop ≡ true) ⊎ (0 < length q.tasks))
  unfolding wait_condition
  wait_condition-parts q c = elim (Bool-cases q.stop_now_flag) [
    | inl now ↦ inl now
    | inr later ↦ elim (Bool-cases (is_empty q.tasks)) [
      | inl none_left ↦ inr (ground arith, inl (ground arith))
      | inr left ↦ inr (ground arith, inr (is_empty-length q.tasks left))
    ]
  ]

  -- However the threads interleave and whatever spurious wake-ups occur: when the condition that a
  -- worker sleeps on holds, some worker has been notified and will test it, or a `notify_all` is on
  -- its way.
  pub no_lost_wakeup :
      {capacity : ℕ} {m : Monitor T}
      → Reach capacity m
      → 0 < m.waiting
      → wait_condition m.queue ≡ true
      → (0 < m.woken) ⊎ (0 < m.pending)
  no_lost_wakeup {m = m} r h c = elim (dec_lt 0 m.pending) [
    | yes due ↦ inr due
    | no none_due ↦
        let i = Reach-Inv r in
        let p : m.pending ≡ 0 = omega arith in
        let later = i.running h p in
        elim (wait_condition-parts m.queue c) [
          | inl now ↦ cc
          | inr (goes, inl stopped) ↦ let unstopped = i.unstopped h p goes in cc
          | inr (goes, inr some_task) ↦ inl (omega (arith, i.covered h p goes))
        ]
  ]

  -- Once a stop is in force, the queue is not paused and every `notify_all` is made, no worker
  -- sleeps: all of them can be joined.
  pub stop_strands_none :
      {capacity : ℕ} {m : Monitor T}
      → Reach capacity m
      → m.queue.stop ≡ true
      → (m.queue.paused ≡ false) ⊎ (m.queue.stop_now_flag ≡ true)
      → m.pending ≡ 0
      → m.waiting ≡ 0
  stop_strands_none {m = m} r h c p = elim (dec_lt 0 m.waiting) [
    | yes sleeps ↦
        let i = Reach-Inv r in
        let later = i.running sleeps p in
        elim c [ inl goes ↦ let unstopped = i.unstopped sleeps p goes in cc | inr now ↦ cc ]
    | no none_sleeps ↦ omega arith
  ]
