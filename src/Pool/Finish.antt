-- ===== src/Pool/Finish.antt =====
-- The workers of a pool come to an end: what is left to do gets less with each of their steps.
use multithreading_labs.Base.{
  ℕ, zero, suc, ◌+◌, ◌*◌, ◌≤◌, ◌<◌, ◌≡◌, refl, sym, ap, ◌∙◌, subst, ◌⊎◌, inl, inr, Option, none,
  some, true, false, List, [], ◌∷◌, arith, get_elem?, set, All-get_elem?, length,
}
use multithreading_labs.TaskQueue.{TaskQueue, wait_pop}
use multithreading_labs.TaskQueue.Shutdown.{wait_pop-cases}
use multithreading_labs.Stats.{Floats}
use multithreading_labs.Pool.Places.{Agrees}
use multithreading_labs.Pool.Flags.{IsValid, Step-IsValid}
use multithreading_labs.Pool.{
  all_exited, Worker, idle, waiting, popped, timed, recorded, working, exited, Pool, act, pop_step,
  after_record, worker_step, works,
}
use multithreading_labs.Pool.Shutdown.{Reach, Reach-IsValid}

module _ (F : Floats) {T : Type 0} where
  -- How many steps a worker still has to make, at most, if no task is added.
  abbrev pub rank : Worker T → ℕ
  rank exited = 0
  rank (timed wait_start wait_end result none) = 1
  rank (popped wait_start result none) = 2
  rank (waiting wait_start) = 3
  rank idle = 4
  rank (working task) = 5
  rank (recorded wait_end result task) = 6
  rank (timed wait_start wait_end result (some task)) = 7
  rank (popped wait_start result (some task)) = 8

  abbrev pub ranks : List (Worker T) → ℕ
  ranks [] = 0
  ranks (w ∷ ws) = rank w + ranks ws

  abbrev pub work_left : Pool F T → ℕ
  work_left p = 6 * length p.queue.tasks + ranks p.workers

  ranks-set :
      (ws : List (Worker T)) (i : ℕ) (w w' : Worker T)
      → get_elem? ws i ≡ some w
      → ranks (set ws i w') + rank w ≡ ranks ws + rank w'
  ranks-set [] i w w' e = cc
  ranks-set (x ∷ ws) zero w w' e = let same : x ≡ w = cc in rw same (omega arith)
  ranks-set (x ∷ ws) (suc i) w w' e = omega (arith, ranks-set ws i w w' e)

  -- A stop is in force, and the queue is not paused.
  pub record Stopping (q : TaskQueue T) : Type 0 where
    pub stops : q.stop ≡ true
    pub goes : (q.paused ≡ false) ⊎ (q.stop_now_flag ≡ true)

  abbrev pub Shrinks : Pool F T → Option (Pool F T) → Type 0
  Shrinks p o = (p' : Pool F T) × (o ≡ some p') × (work_left p' < work_left p) × Stopping p'.queue

  -- A worker moves down, and the queue is left alone.
  moved :
      (p p' : Pool F T) (i : ℕ) (w w' : Worker T)
      → Stopping p.queue
      → get_elem? p.workers i ≡ some w
      → p'.queue ≡ p.queue
      → p'.workers ≡ set p.workers i w'
      → rank w' < rank w
      → Shrinks p (some p')
  moved p p' i w w' s here q ws less =
      let sizes : ranks p'.workers + rank w ≡ ranks p.workers + rank w' =
        ap (λ (ws : List (Worker T)). ranks ws + rank w) ws ∙ ranks-set p.workers i w w' here in
      let tasks : length p'.queue.tasks ≡ length p.queue.tasks =
        ap (λ (q : TaskQueue T). length q.tasks) q in
      (p', refl, omega (arith, sizes, tasks), subst Stopping (sym q) s)

  pop_step-Shrinks :
      (p : Pool F T) (i wait_start : ℕ)
      → IsValid F p
      → Stopping p.queue
      → get_elem? p.workers i ≡ some (waiting wait_start)
      → Shrinks p (pop_step F p i wait_start (wait_pop p.queue))
  unfolding pop_step
  pop_step-Shrinks p i wait_start v s here = elim (wait_pop-cases p.queue v.queue) [
    | inl (a, b, q) ↦ absurd (let goes = s.goes in let stops = s.stops in ground arith)
    | inr (inl (a, b, c, q)) ↦
        subst (λ o. Shrinks p (pop_step F p i wait_start o)) (sym q)
          (moved p _ i (waiting wait_start) (popped wait_start _ none) s here refl refl
            (omega arith))
    | inr (inr (t, rest, (a, b, c, q))) ↦
        let sizes =
          ranks-set p.workers i (waiting wait_start)
            (popped wait_start (record { has_task = true; size_after = length rest }) (some t))
            here in
        let tasks : length p.queue.tasks ≡ suc (length rest) = ap length c in
        subst (λ o. Shrinks p (pop_step F p i wait_start o)) (sym q)
          (_, refl, omega (arith, sizes, tasks), record { stops = s.stops; goes = s.goes })
  ]

  act-Shrinks :
      (p : Pool F T) (i : ℕ) (w : Worker T)
      → IsValid F p
      → Stopping p.queue
      → get_elem? p.workers i ≡ some w
      → (w ≡ exited → ⊥)
      → Agrees p.queue w
      → Shrinks p (act F p i w)
  unfolding act after_record
  act-Shrinks p i idle v s h n a = moved p _ i idle (waiting p.clock) s h refl refl (omega arith)
  act-Shrinks p i (waiting t) v s h n a = pop_step-Shrinks p i t v s h
  act-Shrinks p i (popped t r none) v s h n a =
      moved p _ i (popped t r none) (timed t p.clock r none) s h refl refl (omega arith)
  act-Shrinks p i (popped t r (some u)) v s h n a =
      moved p _ i (popped t r (some u)) (timed t p.clock r (some u)) s h refl refl (omega arith)
  act-Shrinks p i (timed t e r none) v s h n a =
      moved p _ i (timed t e r none) exited s h refl refl (omega arith)
  act-Shrinks p i (timed t e r (some u)) v s h n a =
      moved p _ i (timed t e r (some u)) (recorded e r u) s h refl (rw a refl) (omega arith)
  act-Shrinks p i (recorded e r t) v s h n a =
      moved p _ i (recorded e r t) (working t) s h refl refl (omega arith)
  act-Shrinks p i (working t) v s h n a = moved p _ i (working t) idle s h refl refl (omega arith)
  act-Shrinks p i exited v s h n a = absurd (n refl)

  -- A stop is in force and the queue is not paused: a worker that has not left its loop can go on,
  -- wherever it stands; whatever it does, the work that is left gets less, and the stop stays in force.
  pub worker_step-Shrinks :
      (p : Pool F T) (i : ℕ) (w : Worker T)
      → IsValid F p
      → Stopping p.queue
      → get_elem? p.workers i ≡ some w
      → (w ≡ exited → ⊥)
      → Shrinks p (worker_step F p i)
  unfolding worker_step
  worker_step-Shrinks p i w v s h n =
      subst (Shrinks p) (sym (rw (h, worker_step) refl))
        (act-Shrinks p i w v s h n (All-get_elem? (Agrees p.queue) p.workers i w v.workers h))

  -- The pool after the workers of a schedule have moved, one after the other.
  abbrev pub run : Pool F T → List ℕ → Pool F T
  run p [] = p
  run p (i ∷ schedule) = elim (worker_step F p i) [
    | none ↦ run p schedule
    | some p' ↦ run p' schedule
  ]

  someone_left :
      (ws : List (Worker T))
      → (all_exited F ws ≡ true)
        ⊎ ((i : ℕ) × (w : Worker T) × (get_elem? ws i ≡ some w) × (w ≡ exited → ⊥))
  someone_left [] = inl refl
  someone_left (exited ∷ ws) = elim (someone_left ws) [
    | inl all ↦ inl all
    | inr (i, w, h, n) ↦ inr (suc i, w, h, n)
  ]
  someone_left (idle ∷ ws) = inr (0, idle, refl, λ e. cc)
  someone_left (waiting s ∷ ws) = inr (0, waiting s, refl, λ e. cc)
  someone_left (popped s r t ∷ ws) = inr (0, popped s r t, refl, λ e. cc)
  someone_left (timed s e' r t ∷ ws) = inr (0, timed s e' r t, refl, λ e. cc)
  someone_left (recorded e' r t ∷ ws) = inr (0, recorded e' r t, refl, λ e. cc)
  someone_left (working t ∷ ws) = inr (0, working t, refl, λ e. cc)

  abbrev Finishes : Pool F T → ℕ → Type 0
  Finishes p n =
      (schedule : List ℕ) × (length schedule ≤ n) × (all_exited F (run p schedule).workers ≡ true)

  exits_within :
      (n : ℕ) (p : Pool F T) → IsValid F p → Stopping p.queue → work_left p ≤ n → Finishes p n
  exits_within zero p v s enough = elim (someone_left p.workers) [
    | inl all ↦ ([], omega arith, all)
    | inr (i, w, h, left) ↦
        let (p', e, less, s') = worker_step-Shrinks p i w v s h left in absurd (omega arith)
  ]
  exits_within (suc n) p v s enough = elim (someone_left p.workers) [
    | inl all ↦ ([], omega arith, all)
    | inr (i, w, h, left) ↦
        let (p', e, less, s') = worker_step-Shrinks p i w v s h left in
        let (schedule, short, all) =
          exits_within n p' (Step-IsValid F v (works i e)) s' (omega (arith, less, enough)) in
        let moves : run p (i ∷ schedule) ≡ run p' schedule = rw (e, run) refl in
        (
          i ∷ schedule,
          omega (arith, short),
          ap (λ (p : Pool F T). all_exited F p.workers) moves ∙ all,
        )
  ]

  -- Once a stop is in force and the queue is not paused, the workers of a pool can all leave their
  -- loops, in at most `work_left` steps: for every task that waits and every worker.
  pub run-all_exited :
      {n c : ℕ} (p : Pool F T)
      → Reach F n c p
      → Stopping p.queue
      → (schedule : List ℕ) × (length schedule ≤ work_left p)
        × (all_exited F (run p schedule).workers ≡ true)
  run-all_exited p r s = exits_within (work_left p) p (Reach-IsValid F r) s (omega arith)
