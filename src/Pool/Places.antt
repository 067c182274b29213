-- ===== src/Pool/Places.antt =====
-- What a worker's place in its loop says about the queue, and that every call of the queue keeps it.
use multithreading_labs.Base.{
  ℕ, zero, suc, ◌≡◌, refl, inl, inr, none, some, true, List, [], ◌∷◌, arith, set, All,
}
use multithreading_labs.TaskQueue.{TaskQueue, push, pause, resume, stop_graceful, stop_now}
use multithreading_labs.TaskQueue.Order.{Op, queue_after_pop, apply}
use multithreading_labs.TaskQueue.Shutdown
use multithreading_labs.TaskQueue.Shutdown.{wait_pop-cases, apply-IsValid}
use multithreading_labs.Pool.{Worker, idle, waiting, popped, timed, recorded, working, exited}

module _ {T : Type 0} where
  -- The queue stops and is empty, and stays so.
  abbrev pub IsOver : TaskQueue T → Type 0
  IsOver q = (q.stop ≡ true) × (q.tasks ≡ [])

  -- A worker with a task was told so; one without has seen the end of the queue.
  abbrev pub Agrees : TaskQueue T → Worker T → Type 0
  Agrees q idle = Unit
  Agrees q (waiting wait_start) = Unit
  Agrees q (popped wait_start result none) = IsOver q
  Agrees q (popped wait_start result (some task)) = result.has_task ≡ true
  Agrees q (timed wait_start wait_end result none) = IsOver q
  Agrees q (timed wait_start wait_end result (some task)) = result.has_task ≡ true
  Agrees q (recorded wait_end result task) = Unit
  Agrees q (working task) = Unit
  Agrees q exited = IsOver q

  pub apply-IsOver :
      (q : TaskQueue T) (op : Op T) → Shutdown.IsValid q → IsOver q → IsOver (apply q op)
  unfolding apply push pause resume stop_graceful stop_now queue_after_pop
  apply-IsOver q (Op.pushes t) v o = grind arith
  apply-IsOver q Op.pops v o = elim (wait_pop-cases q v) [
    | inl (a, b, e) ↦ rw e o
    | inr (inl (a, b, c, e)) ↦ rw e o
    | inr (inr (t, rest, (a, b, c, e))) ↦ absurd (cc)
  ]
  apply-IsOver q Op.pauses v o = o
  apply-IsOver q Op.resumes v o = o
  apply-IsOver q Op.stops_graceful v o = (refl, o.1)
  apply-IsOver q Op.stops_now v o = (refl, refl)

  -- `stopNowFlag` is never taken back.
  pub apply-stop_now_flag :
      (q : TaskQueue T) (op : Op T)
      → Shutdown.IsValid q
      → q.stop_now_flag ≡ true
      → (apply q op).stop_now_flag ≡ true
  unfolding apply push pause resume stop_graceful stop_now queue_after_pop
  apply-stop_now_flag q (Op.pushes t) v h = ground arith
  apply-stop_now_flag q Op.pops v h = elim (wait_pop-cases q v) [
    | inl (a, b, e) ↦ rw e h
    | inr (inl (a, b, c, e)) ↦ rw e h
    | inr (inr (t, rest, (a, b, c, e))) ↦ absurd (cc)
  ]
  apply-stop_now_flag q Op.pauses v h = h
  apply-stop_now_flag q Op.resumes v h = h
  apply-stop_now_flag q Op.stops_graceful v h = h
  apply-stop_now_flag q Op.stops_now v h = refl

  Agrees-over :
      (q q' : TaskQueue T) (w : Worker T) → (IsOver q → IsOver q') → Agrees q w → Agrees q' w
  Agrees-over q q' idle f a = tt
  Agrees-over q q' (waiting s) f a = tt
  Agrees-over q q' (popped s r none) f a = f a
  Agrees-over q q' (popped s r (some t)) f a = a
  Agrees-over q q' (timed s e r none) f a = f a
  Agrees-over q q' (timed s e r (some t)) f a = a
  Agrees-over q q' (recorded e r t) f a = tt
  Agrees-over q q' (working t) f a = tt
  Agrees-over q q' exited f a = f a

  pub All-Agrees :
      (q q' : TaskQueue T) (ws : List (Worker T))
      → (IsOver q → IsOver q')
      → All (Agrees q) ws
      → All (Agrees q') ws
  All-Agrees q q' [] f a = tt
  All-Agrees q q' (w ∷ ws) f a = (Agrees-over q q' w f a.0, All-Agrees q q' ws f a.1)

  pub All-set :
      (q : TaskQueue T) (ws : List (Worker T)) (i : ℕ) (w : Worker T)
      → All (Agrees q) ws
      → Agrees q w
      → All (Agrees q) (set ws i w)
  All-set q [] i w a b = tt
  All-set q (x ∷ ws) zero w a b = (b, a.1)
  All-set q (x ∷ ws) (suc i) w a b = (a.0, All-set q ws i w a.1 b)
