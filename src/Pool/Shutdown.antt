-- ===== src/Pool/Shutdown.antt =====
-- How a shutdown ends.
use mathlib.Core.List.{Perm, append-nil}
use mathlib.Core.List.Perm
use multithreading_labs.Base.{
  ℕ, zero, suc, ◌<◌, ◌≡◌, refl, sym, ap, ◌∙◌, ◌++◌, subst, inl, inr, true, false, List, [], ◌∷◌,
  arith, map, All, if◌then◌else◌, ltb, length, replicate,
}
use multithreading_labs.TaskQueue
use multithreading_labs.TaskQueue.{TaskQueue, wait_pop}
use multithreading_labs.Stats.{Floats}
use multithreading_labs.Pool.Spec.{Holds, Move-Holds, Holds-done, in_work}
use multithreading_labs.Pool.Places.{Agrees, IsOver}
use multithreading_labs.Pool.Flags.{IsValid, Step-IsValid, create-IsValid}
use multithreading_labs.Pool.Refinement.{place, view, Step-Matches}
use multithreading_labs.Pool.{
  all_exited, Worker, idle, waiting, popped, timed, recorded, working, exited, Pool, create,
  worker_limit, Step,
}

module _ (F : Floats) {T : Type 0} where
  -- The states that a pool can get into.
  pub data Reach (worker_count queue_capacity : ℕ) : Pool F T → Type 0 where
    begun : Reach worker_count queue_capacity (create F worker_count queue_capacity)
    stepped :
        {p p' : Pool F T}
        → Reach worker_count queue_capacity p
        → Step F p p'
        → Reach worker_count queue_capacity p'

  nobody_works : (n : ℕ) → in_work (map (place {T = T}) (replicate n idle)) ≡ []
  nobody_works zero = refl
  nobody_works (suc n) = nobody_works n

  create-Holds : (n queue_capacity : ℕ) → Holds (view F (create F {T = T} n queue_capacity))
  unfolding create TaskQueue.create
  create-Holds n queue_capacity = record {
    in_order = refl;
    all_there =
        subst (Perm []) (sym (nobody_works (if ltb worker_limit n then worker_limit else n)))
          (Perm.refl []);
    final = inl refl;
  }

  pub Reach-IsValid : {n c : ℕ} {p : Pool F T} → Reach n c p → IsValid F p
  Reach-IsValid {n} {c} begun = create-IsValid F n c
  Reach-IsValid (stepped r s) = Step-IsValid F (Reach-IsValid r) s

  -- Whatever the threads have done: the accepted tasks are, in this order, those that a worker began,
  -- those that `stopNow` threw away and those that wait; and the tasks that were begun are those that
  -- are finished and those in work.
  pub Reach-Holds : {n c : ℕ} {p : Pool F T} → Reach n c p → Holds (view F p)
  Reach-Holds {n} {c} begun = create-Holds n c
  Reach-Holds (stepped r s) = elim (Step-Matches F (Reach-IsValid r) s) [
    | inl move ↦ Move-Holds (Reach-Holds r) move
    | inr same ↦ subst Holds (sym same) (Reach-Holds r)
  ]

  exited-in_work : (ws : List (Worker T)) → all_exited F ws ≡ true → in_work (map place ws) ≡ []
  exited-in_work [] e = refl
  exited-in_work (exited ∷ ws) e = exited-in_work ws e
  exited-in_work (idle ∷ ws) e = cc
  exited-in_work (waiting s ∷ ws) e = cc
  exited-in_work (popped s r t ∷ ws) e = cc
  exited-in_work (timed s e' r t ∷ ws) e = cc
  exited-in_work (recorded e' r t ∷ ws) e = cc
  exited-in_work (working t ∷ ws) e = cc

  exited-IsOver :
      (q : TaskQueue T) (ws : List (Worker T))
      → 0 < length ws
      → All (Agrees q) ws
      → all_exited F ws ≡ true
      → IsOver q
  exited-IsOver q [] h a e = absurd (omega arith)
  exited-IsOver q (exited ∷ ws) h a e = a.0
  exited-IsOver q (idle ∷ ws) h a e = cc
  exited-IsOver q (waiting s ∷ ws) h a e = cc
  exited-IsOver q (popped s r t ∷ ws) h a e = cc
  exited-IsOver q (timed s e' r t ∷ ws) h a e = cc
  exited-IsOver q (recorded e' r t ∷ ws) h a e = cc
  exited-IsOver q (working t ∷ ws) h a e = cc

  -- However a shutdown ends, when all workers, at least one, have left their loops: nothing waits; the
  -- accepted tasks are those that were begun and those that were thrown away; all that were begun are
  -- finished.
  pub all_exited-Holds :
      {n c : ℕ} (p : Pool F T)
      → Reach n c p
      → 0 < length p.workers
      → all_exited F p.workers ≡ true
      → (p.queue.tasks ≡ [])
        × (p.log.accepted ≡ p.log.started ++ p.log.discarded)
        × Perm p.log.started p.log.completed
  all_exited-Holds p r some_worker all =
      let (stop, empty) =
        exited-IsOver p.queue p.workers some_worker (Reach-IsValid r).workers all in
      let h = Reach-Holds r in
      let idle_ = exited-in_work p.workers all in
      (
        empty,
        h.in_order
            ∙ ap (λ (w : List T). p.log.started ++ (p.log.discarded ++ w)) empty
            ∙ ap (◌++◌ p.log.started) (append-nil p.log.discarded),
        subst (Perm p.log.started) (ap (◌++◌ p.log.completed) idle_ ∙ append-nil p.log.completed)
            h.all_there,
      )

  -- When all workers of a pool, at least one, have left their loops and `stopNow` was not called:
  -- nothing waits, every accepted task was begun, in the order of acceptance, and every accepted task
  -- is finished.
  pub all_exited-completed :
      {n c : ℕ} (p : Pool F T)
      → Reach n c p
      → 0 < length p.workers
      → all_exited F p.workers ≡ true
      → p.queue.stop_now_flag ≡ false
      → (p.queue.tasks ≡ [])
        × (p.log.accepted ≡ p.log.started)
        × Perm p.log.accepted p.log.completed
  all_exited-completed p r some_worker all graceful =
      let v = Reach-IsValid r in
      let (stop, empty) = exited-IsOver p.queue p.workers some_worker v.workers all in
      let kept : p.log.discarded ≡ [] = elim v.kept [ inl nothing ↦ nothing | inr now ↦ cc ] in
      let (same_order, finished) =
        Holds-done (view F p) (Reach-Holds r) (exited-in_work p.workers all) empty kept in
      (empty, same_order, finished)
