-- ===== src/Pool/Joins.antt =====
-- What stays once it is so: a worker that has left its loop, a call that has returned, a flag that
-- nobody sets.
use multithreading_labs.Base.{
  length, ℕ, ◌≡◌, refl, sym, ap, ◌∙◌, inl, inr, some, true, false, List, [], ◌∷◌, ◌++◌, arith,
  get_elem?, total, total-append, total-set,
}
use multithreading_labs.TaskQueue
use multithreading_labs.TaskQueue.{
  TaskQueue, PushResult, push, wait_pop, stop_now, stop_graceful, pause, resume, after_wait,
  pop_front,
}
use multithreading_labs.Stats.{Floats}
use multithreading_labs.Pool.Flags.{worker_step-act, call_step-proceed}
use multithreading_labs.Pool.Shutdown.{Reach, begun, stepped}
use multithreading_labs.Pool
use multithreading_labs.Pool.{
  all_exited, Worker, idle, waiting, popped, timed, recorded, working, exited, Call, pushing,
  noting, dropping, stopping, finalizing, joining, returned, ended, Pool, act, pop_step,
  worker_step, create, enqueue, shutdown_graceful, shutdown_now, proceed, call_step, Step, enqueues,
  shuts_down, shuts_down_now, pauses, resumes, works, proceeds, passes,
}
use multithreading_labs.Pool.Moves.{
  unstopped, proceed-Proceeds, act-Keeps, get_elem?-end, get_elem?-set, Step-all_exited, Step-crew,
}

module _ (F : Floats) {T : Type 0} where
  -- No call waits for the workers in vain: once a shutdown has returned, they have left their loops.
  abbrev pub Joined : Pool F T → Type 0
  Joined p = (k : ℕ) → get_elem? p.calls k ≡ some ended → all_exited F p.workers ≡ true

  unjoined-end :
      (p p' : Pool F T) (c : Call T)
      → p'.calls ≡ p.calls ++ (c ∷ [])
      → p'.workers ≡ p.workers
      → (ended ≡ c → ⊥)
      → Joined p
      → Joined p'
  unjoined-end p p' c calls workers other j k e =
      elim (get_elem?-end p.calls c ended k
        (ap (λ (cs : List (Call T)). get_elem? cs k) (sym calls) ∙ e)) [
          | inl old ↦ ap (all_exited F) workers ∙ j k old
          | inr (last, same) ↦ absurd (other same)
        ]

  Step-Joined : {p p' : Pool F T} → Joined p → Step F p p' → Joined p'
  unfolding enqueue shutdown_graceful shutdown_now Pool.pause Pool.resume
  Step-Joined {p} j (enqueues t) =
      unjoined-end p (enqueue F p t) (pushing p.clock t) refl refl (λ e. cc) j
  Step-Joined {p} j shuts_down =
      unjoined-end p (shutdown_graceful F p) finalizing refl refl (λ e. cc) j
  Step-Joined {p} j shuts_down_now =
      unjoined-end p (shutdown_now F p) stopping refl refl (λ e. cc) j
  Step-Joined j pauses = j
  Step-Joined j resumes = j
  Step-Joined {p} j (works i {p'} e) =
      let (w, here, run) = worker_step-act F p p' i e in
      let kept = act-Keeps F p p' i w run in
      λ k h.
        Step-all_exited F (works i e)
          (j k (ap (λ (cs : List (Call T)). get_elem? cs k) (sym kept.0) ∙ h))
  Step-Joined {p} j (proceeds i {p'} e) =
      let (c, here, run) = call_step-proceed F p p' i e in
      let (c', kept) = proceed-Proceeds F p p' i c run in
      λ k h.
        elim (get_elem?-set p.calls i k c c' ended here
          (ap (λ (cs : List (Call T)). get_elem? cs k) (sym kept.0) ∙ h)) [
            | inl (at, last) ↦ ap (all_exited F) kept.1 ∙ kept.6 (sym last)
            | inr old ↦ ap (all_exited F) kept.1 ∙ j k old
          ]
  Step-Joined j (passes time) = j

  -- Once a call of `shutdown_graceful` or `shutdown_now` has returned, every worker has left its loop,
  -- and stays out of it.
  pub Reach-Joined : {n c : ℕ} {p : Pool F T} → Reach F n c p → Joined p
  unfolding create
  Reach-Joined begun = λ k e. cc
  Reach-Joined (stepped r s) = Step-Joined (Reach-Joined r) s

  -- While nobody has called `shutdown_now`, the queue is not told to stop at once.
  abbrev pub Gentle : Pool F T → Type 0
  Gentle p =
      p.stop_now_flag ≡ false → (p.queue.stop_now_flag ≡ false) × (total unstopped p.calls ≡ 0)

  Gentle-end :
      (p p' : Pool F T) (c : Call T)
      → p'.calls ≡ p.calls ++ (c ∷ [])
      → p'.stop_now_flag ≡ p.stop_now_flag
      → p'.queue.stop_now_flag ≡ p.queue.stop_now_flag
      → unstopped c ≡ 0
      → Gentle p
      → Gentle p'
  Gentle-end p p' c calls flag queue no_stop g h =
      let (quiet, none_) = g (sym flag ∙ h) in
      (
        queue ∙ quiet,
        ap (total unstopped) calls
            ∙ omega (arith, total-append unstopped p.calls (c ∷ []), none_, no_stop),
      )

  total-zero :
      (cs : List (Call T)) (i : ℕ) (c : Call T)
      → get_elem? cs i ≡ some c
      → total unstopped cs ≡ 0
      → unstopped c ≡ 0
  total-zero cs i c here e = omega (arith, total-set unstopped cs i c ended here, e)

  Step-Gentle : {p p' : Pool F T} → Gentle p → Step F p p' → Gentle p'
  unfolding enqueue shutdown_graceful shutdown_now Pool.pause Pool.resume pause resume stop_graceful
  Step-Gentle {p} g (enqueues t) =
      Gentle-end p (enqueue F p t) (pushing p.clock t) refl refl refl refl g
  Step-Gentle {p} g shuts_down =
      Gentle-end p (shutdown_graceful F p) finalizing refl refl refl refl g
  Step-Gentle g shuts_down_now = λ h. cc
  Step-Gentle g pauses = g
  Step-Gentle g resumes = g
  Step-Gentle {p} g (works i {p'} e) =
      let (w, here, run) = worker_step-act F p p' i e in
      let kept = act-Keeps F p p' i w run in
      λ h.
        let (quiet, none_) = g (sym kept.1 ∙ h) in
        (kept.2 ∙ quiet, ap (total unstopped) kept.0 ∙ none_)
  Step-Gentle {p} g (proceeds i {p'} e) =
      let (c, here, run) = call_step-proceed F p p' i e in
      let (c', kept) = proceed-Proceeds F p p' i c run in
      λ h.
        let (quiet, none_) = g (sym kept.2 ∙ h) in
        let old = total-zero p.calls i c here none_ in
        let sums = total-set unstopped p.calls i c c' here in
        let new = kept.4 in
        (kept.5 old ∙ quiet, ap (total unstopped) kept.0 ∙ omega (arith, sums, none_, old, new))
  Step-Gentle g (passes time) = g

  pub Reach-Gentle : {n c : ℕ} {p : Pool F T} → Reach F n c p → Gentle p
  unfolding create TaskQueue.create
  Reach-Gentle begun = λ h. (refl, refl)
  Reach-Gentle (stepped r s) = Step-Gentle (Reach-Gentle r) s

  pub Reach-crew :
      {n c : ℕ} {p : Pool F T}
      → Reach F n c p
      → length p.workers ≡ length (create F {T = T} n c).workers
  Reach-crew begun = refl
  Reach-crew (stepped r s) = Step-crew F s ∙ Reach-crew r
