-- ===== src/Pool/Moves.antt =====
-- One step of a worker or of a call: what it changes of the calls and the flags, and what it leaves.
use multithreading_labs.Base.{
  ℕ, zero, suc, ◌≡◌, refl, sym, ap, ◌∙◌, subst, ◌⊎◌, inl, inr, none, some, true, false, List, [],
  ◌∷◌, ◌++◌, arith, get_elem?, set, eq_of_some, Bool-cases, Option-cases, length-set, length, total,
  total-set, get_elem?-bound, get_elem?-set_self, get_elem?-set_ne, ℕ_discrete,
}
use multithreading_labs.TaskQueue
use multithreading_labs.TaskQueue.{
  TaskQueue, PushResult, push, wait_pop, stop_now, stop_graceful, pause, resume, after_wait,
  pop_front,
}
use multithreading_labs.Stats.{Floats}
use multithreading_labs.Pool.Flags.{worker_step-act, call_step-proceed}
use multithreading_labs.Pool.Calls.{asked}
use multithreading_labs.Pool
use multithreading_labs.Pool.{
  all_exited, Worker, idle, waiting, popped, timed, recorded, working, exited, Call, pushing,
  noting, dropping, stopping, finalizing, joining, returned, ended, Pool, act, pop_step,
  worker_step, create, enqueue, shutdown_graceful, shutdown_now, proceed, call_step, Step, enqueues,
  shuts_down, shuts_down_now, pauses, resumes, works, proceeds, passes,
}

-- A call of `enqueue` that has not returned; a call of `shutdown_now` that has not stopped the queue.
abbrev pub unanswered : {T : Type 0} → Call T → ℕ
unanswered (pushing now task) = 1
unanswered (noting now result) = 1
unanswered dropping = 1
unanswered (returned b) = 0
unanswered stopping = 0
unanswered finalizing = 0
unanswered joining = 0
unanswered ended = 0

abbrev pub unstopped : {T : Type 0} → Call T → ℕ
unstopped (pushing now task) = 0
unstopped (noting now result) = 0
unstopped dropping = 0
unstopped (returned b) = 0
unstopped stopping = 1
unstopped finalizing = 0
unstopped joining = 0
unstopped ended = 0

module _ {T : Type 0} where
  -- A list of calls with one more, and one with another call in a place.
  pub get_elem?-end :
      (cs : List (Call T)) (c x : Call T) (k : ℕ)
      → get_elem? (cs ++ (c ∷ [])) k ≡ some x
      → (get_elem? cs k ≡ some x) ⊎ ((k ≡ length cs) × (x ≡ c))
  get_elem?-end [] c x zero e = inr (refl, cc)
  get_elem?-end [] c x (suc k) e = cc
  get_elem?-end (y ∷ cs) c x zero e = inl e
  get_elem?-end (y ∷ cs) c x (suc k) e = elim (get_elem?-end cs c x k e) [
    | inl old ↦ inl old
    | inr (last, same) ↦ inr (omega (arith, last), same)
  ]

  pub get_elem?-set :
      (cs : List (Call T)) (i k : ℕ) (c c' x : Call T)
      → get_elem? cs i ≡ some c
      → get_elem? (set cs i c') k ≡ some x
      → ((k ≡ i) × (x ≡ c')) ⊎ (get_elem? cs k ≡ some x)
  get_elem?-set cs i k c c' x here e = elim (ℕ_discrete i k) [
    | yes same ↦
        let at = get_elem?-set_self cs i c' (get_elem?-bound cs i c here) in
        inl (
          sym same,
          eq_of_some x c' (sym (subst (λ k. get_elem? (set cs i c') k ≡ some x) (sym same) e) ∙ at),
        )
    | no other ↦ inr (sym (get_elem?-set_ne cs c' other) ∙ e)
  ]

module _ (F : Floats) {T : Type 0} where
  exited-get_elem? :
      (ws : List (Worker T)) (i : ℕ) (w : Worker T)
      → all_exited F ws ≡ true
      → get_elem? ws i ≡ some w
      → w ≡ exited
  exited-get_elem? [] i w all e = cc
  exited-get_elem? (exited ∷ ws) zero w all e = cc
  exited-get_elem? (exited ∷ ws) (suc i) w all e = exited-get_elem? ws i w all e
  exited-get_elem? (idle ∷ ws) i w all e = cc
  exited-get_elem? (waiting s ∷ ws) i w all e = cc
  exited-get_elem? (popped s r t ∷ ws) i w all e = cc
  exited-get_elem? (timed s e' r t ∷ ws) i w all e = cc
  exited-get_elem? (recorded e' r t ∷ ws) i w all e = cc
  exited-get_elem? (working t ∷ ws) i w all e = cc

  push-stop_now_flag : (q : TaskQueue T) (t : T) → (push q t).1.stop_now_flag ≡ q.stop_now_flag
  unfolding push
  push-stop_now_flag q t = ground arith

  pop_front-stop_now_flag :
      (q : TaskQueue T) (ts : List T) → (pop_front q ts).2.stop_now_flag ≡ q.stop_now_flag
  unfolding pop_front
  pop_front-stop_now_flag q [] = refl
  pop_front-stop_now_flag q (t ∷ ts) = refl

  after_wait-stop_now_flag : (q : TaskQueue T) → (after_wait q).2.stop_now_flag ≡ q.stop_now_flag
  unfolding after_wait
  after_wait-stop_now_flag q = ground (arith, pop_front-stop_now_flag q q.tasks)

  -- A worker's step leaves the calls and the flags alone.
  abbrev pub Keeps : Pool F T → Pool F T → Type 0
  Keeps p p' =
      (p'.calls ≡ p.calls)
      × (p'.stop_now_flag ≡ p.stop_now_flag)
      × (p'.queue.stop_now_flag ≡ p.queue.stop_now_flag)

  pub act-Keeps : (p p' : Pool F T) (i : ℕ) (w : Worker T) → act F p i w ≡ some p' → Keeps p p'
  unfolding act pop_step wait_pop
  act-Keeps p p' i idle e = subst (Keeps p) (eq_of_some _ p' e) (refl, refl, refl)
  act-Keeps p p' i (waiting s) e = elim (Bool-cases (TaskQueue.wait_condition p.queue)) [
    | inr stuck ↦
        let none_ : act F p i (waiting s) ≡ none = rw (act, wait_pop, stuck) refl in absurd (cc)
    | inl goes ↦
        let run : act F p i (waiting s) ≡ pop_step F p i s (some (after_wait p.queue)) =
          rw (act, wait_pop, goes) refl in
        subst (Keeps p) (eq_of_some _ p' (sym run ∙ e))
          (refl, refl, after_wait-stop_now_flag p.queue)
  ]
  act-Keeps p p' i (popped s r t) e = subst (Keeps p) (eq_of_some _ p' e) (refl, refl, refl)
  act-Keeps p p' i (timed s e' r t) e = subst (Keeps p) (eq_of_some _ p' e) (refl, refl, refl)
  act-Keeps p p' i (recorded e' r t) e = subst (Keeps p) (eq_of_some _ p' e) (refl, refl, refl)
  act-Keeps p p' i (working t) e = subst (Keeps p) (eq_of_some _ p' e) (refl, refl, refl)
  act-Keeps p p' i exited e = cc

  -- What a step of call `i` does to the calls and the flags.
  abbrev pub Proceeds : Pool F T → Pool F T → ℕ → Call T → Call T → Type 0
  Proceeds p p' i c c' =
      (p'.calls ≡ set p.calls i c')
      × (p'.workers ≡ p.workers)
      × (p'.stop_now_flag ≡ p.stop_now_flag)
      × (unanswered c' ≡ 1 → unanswered c ≡ 1)
      × (unstopped c' ≡ 0)
      × (unstopped c ≡ 0 → p'.queue.stop_now_flag ≡ p.queue.stop_now_flag)
      × (c' ≡ ended → all_exited F p.workers ≡ true)
      × (asked c' ≡ asked c)

  pub proceed-Proceeds :
      (p p' : Pool F T) (i : ℕ) (c : Call T)
      → proceed F p i c ≡ some p'
      → (c' : Call T) × Proceeds p p' i c c'
  unfolding proceed push
  proceed-Proceeds p p' i (pushing now t) e =
      let c' : Call T = noting now (push p.queue t).0 in
      (
        c',
        subst (λ p'. Proceeds p p' i (pushing now t) c') (eq_of_some _ p' e)
            (
              refl,
              refl,
              refl,
              (λ h. refl),
              refl,
              (λ h. push-stop_now_flag p.queue t),
              (λ h. cc),
              refl,
            ),
      )
  proceed-Proceeds p p' i (noting now r) e = elim (Bool-cases r.accepted) [
    | inl ok ↦ (
      returned true,
      subst (λ p'. Proceeds p p' i (noting now r) (returned true)) (eq_of_some _ p' e)
          (rw ok refl, refl, refl, (λ h. refl), refl, (λ h. refl), (λ h. cc), refl),
    )
    | inr refused ↦ (
      dropping,
      subst (λ p'. Proceeds p p' i (noting now r) dropping) (eq_of_some _ p' e)
          (rw refused refl, refl, refl, (λ h. refl), refl, (λ h. refl), (λ h. cc), refl),
    )
  ]
  proceed-Proceeds p p' i dropping e = (
    returned false,
    subst (λ p'. Proceeds p p' i dropping (returned false)) (eq_of_some _ p' e)
        (refl, refl, refl, (λ h. refl), refl, (λ h. refl), (λ h. cc), refl),
  )
  proceed-Proceeds p p' i stopping e = (
    finalizing,
    subst (λ p'. Proceeds p p' i stopping finalizing) (eq_of_some _ p' e)
        (refl, refl, refl, (λ h. h), refl, (λ h. absurd (omega (arith, h))), (λ h. cc), refl),
  )
  proceed-Proceeds p p' i finalizing e = (
    joining,
    subst (λ p'. Proceeds p p' i finalizing joining) (eq_of_some _ p' e)
        (refl, refl, refl, (λ h. h), refl, (λ h. refl), (λ h. cc), refl),
  )
  proceed-Proceeds p p' i joining e = elim (Bool-cases (all_exited F p.workers)) [
    | inl all ↦
        let run : proceed F p i joining ≡ some (Pool.put_call F p i ended) =
          rw (proceed, all) refl in
        (
          ended,
          subst (λ p'. Proceeds p p' i joining ended) (eq_of_some _ p' (sym run ∙ e))
              (refl, refl, refl, (λ h. h), refl, (λ h. refl), (λ h. all), refl),
        )
    | inr some_run ↦
        let stuck : proceed F p i joining ≡ none = rw (proceed, some_run) refl in absurd (cc)
  ]
  proceed-Proceeds p p' i (returned b) e = cc
  proceed-Proceeds p p' i ended e = cc

  -- Every worker that has left its loop stays out of it.
  pub Step-all_exited :
      {p p' : Pool F T}
      → Step F p p'
      → all_exited F p.workers ≡ true
      → all_exited F p'.workers ≡ true
  unfolding enqueue shutdown_graceful shutdown_now Pool.pause Pool.resume act
  Step-all_exited (enqueues t) all = all
  Step-all_exited shuts_down all = all
  Step-all_exited shuts_down_now all = all
  Step-all_exited pauses all = all
  Step-all_exited resumes all = all
  Step-all_exited {p} (works i {p'} e) all =
      let (w, here, run) = worker_step-act F p p' i e in
      let gone = exited-get_elem? p.workers i w all here in
      let stuck : act F p i exited ≡ none = refl in absurd (cc)
  Step-all_exited {p} (proceeds i {p'} e) all =
      let (c, here, run) = call_step-proceed F p p' i e in
      let (c', kept) = proceed-Proceeds p p' i c run in ap (all_exited F) kept.1 ∙ all
  Step-all_exited (passes time) all = all

  -- A call of `enqueue` that has not returned after a step of a call had not returned before.
  pub call_step-unanswered :
      (p p' : Pool F T) (i k : ℕ) (x : Call T)
      → call_step F p i ≡ some p'
      → get_elem? p'.calls k ≡ some x
      → unanswered x ≡ 1
      → (y : Call T) × (get_elem? p.calls k ≡ some y) × (unanswered y ≡ 1)
  call_step-unanswered p p' i k x e at waits =
      let (c, here, run) = call_step-proceed F p p' i e in
      let (c', kept) = proceed-Proceeds p p' i c run in
      elim (get_elem?-set p.calls i k c c' x here
        (ap (λ (cs : List (Call T)). get_elem? cs k) (sym kept.0) ∙ at)) [
          | inl (same, last) ↦
              (c, ap (get_elem? p.calls) same ∙ here, kept.3 (ap unanswered (sym last) ∙ waits))
          | inr old ↦ (x, old, waits)
        ]

  -- A step of a worker leaves the calls and the flags alone.
  pub worker_step-Keeps : (p p' : Pool F T) (i : ℕ) → worker_step F p i ≡ some p' → Keeps p p'
  worker_step-Keeps p p' i e =
      let (w, here, run) = worker_step-act F p p' i e in act-Keeps p p' i w run

  -- A step of a call leaves the number of the calls of `enqueue` alone.
  pub call_step-asked :
      (p p' : Pool F T) (i : ℕ)
      → call_step F p i ≡ some p'
      → total asked p'.calls ≡ total asked p.calls
  call_step-asked p p' i e =
      let (c, here, run) = call_step-proceed F p p' i e in
      let (c', kept) = proceed-Proceeds p p' i c run in
      ap (total asked) kept.0 ∙ omega (arith, total-set asked p.calls i c c' here, kept.7)

  pub call_step-stop_now_flag :
      (p p' : Pool F T) (i : ℕ) → call_step F p i ≡ some p' → p'.stop_now_flag ≡ p.stop_now_flag
  call_step-stop_now_flag p p' i e =
      let (c, here, run) = call_step-proceed F p p' i e in
      let (c', kept) = proceed-Proceeds p p' i c run in kept.2

  put-crew :
      (p q p' : Pool F T) (i : ℕ) (w : Worker T)
      → q.workers ≡ set p.workers i w
      → some q ≡ some p'
      → length p'.workers ≡ length p.workers
  put-crew p q p' i w e run =
      ap (λ (p : Pool F T). length p.workers) (sym (eq_of_some q p' run))
      ∙ (ap length e ∙ length-set p.workers i w)

  -- No worker comes or goes.
  act-crew :
      (p p' : Pool F T) (i : ℕ) (w : Worker T)
      → act F p i w ≡ some p'
      → length p'.workers ≡ length p.workers
  unfolding act pop_step
  act-crew p p' i idle e = put-crew p _ p' i _ refl e
  act-crew p p' i (waiting s) e = elim (Option-cases (wait_pop p.queue)) [
    | inl stuck ↦ let none_ = subst (λ o. pop_step F p i s o ≡ some p') stuck e in absurd (cc)
    | inr ((result, task, queue), got) ↦
        let run = subst (λ o. pop_step F p i s o ≡ some p') got e in put-crew p _ p' i _ refl run
  ]
  act-crew p p' i (popped s r t) e = put-crew p _ p' i _ refl e
  act-crew p p' i (timed s e' r t) e = put-crew p _ p' i _ refl e
  act-crew p p' i (recorded e' r t) e = put-crew p _ p' i _ refl e
  act-crew p p' i (working t) e = put-crew p _ p' i _ refl e
  act-crew p p' i exited e = cc

  pub Step-crew : {p p' : Pool F T} → Step F p p' → length p'.workers ≡ length p.workers
  unfolding enqueue shutdown_graceful shutdown_now Pool.pause Pool.resume
  Step-crew (enqueues t) = refl
  Step-crew shuts_down = refl
  Step-crew shuts_down_now = refl
  Step-crew pauses = refl
  Step-crew resumes = refl
  Step-crew {p} (works i {p'} e) =
      let (w, here, run) = worker_step-act F p p' i e in act-crew p p' i w run
  Step-crew {p} (proceeds i {p'} e) =
      let (c, here, run) = call_step-proceed F p p' i e in
      let (c', kept) = proceed-Proceeds p p' i c run in ap length kept.1
  Step-crew (passes time) = refl
