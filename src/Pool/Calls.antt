-- ===== src/Pool/Calls.antt =====
-- The calls of `enqueue` and what the pool keeps of them: the tasks that it accepted, and the number of
-- those that it dropped.
use multithreading_labs.Base.{
  ℕ, ℤ, zero, suc, ◌+◌, ◌%◌, ◌≡◌, refl, sym, ap, ◌∙◌, subst, inl, inr, none, some, true, false,
  List, [], ◌∷◌, ◌++◌, arith, get_elem?, set, eq_of_some, Bool-cases, Option-cases, length,
  length-append, total, total-append, total-set, if◌then◌else◌, ◌==◌, size_mod,
}
use multithreading_labs.TaskQueue
use multithreading_labs.TaskQueue.{TaskQueue, PushResult, push, wait_pop}
use multithreading_labs.Stats.{
  Floats, Stats, Tracker, record_wait_time, note_queue_full_if_needed,
  note_queue_not_full_if_needed, finalize_queue_full_if_needed, end_period, record_queue_full,
  add_samples, add_sample, record_dropped_task, create, set_created_threads,
}
use multithreading_labs.Pool.Flags.{worker_step-act, call_step-proceed}
use multithreading_labs.Pool.Shutdown.{Reach, begun, stepped}
use multithreading_labs.Pool
use multithreading_labs.Pool.{
  Log, accept, Worker, idle, waiting, popped, timed, recorded, working, exited, Call, pushing,
  noting, dropping, stopping, finalizing, joining, returned, ended, Pool, act, pop_step,
  worker_step, enqueue, shutdown_graceful, shutdown_now, proceed, call_step, Step, enqueues,
  shuts_down, shuts_down_now, pauses, resumes, works, proceeds, passes,
}

-- Whether a call is one of `enqueue`; whether its task was accepted; whether it was counted as
-- dropped.
abbrev pub asked : {T : Type 0} → Call T → ℕ
asked (pushing now task) = 1
asked (noting now result) = 1
asked dropping = 1
asked (returned b) = 1
asked stopping = 0
asked finalizing = 0
asked joining = 0
asked ended = 0

abbrev pub admitted : {T : Type 0} → Call T → ℕ
admitted (pushing now task) = 0
admitted (noting now result) = if result.accepted then 1 else 0
admitted dropping = 0
admitted (returned b) = if b then 1 else 0
admitted stopping = 0
admitted finalizing = 0
admitted joining = 0
admitted ended = 0

abbrev pub dropped : {T : Type 0} → Call T → ℕ
dropped (pushing now task) = 0
dropped (noting now result) = 0
dropped dropping = 0
dropped (returned b) = if b then 0 else 1
dropped stopping = 0
dropped finalizing = 0
dropped joining = 0
dropped ended = 0

module _ (T : Type 0) where
  noted-admitted :
      (r : PushResult)
      → admitted {T = T} (if r.accepted then returned true else dropping)
        ≡ (if r.accepted then 1 else 0)
  noted-admitted r = ground arith

  noted-dropped :
      (r : PushResult) → dropped {T = T} (if r.accepted then returned true else dropping) ≡ 0
  noted-dropped r = ground arith

module _ (F : Floats) where
  -- What is counted as dropped stays, whatever else the tracker records.
  add_samples-dropped_tasks :
      (d : F.Double) (n : ℕ) (s : Stats F) → (add_samples F d n s).dropped_tasks ≡ s.dropped_tasks
  unfolding add_samples add_sample
  add_samples-dropped_tasks d zero s = refl
  add_samples-dropped_tasks d (suc n) s = add_samples-dropped_tasks d n (add_sample F d s)

  record_wait_time-dropped_tasks :
      (t : Tracker F) (d : ℤ) (n : ℕ)
      → (record_wait_time F t d n).stats.dropped_tasks ≡ t.stats.dropped_tasks
  unfolding record_wait_time
  record_wait_time-dropped_tasks t d n = elim (Bool-cases (n == 0)) [
    | inl e ↦ rw e refl
    | inr e ↦ rw e (add_samples-dropped_tasks (F.of_duration d) n t.stats)
  ]

  note_full-dropped_tasks :
      (t : Tracker F) (size capacity now : ℕ)
      → (note_queue_full_if_needed F t size capacity now).stats.dropped_tasks
        ≡ t.stats.dropped_tasks
  unfolding note_queue_full_if_needed
  note_full-dropped_tasks t size capacity now = ground arith

  note_not_full-dropped_tasks :
      (t : Tracker F) (size capacity now : ℕ)
      → (note_queue_not_full_if_needed F t size capacity now).stats.dropped_tasks
        ≡ t.stats.dropped_tasks
  unfolding note_queue_not_full_if_needed end_period record_queue_full
  note_not_full-dropped_tasks t size capacity now = ground arith

  finalize-dropped_tasks :
      (t : Tracker F) (now : ℕ)
      → (finalize_queue_full_if_needed F t now).stats.dropped_tasks ≡ t.stats.dropped_tasks
  unfolding finalize_queue_full_if_needed end_period record_queue_full
  finalize-dropped_tasks t now = ground arith

  module _ {T : Type 0} where
    -- A step that has nothing to do with the calls.
    abbrev Quiet : Pool F T → Pool F T → Type 0
    Quiet p p' =
        (p'.calls ≡ p.calls)
        × (p'.log.accepted ≡ p.log.accepted)
        × (p'.tracker.stats.dropped_tasks ≡ p.tracker.stats.dropped_tasks)

    act-Quiet : (p p' : Pool F T) (i : ℕ) (w : Worker T) → act F p i w ≡ some p' → Quiet p p'
    unfolding act pop_step
    act-Quiet p p' i idle e = subst (Quiet p) (eq_of_some _ p' e) (refl, refl, refl)
    act-Quiet p p' i (waiting s) e = elim (Option-cases (wait_pop p.queue)) [
      | inl stuck ↦ let none_ = subst (λ o. pop_step F p i s o ≡ some p') stuck e in absurd (cc)
      | inr ((result, none, queue), got) ↦
          let run = subst (λ o. pop_step F p i s o ≡ some p') got e in
          subst (Quiet p) (eq_of_some _ p' run) (refl, refl, refl)
      | inr ((result, some task, queue), got) ↦
          let run = subst (λ o. pop_step F p i s o ≡ some p') got e in
          subst (Quiet p) (eq_of_some _ p' run) (refl, refl, refl)
    ]
    act-Quiet p p' i (popped s r t) e = subst (Quiet p) (eq_of_some _ p' e) (refl, refl, refl)
    act-Quiet p p' i (timed s e' r t) e =
        subst (Quiet p) (eq_of_some _ p' e)
          (refl, refl, record_wait_time-dropped_tasks p.tracker _ 1)
    act-Quiet p p' i (recorded e' r t) e =
        subst (Quiet p) (eq_of_some _ p' e)
          (refl, refl, note_not_full-dropped_tasks p.tracker _ _ e')
    act-Quiet p p' i (working t) e = subst (Quiet p) (eq_of_some _ p' e) (refl, refl, refl)
    act-Quiet p p' i exited e = cc

    -- The pool has accepted as many tasks, and counts as many as dropped, as its calls say.
    pub record Counts (p : Pool F T) : Type 0 where
      pub admits : length p.log.accepted ≡ total admitted p.calls
      pub drops : p.tracker.stats.dropped_tasks ≡ total dropped p.calls % size_mod

    Quiet-Counts : (p p' : Pool F T) → Quiet p p' → Counts p → Counts p'
    Quiet-Counts p p' (calls, accepted, drops) c = record {
      admits = ap length accepted ∙ c.admits ∙ ap (total admitted) (sym calls);
      drops =
          drops ∙ c.drops ∙ ap (λ (cs : List (Call T)). total dropped cs % size_mod) (sym calls);
    }

    accept-length :
        (log : Log T) (t : T) (r : PushResult)
        → length (accept F log t r).accepted ≡ length log.accepted + (if r.accepted then 1 else 0)
    accept-length log t r = elim (Bool-cases r.accepted) [
      | inl e ↦ rw e (length-append log.accepted (t ∷ []))
      | inr e ↦ rw e (omega arith)
    ]

    -- Call `i` goes on.
    call-Counts :
        (p p' : Pool F T) (i : ℕ) (c c' : Call T)
        → Counts p
        → get_elem? p.calls i ≡ some c
        → p'.calls ≡ set p.calls i c'
        → length p'.log.accepted + admitted c ≡ length p.log.accepted + admitted c'
        → dropped c ≡ 0
        → p'.tracker.stats.dropped_tasks ≡ (p.tracker.stats.dropped_tasks + dropped c') % size_mod
        → Counts p'
    call-Counts p p' i c c' counts here calls adds old drops =
        let a =
          ap (λ (cs : List (Call T)). total admitted cs + admitted c) calls
          ∙ total-set admitted p.calls i c c' here in
        let d =
          ap (λ (cs : List (Call T)). total dropped cs + dropped c) calls
          ∙ total-set dropped p.calls i c c' here in
        let admits = counts.admits in
        let before = counts.drops in
        record {
          admits = omega (arith, a, admits, adds);
          drops = omega (arith, d, before, old, drops);
        }

    -- The call counts nothing as dropped.
    unchanged :
        (p : Pool F T) (n : ℕ)
        → Counts p
        → n ≡ p.tracker.stats.dropped_tasks
        → n ≡ (p.tracker.stats.dropped_tasks + 0) % size_mod
    unchanged p n counts e = let before = counts.drops in omega (arith, before, e)

    proceed-Counts :
        (p p' : Pool F T) (i : ℕ) (c : Call T)
        → Counts p
        → get_elem? p.calls i ≡ some c
        → proceed F p i c ≡ some p'
        → Counts p'
    unfolding proceed record_dropped_task
    proceed-Counts p p' i (pushing now t) counts here e =
        let result = (push p.queue t).0 in
        subst Counts (eq_of_some _ p' e) (
          call-Counts p _ i (pushing now t) (noting now result) counts here refl
            (omega (arith, accept-length p.log t result)) refl (unchanged p _ counts refl))
    proceed-Counts p p' i (noting now r) counts here e = subst Counts (eq_of_some _ p' e) (
        call-Counts p _ i (noting now r) (if r.accepted then returned true else dropping) counts
          here refl (omega (arith, noted-admitted T r)) refl
          (omega (
            arith,
            noted-dropped T r,
            unchanged p _ counts
                (note_full-dropped_tasks p.tracker r.size_after (TaskQueue.capacity p.queue) now),
          )))
    proceed-Counts p p' i dropping counts here e =
        subst Counts (eq_of_some _ p' e)
          (call-Counts p _ i dropping (returned false) counts here refl refl refl refl)
    proceed-Counts p p' i stopping counts here e = subst Counts (eq_of_some _ p' e) (
        call-Counts p _ i stopping finalizing counts here refl refl refl
          (unchanged p _ counts refl))
    proceed-Counts p p' i finalizing counts here e = subst Counts (eq_of_some _ p' e) (
        call-Counts p _ i finalizing joining counts here refl refl refl
          (unchanged p _ counts (finalize-dropped_tasks p.tracker p.clock)))
    proceed-Counts p p' i joining counts here e = elim (Bool-cases (Pool.all_exited F p.workers)) [
      | inl all ↦
          let run : proceed F p i joining ≡ some (Pool.put_call F p i ended) =
            rw (proceed, all) refl in
          subst Counts (eq_of_some _ p' (sym run ∙ e))
            (call-Counts p _ i joining ended counts here refl refl refl (unchanged p _ counts refl))
      | inr some_run ↦
          let stuck : proceed F p i joining ≡ none = rw (proceed, some_run) refl in absurd (cc)
    ]
    proceed-Counts p p' i (returned b) counts here e = cc
    proceed-Counts p p' i ended counts here e = cc

    -- A call begins.
    begins-Counts :
        (p p' : Pool F T) (c : Call T)
        → p'.calls ≡ p.calls ++ (c ∷ [])
        → p'.log.accepted ≡ p.log.accepted
        → p'.tracker.stats.dropped_tasks ≡ p.tracker.stats.dropped_tasks
        → admitted c ≡ 0
        → dropped c ≡ 0
        → Counts p
        → Counts p'
    begins-Counts p p' c calls accepted tracked no_task no_drop counts =
        let a = ap (total admitted) calls ∙ total-append admitted p.calls (c ∷ []) in
        let d = ap (total dropped) calls ∙ total-append dropped p.calls (c ∷ []) in
        let admits = counts.admits in
        let before = counts.drops in
        let same = ap length accepted in
        record {
          admits = omega (arith, a, admits, no_task, same);
          drops = omega (arith, d, before, no_drop, tracked);
        }

    Step-Counts : {p p' : Pool F T} → Counts p → Step F p p' → Counts p'
    unfolding enqueue shutdown_graceful shutdown_now Pool.pause Pool.resume
    Step-Counts {p} c (enqueues t) =
        begins-Counts p _ (pushing p.clock t) refl refl refl refl refl c
    Step-Counts {p} c shuts_down = begins-Counts p _ finalizing refl refl refl refl refl c
    Step-Counts {p} c shuts_down_now = begins-Counts p _ stopping refl refl refl refl refl c
    Step-Counts {p} c pauses = Quiet-Counts p _ (refl, refl, refl) c
    Step-Counts {p} c resumes = Quiet-Counts p _ (refl, refl, refl) c
    Step-Counts {p} c (works i {p'} e) =
        let (w, here, run) = worker_step-act F p p' i e in
        Quiet-Counts p p' (act-Quiet p p' i w run) c
    Step-Counts {p} c (proceeds i {p'} e) =
        let (call, here, run) = call_step-proceed F p p' i e in
        proceed-Counts p p' i call c here run
    Step-Counts {p} c (passes time) = Quiet-Counts p _ (refl, refl, refl) c

    -- Whatever the threads have done: the pool has accepted as many tasks as there are calls of
    -- `enqueue` that have put theirs into the queue, and `droppedTasks` is the number of calls that
    -- have returned `false`, modulo 2 ^ 64.
    pub Reach-Counts : {n c : ℕ} {p : Pool F T} → Reach F n c p → Counts p
    unfolding Pool.create create set_created_threads
    Reach-Counts begun = record { admits = refl; drops = refl }
    Reach-Counts (stepped r s) = Step-Counts (Reach-Counts r) s
