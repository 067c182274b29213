-- ===== src/Pool/Flags.antt =====
-- The flags of a pool: every step keeps the queue valid, and in line with the places of the workers.
use multithreading_labs.Base.{
  ℕ, zero, suc, ◌≡◌, refl, sym, ◌∙◌, subst, ◌⊎◌, inl, inr, none, some, true, List, [], arith,
  get_elem?, set, All, All-get_elem?, eq_of_some, replicate, Bool-cases, Option-cases,
}
use multithreading_labs.TaskQueue.{TaskQueue, PushResult, push, wait_pop, stop_now}
use multithreading_labs.TaskQueue.Order.{Op, queue_after_pop, apply}
use multithreading_labs.TaskQueue.Shutdown
use multithreading_labs.TaskQueue.Shutdown.{wait_pop-cases, apply-IsValid}
use multithreading_labs.Stats.{Floats}
use multithreading_labs.Pool.Places.{Agrees, apply-IsOver, apply-stop_now_flag, All-Agrees, All-set}
use multithreading_labs.Pool
use multithreading_labs.Pool.{
  Log, accept, all_exited, Worker, idle, waiting, popped, timed, recorded, working, exited, Call,
  pushing, noting, dropping, stopping, finalizing, joining, returned, ended, Pool, create, act,
  pop_step, after_record, worker_step, enqueue, shutdown_graceful, shutdown_now, proceed, call_step,
  Step, enqueues, shuts_down, shuts_down_now, pauses, resumes, works, proceeds, passes,
}

module _ (F : Floats) {T : Type 0} where
  pub record IsValid (p : Pool F T) : Type 0 where
    pub queue : Shutdown.IsValid p.queue
    pub workers : All (Agrees p.queue) p.workers
    pub kept : (p.log.discarded ≡ []) ⊎ (p.queue.stop_now_flag ≡ true)

  -- A call of the queue.
  op-IsValid :
      (p : Pool F T) (op : Op T) → IsValid p → IsValid (record p { queue = apply p.queue op })
  op-IsValid p op v = record {
    queue = (apply-IsValid p.queue op v.queue).0;
    workers =
        All-Agrees p.queue (apply p.queue op) p.workers (apply-IsOver p.queue op v.queue) v.workers;
    kept = elim v.kept [
      | inl nothing ↦ inl nothing
      | inr now ↦ inr (apply-stop_now_flag p.queue op v.queue now)
    ];
  }

  -- A worker in another place.
  put-IsValid :
      (p : Pool F T) (i : ℕ) (w : Worker T)
      → IsValid p
      → Agrees p.queue w
      → IsValid (record p { workers = set p.workers i w })
  put-IsValid p i w v a = record {
    queue = v.queue;
    workers = All-set p.queue p.workers i w v.workers a;
    kept = v.kept;
  }

  pop_step-IsValid :
      (p p' : Pool F T) (i wait_start : ℕ)
      → IsValid p
      → pop_step F p i wait_start (wait_pop p.queue) ≡ some p'
      → IsValid p'
  unfolding pop_step apply queue_after_pop
  pop_step-IsValid p p' i wait_start v e = elim (wait_pop-cases p.queue v.queue) [
    | inl (a, b, q) ↦
        let stuck = subst (λ o. pop_step F p i wait_start o ≡ some p') q e in absurd (cc)
    | inr (inl (a, b, c, q)) ↦
        let run = subst (λ o. pop_step F p i wait_start o ≡ some p') q e in
        let v' = put-IsValid p i (popped wait_start _ none) v (a, b) in
        subst IsValid (eq_of_some _ p' run)
          (record { queue = v'.queue; workers = v'.workers; kept = v'.kept })
    | inr (inr (t, rest, (a, b, c, q))) ↦
        let run = subst (λ o. pop_step F p i wait_start o ≡ some p') q e in
        let taken = op-IsValid p Op.pops v in
        let after = subst (λ o. IsValid (record p { queue = queue_after_pop p.queue o })) q taken in
        let v' = put-IsValid _ i (popped wait_start _ (some t)) after refl in
        subst IsValid (eq_of_some _ p' run)
          (record { queue = v'.queue; workers = v'.workers; kept = v'.kept })
  ]

  act-IsValid :
      (p p' : Pool F T) (i : ℕ) (w : Worker T)
      → IsValid p
      → Agrees p.queue w
      → act F p i w ≡ some p'
      → IsValid p'
  unfolding act
  act-IsValid p p' i idle v a e = subst IsValid (eq_of_some _ p' e) (put-IsValid p i _ v tt)
  act-IsValid p p' i (waiting s) v a e = pop_step-IsValid p p' i s v e
  act-IsValid p p' i (popped s r none) v a e =
      subst IsValid (eq_of_some _ p' e) (put-IsValid p i _ v a)
  act-IsValid p p' i (popped s r (some t)) v a e =
      subst IsValid (eq_of_some _ p' e) (put-IsValid p i _ v a)
  act-IsValid p p' i (timed s e' r none) v a e =
      let v' = put-IsValid p i exited v a in
      subst IsValid (eq_of_some _ p' e)
        (record { queue = v'.queue; workers = v'.workers; kept = v'.kept })
  act-IsValid p p' i (timed s e' r (some t)) v a e =
      let next : after_record F e' r (some t) ≡ recorded e' r t =
        unfold after_record in rw a refl in
      let v' =
        put-IsValid p i (after_record F e' r (some t)) v (subst (Agrees p.queue) (sym next) tt) in
      subst IsValid (eq_of_some _ p' e)
        (record { queue = v'.queue; workers = v'.workers; kept = v'.kept })
  act-IsValid p p' i (recorded e' r t) v a e =
      let v' = put-IsValid p i (working t) v tt in
      subst IsValid (eq_of_some _ p' e)
        (record { queue = v'.queue; workers = v'.workers; kept = v'.kept })
  act-IsValid p p' i (working t) v a e =
      let v' = put-IsValid p i idle v tt in
      subst IsValid (eq_of_some _ p' e)
        (record { queue = v'.queue; workers = v'.workers; kept = v'.kept })
  act-IsValid p p' i exited v a e = cc

  same-IsValid :
      (p p' : Pool F T)
      → p'.queue ≡ p.queue
      → p'.workers ≡ p.workers
      → p'.log ≡ p.log
      → IsValid p
      → IsValid p'
  same-IsValid p p' q w l v = record {
    queue = subst Shutdown.IsValid (sym q) v.queue;
    workers =
        subst (λ (ws : List (Worker T)). All (Agrees p'.queue) ws) (sym w)
          (subst (λ (q : TaskQueue T). All (Agrees q) p.workers) (sym q) v.workers);
    kept = ground arith;
  }

  discarded-accept :
      (log : Log T) (t : T) (r : PushResult) → (accept F log t r).discarded ≡ log.discarded
  discarded-accept log t r = elim (Bool-cases r.accepted) [ inl e ↦ rw e refl | inr e ↦ rw e refl ]

  proceed-IsValid :
      (p p' : Pool F T) (i : ℕ) (c : Call T) → IsValid p → proceed F p i c ≡ some p' → IsValid p'
  unfolding proceed apply
  proceed-IsValid p p' i (pushing now t) v e =
      let v' = op-IsValid p (Op.pushes t) v in
      let still =
        subst (λ (d : List T). (d ≡ []) ⊎ ((push p.queue t).1.stop_now_flag ≡ true))
          (sym (discarded-accept p.log t (push p.queue t).0)) v'.kept in
      subst IsValid (eq_of_some _ p' e)
        (record { queue = v'.queue; workers = v'.workers; kept = still })
  proceed-IsValid p p' i (noting now r) v e =
      subst IsValid (eq_of_some _ p' e)
        (record { queue = v.queue; workers = v.workers; kept = v.kept })
  proceed-IsValid p p' i dropping v e =
      subst IsValid (eq_of_some _ p' e)
        (record { queue = v.queue; workers = v.workers; kept = v.kept })
  proceed-IsValid p p' i stopping v e =
      let v' = op-IsValid p Op.stops_now v in
      subst IsValid (eq_of_some _ p' e)
        (record { queue = v'.queue; workers = v'.workers; kept = inr (unfold stop_now in refl) })
  proceed-IsValid p p' i finalizing v e =
      subst IsValid (eq_of_some _ p' e)
        (record { queue = v.queue; workers = v.workers; kept = v.kept })
  proceed-IsValid p p' i joining v e =
      let same : (p'.queue ≡ p.queue) × (p'.workers ≡ p.workers) × (p'.log ≡ p.log) =
        ground arith in
      same-IsValid p p' same.0 same.1 same.2 v
  proceed-IsValid p p' i (returned b) v e = cc
  proceed-IsValid p p' i ended v e = cc

  replicate-Agrees : (q : TaskQueue T) (n : ℕ) → All (Agrees q) (replicate n idle)
  replicate-Agrees q zero = tt
  replicate-Agrees q (suc n) = (tt, replicate-Agrees q n)

  pub create-IsValid :
      (worker_count queue_capacity : ℕ) → IsValid (create F worker_count queue_capacity)
  unfolding create
  create-IsValid worker_count queue_capacity = record {
    queue = Shutdown.create-IsValid queue_capacity;
    workers = replicate-Agrees (create F {T = T} worker_count queue_capacity).queue _;
    kept = inl refl;
  }

  pub worker_step-act :
      (p p' : Pool F T) (i : ℕ)
      → worker_step F p i ≡ some p'
      → (w : Worker T) × (get_elem? p.workers i ≡ some w) × (act F p i w ≡ some p')
  unfolding worker_step
  worker_step-act p p' i e = elim (Option-cases (get_elem? p.workers i)) [
    | inl nobody ↦
        let stuck : worker_step F p i ≡ none = rw (nobody, worker_step) refl in absurd (cc)
    | inr (w, here) ↦
        let run : worker_step F p i ≡ act F p i w = rw (here, worker_step) refl in
        (w, here, sym run ∙ e)
  ]

  pub call_step-proceed :
      (p p' : Pool F T) (i : ℕ)
      → call_step F p i ≡ some p'
      → (c : Call T) × (get_elem? p.calls i ≡ some c) × (proceed F p i c ≡ some p')
  unfolding call_step
  call_step-proceed p p' i e = elim (Option-cases (get_elem? p.calls i)) [
    | inl nobody ↦ let stuck : call_step F p i ≡ none = rw (nobody, call_step) refl in absurd (cc)
    | inr (c, here) ↦
        let run : call_step F p i ≡ proceed F p i c = rw (here, call_step) refl in
        (c, here, sym run ∙ e)
  ]

  pub Step-IsValid : {p p' : Pool F T} → IsValid p → Step F p p' → IsValid p'
  unfolding enqueue shutdown_graceful shutdown_now Pool.pause Pool.resume apply
  Step-IsValid {p} v (enqueues t) = record { queue = v.queue; workers = v.workers; kept = v.kept }
  Step-IsValid {p} v shuts_down =
      let v' = op-IsValid p Op.stops_graceful v in
      record { queue = v'.queue; workers = v'.workers; kept = v'.kept }
  Step-IsValid {p} v shuts_down_now = record { queue = v.queue; workers = v.workers; kept = v.kept }
  Step-IsValid {p} v pauses = op-IsValid p Op.pauses v
  Step-IsValid {p} v resumes = op-IsValid p Op.resumes v
  Step-IsValid {p} v (works i {p'} e) =
      let (w, here, run) = worker_step-act p p' i e in
      act-IsValid p p' i w v (All-get_elem? (Agrees p.queue) p.workers i w v.workers here) run
  Step-IsValid {p} v (proceeds i {p'} e) =
      let (c, here, run) = call_step-proceed p p' i e in proceed-IsValid p p' i c v run
  Step-IsValid {p} v (passes time) = record { queue = v.queue; workers = v.workers; kept = v.kept }
