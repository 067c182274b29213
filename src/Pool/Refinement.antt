-- ===== src/Pool/Refinement.antt =====
-- The pool with its mutexes, clocks and loops does what the specification allows.
use multithreading_labs.Base.{
  ℕ, zero, suc, ◌<◌, ◌≡◌, refl, sym, ap, ◌∙◌, subst, ◌⊎◌, inl, inr, Option, none, some, true, false,
  List, [], ◌∷◌, ◌++◌, arith, get_elem?, set, map, All-get_elem?, eq_of_some, length,
}
use multithreading_labs.TaskQueue.{
  TaskQueue, PopResult, PushResult, push, wait_pop, stop_now, stop_graceful,
}
use multithreading_labs.TaskQueue
use multithreading_labs.TaskQueue.Shutdown.{wait_pop-cases}
use multithreading_labs.Stats.{Floats}
use multithreading_labs.Pool.Spec.{Spec, Move, accepts, starts, completes, closes, discards}
use multithreading_labs.Pool.Places.{Agrees}
use multithreading_labs.Pool.Flags.{IsValid, worker_step-act, call_step-proceed}
use multithreading_labs.Pool
use multithreading_labs.Pool.{
  Log, accept, all_exited, Worker, idle, waiting, popped, timed, recorded, working, exited, Call,
  pushing, noting, dropping, stopping, finalizing, joining, returned, ended, Pool, act, pop_step,
  after_record, enqueue, shutdown_graceful, shutdown_now, proceed, Step, enqueues, shuts_down,
  shuts_down_now, pauses, resumes, works, proceeds, passes,
}

module _ {T : Type 0} where
  -- The task that a worker has in hand.
  abbrev pub place : Worker T → Option T
  place idle = none
  place (waiting wait_start) = none
  place (popped wait_start result task) = task
  place (timed wait_start wait_end result task) = task
  place (recorded wait_end result task) = some task
  place (working task) = some task
  place exited = none

  place-set :
      (ws : List (Worker T)) (i : ℕ) (w : Worker T)
      → map place (set ws i w) ≡ set (map place ws) i (place w)
  place-set [] i w = refl
  place-set (x ∷ ws) zero w = refl
  place-set (x ∷ ws) (suc i) w = ap (◌∷◌ (place x)) (place-set ws i w)

  place-get :
      (ws : List (Worker T)) (i : ℕ) (w : Worker T)
      → get_elem? ws i ≡ some w
      → get_elem? (map place ws) i ≡ some (place w)
  place-get [] i w e = cc
  place-get (x ∷ ws) zero w e = let same : x ≡ w = cc in ap (λ (w : Worker T). some (place w)) same
  place-get (x ∷ ws) (suc i) w e = place-get ws i w e

  -- A step inside the loop keeps the places.
  place-kept :
      (ws : List (Worker T)) (i : ℕ) (w w' : Worker T)
      → get_elem? ws i ≡ some w
      → place w' ≡ place w
      → map place (set ws i w') ≡ map place ws
  place-kept [] i w w' e k = refl
  place-kept (x ∷ ws) zero w w' e k =
      let same : x ≡ w = cc in ap (λ (o : Option T). o ∷ map place ws) (k ∙ ap place (sym same))
  place-kept (x ∷ ws) (suc i) w w' e k = ap (◌∷◌ (place x)) (place-kept ws i w w' e k)

module _ (F : Floats) {T : Type 0} where
  -- What the specification sees of a pool.
  abbrev pub view : Pool F T → Spec T
  view p = record {
    capacity = p.queue.capacity_value;
    accepting = p.queue.accepting;
    waiting = p.queue.tasks;
    places = map place p.workers;
    accepted = p.log.accepted;
    started = p.log.started;
    completed = p.log.completed;
    discarded = p.log.discarded;
  }

  -- What a step of the pool is to the specification: a move, or nothing.
  abbrev pub Matches : Pool F T → Pool F T → Type 0
  Matches p p' = Move (view p) (view p') ⊎ (view p' ≡ view p)

  stutter :
      (p : Pool F T) {p'' p' : Pool F T}
      → some p'' ≡ some p'
      → (i : ℕ) (w w' : Worker T) → get_elem? p.workers i ≡ some w
      → place w' ≡ place w
      → p''.queue ≡ p.queue
      → p''.log ≡ p.log
      → p''.workers ≡ set p.workers i w'
      → Matches p p'
  stutter p {p''} {p'} e i w w' here k q l ws =
      let places = ap (map place) ws ∙ place-kept p.workers i w w' here k in
      let same : view p'' ≡ view p = cc in inr (ap view (sym (eq_of_some p'' p' e)) ∙ same)

  pop_step-Matches :
      (p p' : Pool F T) (i wait_start : ℕ)
      → IsValid F p
      → get_elem? p.workers i ≡ some (waiting wait_start)
      → pop_step F p i wait_start (wait_pop p.queue) ≡ some p'
      → Matches p p'
  unfolding pop_step
  pop_step-Matches p p' i wait_start v here e = elim (wait_pop-cases p.queue v.queue) [
    | inl (a, b, q) ↦
        let stuck = subst (λ o. pop_step F p i wait_start o ≡ some p') q e in absurd (cc)
    | inr (inl (a, b, c, q)) ↦
        let left_alone : Worker T =
          popped wait_start (record { has_task = false; size_after = 0 }) none in
        let run = subst (λ o. pop_step F p i wait_start o ≡ some p') q e in
        stutter p run i (waiting wait_start) left_alone here refl refl refl refl
    | inr (inr (t, rest, (a, b, c, q))) ↦
        let run = subst (λ o. pop_step F p i wait_start o ≡ some p') q e in
        subst (Matches p) (eq_of_some _ p' run) (
          inl (
            subst
              (λ (places : List (Option T)). Move (view p) (record (view p) {
                waiting = rest;
                places = places;
                started = p.log.started ++ (t ∷ []);
              }))
              (sym (place-set p.workers i (popped wait_start _ (some t))))
              (starts i t rest (place-get p.workers i (waiting wait_start) here) c)))
  ]

  act-Matches :
      (p p' : Pool F T) (i : ℕ) (w : Worker T)
      → IsValid F p
      → Agrees p.queue w
      → get_elem? p.workers i ≡ some w
      → act F p i w ≡ some p'
      → Matches p p'
  unfolding act
  act-Matches p p' i idle v a here e = stutter p e i idle (waiting p.clock) here refl refl refl refl
  act-Matches p p' i (waiting s) v a here e = pop_step-Matches p p' i s v here e
  act-Matches p p' i (popped s r t) v a here e =
      stutter p e i (popped s r t) (timed s p.clock r t) here refl refl refl refl
  act-Matches p p' i (timed s e' r none) v a here e =
      stutter p e i (timed s e' r none) exited here refl refl refl (unfold after_record in refl)
  act-Matches p p' i (timed s e' r (some t)) v a here e =
      let next : after_record F e' r (some t) ≡ recorded e' r t =
        unfold after_record in rw a refl in
      stutter p e i (timed s e' r (some t)) (recorded e' r t) here refl refl refl
        (ap (set p.workers i) next)
  act-Matches p p' i (recorded e' r t) v a here e =
      stutter p e i (recorded e' r t) (working t) here refl refl refl refl
  act-Matches p p' i (working t) v a here e = subst (Matches p) (eq_of_some _ p' e) (
      inl (
        subst
          (λ (places : List (Option T)).
            Move (view p)
              (record (view p) { places = places; completed = p.log.completed ++ (t ∷ []) }))
          (sym (place-set p.workers i idle))
          (completes i t (place-get p.workers i (working t) here))))
  act-Matches p p' i exited v a here e = cc

  push-cases :
      (q : TaskQueue T) (t : T)
      → (((push q t).0.accepted ≡ true)
          × ((push q t).1 ≡ record q { tasks = q.tasks ++ (t ∷ []) })
          × (q.accepting ≡ true)
          × (length q.tasks < q.capacity_value))
        ⊎ ((push q t).0.accepted ≡ false) × ((push q t).1 ≡ q)
  unfolding push
  push-cases q t = ground arith

  proceed-Matches :
      (p p' : Pool F T) (i : ℕ) (c : Call T)
      → IsValid F p
      → proceed F p i c ≡ some p'
      → Matches p p'
  unfolding proceed
  proceed-Matches p p' i (pushing now t) v e = elim (push-cases p.queue t) [
    | inl (yes_, q, open_, room) ↦
        let logged : accept F p.log t (push p.queue t).0
            ≡ record p.log { accepted = p.log.accepted ++ (t ∷ []) } =
          rw (yes_, accept) refl in
        subst (Matches p) (eq_of_some _ p' e) (
          inl (
            subst
              (λ (log : Log T).
                Move (view p) (view (record p { queue = (push p.queue t).1; log = log })))
              (sym logged)
              (subst
                (λ (queue : TaskQueue T). Move (view p) (
                  view (record p {
                    queue = queue;
                    log = record p.log { accepted = p.log.accepted ++ (t ∷ []) };
                  })))
                (sym q) (accepts t open_ room))))
    | inr (no_, q) ↦
        let logged : accept F p.log t (push p.queue t).0 ≡ p.log = rw (no_, accept) refl in
        inr (ap view (sym (eq_of_some _ p' e)) ∙ (cc))
  ]
  proceed-Matches p p' i (noting now r) v e = inr (ap view (sym (eq_of_some _ p' e)))
  proceed-Matches p p' i dropping v e = inr (ap view (sym (eq_of_some _ p' e)))
  proceed-Matches p p' i stopping v e =
      subst (Matches p) (eq_of_some _ p' e) (inl (unfold stop_now in discards))
  proceed-Matches p p' i finalizing v e = inr (ap view (sym (eq_of_some _ p' e)))
  proceed-Matches p p' i joining v e =
      let same : (p'.queue ≡ p.queue) × (p'.workers ≡ p.workers) × (p'.log ≡ p.log) =
        ground arith in
      inr (cc)
  proceed-Matches p p' i (returned b) v e = cc
  proceed-Matches p p' i ended v e = cc

  -- The refinement: from a valid pool, whatever step a thread takes, the specification makes one of
  -- its moves, or sees nothing.
  pub Step-Matches : {p p' : Pool F T} → IsValid F p → Step F p p' → Matches p p'
  unfolding enqueue shutdown_graceful shutdown_now Pool.pause Pool.resume
  Step-Matches {p} v (enqueues t) = inr refl
  Step-Matches {p} v shuts_down = inl (unfold stop_graceful in closes)
  Step-Matches {p} v shuts_down_now = inr refl
  Step-Matches {p} v pauses = inr (unfold TaskQueue.pause in refl)
  Step-Matches {p} v resumes = inr (unfold TaskQueue.resume in refl)
  Step-Matches {p} v (works i {p'} e) =
      let (w, here, run) = worker_step-act F p p' i e in
      act-Matches p p' i w v (All-get_elem? (Agrees p.queue) p.workers i w v.workers here) here run
  Step-Matches {p} v (proceeds i {p'} e) =
      let (c, here, run) = call_step-proceed F p p' i e in proceed-Matches p p' i c v run
  Step-Matches {p} v (passes time) = inr refl
