-- ===== src/Demo/Ways.antt =====
-- The moves of the demonstration, one by one, with the tests that they passed.
use multithreading_labs.Base.{
  ℕ, suc, ◌+◌, ◌*◌, ◌≡◌, refl, sym, ◌∙◌, subst, inl, inr, Option, none, some, Bool, true, false, [],
  ◌∷◌, ◌++◌, leb, ltb, length, get_elem?, eq_of_some, Bool-cases, Option-cases,
}
use multithreading_labs.Stats.{Floats, get_snapshot}
use multithreading_labs.Pool
use multithreading_labs.Pool.{
  Pool, Call, pushing, noting, dropping, stopping, finalizing, joining, returned, ended, enqueue,
  shutdown_graceful, shutdown_now, worker_step, call_step,
}
use multithreading_labs.Demo.{
  producer_threads, tasks_per_producer, Task, says_pause, says_resume, says_graceful, says_now,
  Producer, offers, waits_for, leaves, Coordinator, creates, joins, is_done, Place, before_pause,
  before_resume, before_shutdown, in_shutdown, before_join, before_stats, after_stats, Demo,
  put_producer, answered, look, produce, producer_step, join_producer, coordinate, coordinator_step,
  return_from, join_coordinator, proceed_main, main_step, Move, produces, coordinates, moves_on,
  works, proceeds, passes,
}

module _ (F : Floats) where
  abbrev pub asks_for : Demo F → ℕ → ℕ → ℕ → Demo F
  asks_for d p i duration = record (put_producer F d p (waits_for i (length d.pool.calls))) {
    pool = enqueue F d.pool (record { task_id = p * tasks_per_producer + i; duration = duration });
  }

  pub data Way (use_graceful : Bool) (d : Demo F) : Demo F → Type 0 where
    asks :
        (p i duration : ℕ)
        → get_elem? d.producers p ≡ some (offers i)
        → leb i tasks_per_producer ≡ true
        → Way use_graceful d (asks_for d p i duration)
    quits :
        (p i : ℕ)
        → get_elem? d.producers p ≡ some (offers i)
        → leb i tasks_per_producer ≡ false
        → Way use_graceful d (put_producer F d p leaves)
    learns :
        (p i k : ℕ) (b : Bool)
        → get_elem? d.producers p ≡ some (waits_for i k)
        → get_elem? d.pool.calls k ≡ some (returned b)
        → Way use_graceful d (answered F d p i b)
    spawns :
        (c : ℕ)
        → d.coordinator ≡ creates c
        → ltb c producer_threads ≡ true
        → Way use_graceful d
            (record d { producers = d.producers ++ (offers 1 ∷ []); coordinator = creates (suc c) })
    turns_around :
        (c : ℕ)
        → d.coordinator ≡ creates c
        → ltb c producer_threads ≡ false
        → Way use_graceful d (record d { coordinator = joins 0 })
    joins_one :
        (c : ℕ)
        → d.coordinator ≡ joins c
        → get_elem? d.producers c ≡ some leaves
        → Way use_graceful d (record d { coordinator = joins (suc c) })
    joins_all :
        (c : ℕ)
        → d.coordinator ≡ joins c
        → ltb c producer_threads ≡ false
        → Way use_graceful d (record d { coordinator = is_done })
    pauses :
        d.main ≡ before_pause
        → Way use_graceful d (record d {
          lines = d.lines ++ (says_pause ∷ []);
          pool = Pool.pause F d.pool;
          main = before_resume;
        })
    resumes :
        d.main ≡ before_resume
        → Way use_graceful d (record d {
          lines = d.lines ++ (says_resume ∷ []);
          pool = Pool.resume F d.pool;
          main = before_shutdown;
        })
    stops_gently :
        d.main ≡ before_shutdown
        → use_graceful ≡ true
        → Way use_graceful d (record d {
          lines = d.lines ++ (says_graceful ∷ []);
          pool = shutdown_graceful F d.pool;
          main = in_shutdown (length d.pool.calls);
        })
    stops_at_once :
        d.main ≡ before_shutdown
        → use_graceful ≡ false
        → Way use_graceful d (record d {
          lines = d.lines ++ (says_now ∷ []);
          pool = shutdown_now F d.pool;
          main = in_shutdown (length d.pool.calls);
        })
    comes_back :
        (k : ℕ)
        → d.main ≡ in_shutdown k
        → get_elem? d.pool.calls k ≡ some ended
        → Way use_graceful d (record d { main = before_join })
    meets :
        d.main ≡ before_join
        → d.coordinator ≡ is_done
        → Way use_graceful d (record d { main = before_stats })
    shows :
        d.main ≡ before_stats
        → Way use_graceful d
            (record d { main = after_stats; shown = some (get_snapshot F d.pool.tracker) })
    works_in_pool :
        (i : ℕ) (p' : Pool F Task)
        → worker_step F d.pool i ≡ some p'
        → Way use_graceful d (record d { pool = p' })
    proceeds_in_pool :
        (k : ℕ) (p' : Pool F Task)
        → call_step F d.pool k ≡ some p'
        → Way use_graceful d (record d { pool = p' })
    waits_in_pool :
        (time : ℕ)
        → Way use_graceful d (record d { pool = record d.pool { clock = d.pool.clock + time } })

  module _ (g : Bool) where
    look-Way :
        (d d' : Demo F) (p i k : ℕ) (c : Option (Call Task))
        → get_elem? d.producers p ≡ some (waits_for i k)
        → get_elem? d.pool.calls k ≡ c
        → look F d p i c ≡ some d'
        → Way g d d'
    unfolding look
    look-Way d d' p i k (some (returned b)) here at e =
        subst (Way g d) (eq_of_some _ d' e) (learns p i k b here at)
    look-Way d d' p i k none here at e = cc
    look-Way d d' p i k (some (pushing now t)) here at e = cc
    look-Way d d' p i k (some (noting now r)) here at e = cc
    look-Way d d' p i k (some dropping) here at e = cc
    look-Way d d' p i k (some stopping) here at e = cc
    look-Way d d' p i k (some finalizing) here at e = cc
    look-Way d d' p i k (some joining) here at e = cc
    look-Way d d' p i k (some ended) here at e = cc

    produce-Way :
        (d d' : Demo F) (p duration : ℕ) (x : Producer)
        → get_elem? d.producers p ≡ some x
        → produce F d p duration x ≡ some d'
        → Way g d d'
    unfolding produce
    produce-Way d d' p duration (offers i) here e = elim (Bool-cases (leb i tasks_per_producer)) [
      | inl more ↦
          let run : produce F d p duration (offers i) ≡ some (asks_for d p i duration) =
            rw (produce, more) refl in
          subst (Way g d) (eq_of_some _ d' (sym run ∙ e)) (asks p i duration here more)
      | inr over ↦
          let run : produce F d p duration (offers i) ≡ some (put_producer F d p leaves) =
            rw (produce, over) refl in
          subst (Way g d) (eq_of_some _ d' (sym run ∙ e)) (quits p i here over)
    ]
    produce-Way d d' p duration (waits_for i k) here e =
        look-Way d d' p i k (get_elem? d.pool.calls k) here refl e
    produce-Way d d' p duration leaves here e = cc

    join_producer-Way :
        (d d' : Demo F) (c : ℕ) (x : Option Producer)
        → d.coordinator ≡ joins c
        → get_elem? d.producers c ≡ x
        → join_producer F d c x ≡ some d'
        → Way g d d'
    unfolding join_producer
    join_producer-Way d d' c (some leaves) at here e =
        subst (Way g d) (eq_of_some _ d' e) (joins_one c at here)
    join_producer-Way d d' c none at here e = cc
    join_producer-Way d d' c (some (offers i)) at here e = cc
    join_producer-Way d d' c (some (waits_for i k)) at here e = cc

    coordinate-Way :
        (d d' : Demo F) (x : Coordinator)
        → d.coordinator ≡ x
        → coordinate F d x ≡ some d'
        → Way g d d'
    unfolding coordinate
    coordinate-Way d d' (creates c) at e = elim (Bool-cases (ltb c producer_threads)) [
      | inl more ↦
          let run : coordinate F d (creates c)
              ≡ some (record d {
                producers = d.producers ++ (offers 1 ∷ []);
                coordinator = creates (suc c);
              }) =
            rw (coordinate, more) refl in
          subst (Way g d) (eq_of_some _ d' (sym run ∙ e)) (spawns c at more)
      | inr over ↦
          let run : coordinate F d (creates c) ≡ some (record d { coordinator = joins 0 }) =
            rw (coordinate, over) refl in
          subst (Way g d) (eq_of_some _ d' (sym run ∙ e)) (turns_around c at over)
    ]
    coordinate-Way d d' (joins c) at e = elim (Bool-cases (ltb c producer_threads)) [
      | inl more ↦
          let run : coordinate F d (joins c) ≡ join_producer F d c (get_elem? d.producers c) =
            rw (coordinate, more) refl in
          join_producer-Way d d' c (get_elem? d.producers c) at refl (sym run ∙ e)
      | inr over ↦
          let run : coordinate F d (joins c) ≡ some (record d { coordinator = is_done }) =
            rw (coordinate, over) refl in
          subst (Way g d) (eq_of_some _ d' (sym run ∙ e)) (joins_all c at over)
    ]
    coordinate-Way d d' is_done at e = cc

    return_from-Way :
        (d d' : Demo F) (k : ℕ) (c : Option (Call Task))
        → d.main ≡ in_shutdown k
        → get_elem? d.pool.calls k ≡ c
        → return_from F d c ≡ some d'
        → Way g d d'
    unfolding return_from
    return_from-Way d d' k (some ended) at here e =
        subst (Way g d) (eq_of_some _ d' e) (comes_back k at here)
    return_from-Way d d' k none at here e = cc
    return_from-Way d d' k (some (pushing now t)) at here e = cc
    return_from-Way d d' k (some (noting now r)) at here e = cc
    return_from-Way d d' k (some dropping) at here e = cc
    return_from-Way d d' k (some (returned b)) at here e = cc
    return_from-Way d d' k (some stopping) at here e = cc
    return_from-Way d d' k (some finalizing) at here e = cc
    return_from-Way d d' k (some joining) at here e = cc

    join_coordinator-Way :
        (d d' : Demo F) (x : Coordinator)
        → d.main ≡ before_join
        → d.coordinator ≡ x
        → join_coordinator F d x ≡ some d'
        → Way g d d'
    unfolding join_coordinator
    join_coordinator-Way d d' is_done at here e =
        subst (Way g d) (eq_of_some _ d' e) (meets at here)
    join_coordinator-Way d d' (creates c) at here e = cc
    join_coordinator-Way d d' (joins c) at here e = cc

  main-Way :
      (g : Bool) (d d' : Demo F) (x : Place)
      → d.main ≡ x
      → proceed_main F g d x ≡ some d'
      → Way g d d'
  unfolding proceed_main
  main-Way g d d' before_pause at e = subst (Way g d) (eq_of_some _ d' e) (pauses at)
  main-Way g d d' before_resume at e = subst (Way g d) (eq_of_some _ d' e) (resumes at)
  main-Way true d d' before_shutdown at e =
      subst (Way true d) (eq_of_some _ d' e) (stops_gently at refl)
  main-Way false d d' before_shutdown at e =
      subst (Way false d) (eq_of_some _ d' e) (stops_at_once at refl)
  main-Way g d d' (in_shutdown k) at e =
      return_from-Way g d d' k (get_elem? d.pool.calls k) at refl e
  main-Way g d d' before_join at e = join_coordinator-Way g d d' d.coordinator at refl e
  main-Way g d d' before_stats at e = subst (Way g d) (eq_of_some _ d' e) (shows at)
  main-Way g d d' after_stats at e = cc

  -- Every move is one of these.
  pub Move-Way : {g : Bool} {d d' : Demo F} → Move F g d d' → Way g d d'
  unfolding producer_step coordinator_step main_step
  Move-Way {g} {d} (produces p duration {d'} e) = elim (Option-cases (get_elem? d.producers p)) [
    | inl nobody ↦
        let stuck : producer_step F d p duration ≡ none = rw (producer_step, nobody) refl in
        absurd (cc)
    | inr (x, here) ↦
        let run : producer_step F d p duration ≡ produce F d p duration x =
          rw (producer_step, here) refl in
        produce-Way g d d' p duration x here (sym run ∙ e)
  ]
  Move-Way {g} {d} (coordinates {d'} e) = coordinate-Way g d d' d.coordinator refl e
  Move-Way {g} {d} (moves_on {d'} e) = main-Way g d d' d.main refl e
  Move-Way (works i {p'} e) = works_in_pool i p' e
  Move-Way (proceeds k {p'} e) = proceeds_in_pool k p' e
  Move-Way (passes time) = waits_in_pool time
