-- ===== src/Demo/Joining.antt =====
-- What the coordinator and `main` know of the threads that they have joined.
use multithreading_labs.Base.{
  ℕ, suc, ◌≡◌, refl, sym, ap, ◌∙◌, subst, some, Bool, true, false, List, [], ◌∷◌, arith, ltb→lt,
  get_elem?, set, eq_of_some, length-append, length-set, get_elem?-set_ne, dec_lt, ℕ_discrete,
}
use multithreading_labs.Stats.{Floats}
use multithreading_labs.Pool
use multithreading_labs.Pool.{
  Pool, Call, pushing, noting, dropping, stopping, finalizing, joining, returned, ended, all_exited,
  enqueue, shutdown_graceful, shutdown_now, create, Step,
}
use multithreading_labs.Pool.Moves.{worker_step-Keeps, call_step-stop_now_flag, Step-all_exited}
use multithreading_labs.Pool.Joins.{Reach-Joined}
use multithreading_labs.Pool.Shutdown.{Reach}
use multithreading_labs.Demo.{
  workers, queue_capacity, producer_threads, Task, Producer, offers, waits_for, leaves, Coordinator,
  creates, joins, is_done, Place, before_pause, before_resume, before_shutdown, in_shutdown,
  before_join, before_stats, after_stats, Demo, answered,
}
use multithreading_labs.Demo.Ways.{
  Way, asks, quits, learns, spawns, turns_around, joins_one, joins_all, pauses, resumes,
  stops_gently, stops_at_once, comes_back, meets, shows, works_in_pool, proceeds_in_pool,
  waits_in_pool,
}
use multithreading_labs.Demo.Invariant.{Coordinates}

-- Behind the shutdown; behind the join of the coordinator.
abbrev pub is_late : Place → Bool
is_late before_pause = false
is_late before_resume = false
is_late before_shutdown = false
is_late (in_shutdown k) = false
is_late before_join = true
is_late before_stats = true
is_late after_stats = true

abbrev pub is_last : Place → Bool
is_last before_pause = false
is_last before_resume = false
is_last before_shutdown = false
is_last (in_shutdown k) = false
is_last before_join = false
is_last before_stats = true
is_last after_stats = true

-- The producers that have left are others.
others :
    (ps : List Producer) (p j : ℕ) (x y : Producer)
    → get_elem? ps p ≡ some x
    → (x ≡ leaves → ⊥)
    → get_elem? ps j ≡ some leaves
    → get_elem? (set ps p y) j ≡ some leaves
others ps p j x y here stays left = elim (ℕ_discrete p j) [
  | yes same ↦
      let it : some x ≡ some leaves = sym here ∙ ap (get_elem? ps) same ∙ left in
      absurd (stays (eq_of_some _ _ it))
  | no other ↦ get_elem?-set_ne ps y other ∙ left
]

-- A producer that has not left goes on.
Coordinates-set :
    (c : Coordinator) (ps : List Producer) (p : ℕ) (x y : Producer)
    → get_elem? ps p ≡ some x
    → (x ≡ leaves → ⊥)
    → Coordinates c ps
    → Coordinates c (set ps p y)
Coordinates-set (creates c) ps p x y here stays (size, few) = (length-set ps p y ∙ size, few)
Coordinates-set (joins c) ps p x y here stays (size, left) =
    (length-set ps p y ∙ size, λ j h. others ps p j x y here stays (left j h))
Coordinates-set is_done ps p x y here stays (size, left) =
    (length-set ps p y ∙ size, λ j h. others ps p j x y here stays (left j h))

module _ {F : Floats} where
  -- What `main` has seen: the workers have left their loops, and the coordinator is done.
  abbrev pub Sees : Bool → Demo F → Type 0
  Sees g d =
      (is_late d.main ≡ true → all_exited F d.pool.workers ≡ true)
      × (is_last d.main ≡ true → d.coordinator ≡ is_done)
      × (g ≡ true → d.pool.stop_now_flag ≡ false)

  -- A step of the pool.
  Sees-pool :
      (g : Bool) (d : Demo F) (p' : Pool F Task)
      → Sees g d
      → Step F d.pool p'
      → p'.stop_now_flag ≡ d.pool.stop_now_flag
      → Sees g (record d { pool = p' })
  Sees-pool g d p' (exits, met, gentle) s flag =
      ((λ h. Step-all_exited F s (exits h)), met, λ h. flag ∙ gentle h)

module _ {F : Floats} {g : Bool} where
  pub Way-Coordinates :
      {d d' : Demo F}
      → Coordinates d.coordinator d.producers
      → Way F g d d'
      → Coordinates d'.coordinator d'.producers
  unfolding answered
  Way-Coordinates {d} c (asks p i duration here more) =
      Coordinates-set d.coordinator d.producers p (offers i) _ here (λ e. cc) c
  Way-Coordinates {d} c (quits p i here over) =
      Coordinates-set d.coordinator d.producers p (offers i) leaves here (λ e. cc) c
  Way-Coordinates {d} c (learns p i k b here at) =
      Coordinates-set d.coordinator d.producers p (waits_for i k) (offers (suc i)) here (λ e. cc) c
  Way-Coordinates {d} c (spawns n at more) =
      let (size, few) = subst (λ x. Coordinates x d.producers) at c in
      (
        omega (arith, size, length-append d.producers (offers 1 ∷ [])),
        omega (arith, ltb→lt n producer_threads more),
      )
  Way-Coordinates {d} c (turns_around n at over) =
      let (size, few) = subst (λ x. Coordinates x d.producers) at c in
      let all : n ≡ producer_threads = ground arith in
      (size ∙ all, λ j h. absurd (omega (arith, h)))
  Way-Coordinates {d} c (joins_one n at here) =
      let (size, left) = subst (λ x. Coordinates x d.producers) at c in
      (
        size,
        λ j h. elim (dec_lt j n) [
          | yes earlier ↦ left j earlier
          | no now ↦
              let same : n ≡ j = omega (arith, h, now) in
              sym (ap (get_elem? d.producers) same) ∙ here
        ],
      )
  Way-Coordinates {d} c (joins_all n at over) =
      let (size, left) = subst (λ x. Coordinates x d.producers) at c in
      (size, λ j h. left j (ground arith))
  Way-Coordinates c (pauses at) = c
  Way-Coordinates c (resumes at) = c
  Way-Coordinates c (stops_gently at e) = c
  Way-Coordinates c (stops_at_once at e) = c
  Way-Coordinates c (comes_back k at here) = c
  Way-Coordinates c (meets at e) = c
  Way-Coordinates c (shows at) = c
  Way-Coordinates c (works_in_pool i p' e) = c
  Way-Coordinates c (proceeds_in_pool k p' e) = c
  Way-Coordinates c (waits_in_pool time) = c

  pub Way-Sees :
      {d d' : Demo F} → Reach F workers queue_capacity d.pool → Sees g d → Way F g d d' → Sees g d'
  unfolding answered enqueue shutdown_graceful shutdown_now Pool.pause Pool.resume
  Way-Sees {d} r s (asks p i duration here more) = s
  Way-Sees r s (quits p i here over) = s
  Way-Sees r s (learns p i k b here at) = s
  Way-Sees {d} r (exits, met, gentle) (spawns c at more) =
      (exits, (λ h. let m = met h in cc), gentle)
  Way-Sees r (exits, met, gentle) (turns_around c at over) =
      (exits, (λ h. let m = met h in cc), gentle)
  Way-Sees r (exits, met, gentle) (joins_one c at here) =
      (exits, (λ h. let m = met h in cc), gentle)
  Way-Sees r (exits, met, gentle) (joins_all c at over) = (exits, (λ h. refl), gentle)
  Way-Sees r (exits, met, gentle) (pauses at) = ((λ h. cc), (λ h. cc), gentle)
  Way-Sees r (exits, met, gentle) (resumes at) = ((λ h. cc), (λ h. cc), gentle)
  Way-Sees r (exits, met, gentle) (stops_gently at e) = ((λ h. cc), (λ h. cc), gentle)
  Way-Sees r (exits, met, gentle) (stops_at_once at e) = ((λ h. cc), (λ h. cc), λ h. cc)
  Way-Sees {d} r (exits, met, gentle) (comes_back k at here) =
      ((λ h. Reach-Joined F r k here), (λ h. cc), gentle)
  Way-Sees {d} r (exits, met, gentle) (meets at e) =
      ((λ h. exits (ap is_late at)), (λ h. e), gentle)
  Way-Sees {d} r (exits, met, gentle) (shows at) =
      ((λ h. exits (ap is_late at)), (λ h. met (ap is_last at)), gentle)
  Way-Sees {d} r s (works_in_pool i p' e) =
      Sees-pool g d p' s (Step.works i e) (worker_step-Keeps F d.pool p' i e).1
  Way-Sees {d} r s (proceeds_in_pool k p' e) =
      Sees-pool g d p' s (Step.proceeds k e) (call_step-stop_now_flag F d.pool p' k e)
  Way-Sees {d} r s (waits_in_pool time) = s
