-- ===== src/Demo/Waits.antt =====
-- Which producer waits for which call of the pool.
use multithreading_labs.Base.{
  ℕ, suc, ◌≡◌, refl, sym, ap, ◌∙◌, subst, inl, inr, some, Bool, List, [], ◌∷◌, ◌++◌, arith, length,
  get_elem?, set, eq_of_some, get_elem?-append, get_elem?-set_self, get_elem?-set_ne,
  get_elem?-bound, ℕ_discrete,
}
use multithreading_labs.Stats.{Floats}
use multithreading_labs.Pool
use multithreading_labs.Pool.{
  Pool, Call, pushing, returned, finalizing, stopping, enqueue, shutdown_graceful, shutdown_now,
  Step,
}
use multithreading_labs.Pool.Moves.{
  unanswered, get_elem?-end, call_step-unanswered, worker_step-Keeps,
}
use multithreading_labs.Demo.{Task, Producer, offers, waits_for, leaves, Demo, answered}
use multithreading_labs.Demo.Ways.{
  Way, asks, quits, learns, spawns, turns_around, joins_one, joins_all, pauses, resumes,
  stops_gently, stops_at_once, comes_back, meets, shows, works_in_pool, proceeds_in_pool,
  waits_in_pool,
}

-- A producer waits for each call of `enqueue` that has not returned.
abbrev pub Waited : List (Call Task) → List Producer → Type 0
Waited calls ps =
    (k : ℕ) (c : Call Task)
    → get_elem? calls k ≡ some c
    → unanswered c ≡ 1
    → (p : ℕ) × (i : ℕ) × (get_elem? ps p ≡ some (waits_for i k))

-- Producer `p` goes from `x` to `y`, and no call that has not returned was its own.
Waited-set :
    (calls : List (Call Task)) (ps : List Producer) (p : ℕ) (x y : Producer)
    → get_elem? ps p ≡ some x
    → ((k i : ℕ) (c : Call Task)
        → get_elem? calls k ≡ some c
        → unanswered c ≡ 1
        → x ≡ waits_for i k
        → ⊥)
    → Waited calls ps
    → Waited calls (set ps p y)
Waited-set calls ps p x y here free w k c at waits =
    let (q, i, there) = w k c at waits in
    elim (ℕ_discrete p q) [
      | yes same ↦
          let it : some x ≡ some (waits_for i k) = sym here ∙ ap (get_elem? ps) same ∙ there in
          absurd (free k i c at waits (eq_of_some _ _ it))
      | no other ↦ (q, i, get_elem?-set_ne ps y other ∙ there)
    ]

-- The call has returned.
learned :
    (calls : List (Call Task)) (i k : ℕ) (b : Bool)
    → get_elem? calls k ≡ some (returned b)
    → (k' i' : ℕ) (c : Call Task) → get_elem? calls k' ≡ some c
    → unanswered c ≡ 1
    → waits_for i k ≡ waits_for i' k'
    → ⊥
learned calls i k b at k' i' c there waits e =
    let same : k ≡ k' = cc in
    let it : some (returned b) ≡ some c = sym at ∙ ap (get_elem? calls) same ∙ there in
    let zero_ : unanswered c ≡ 0 = ap unanswered (sym (eq_of_some _ _ it)) in
    absurd (omega (arith, zero_, waits))

-- A call begins that no producer waits for.
Waited-end :
    (calls : List (Call Task)) (ps : List Producer) (c : Call Task)
    → unanswered c ≡ 0
    → Waited calls ps
    → Waited (calls ++ (c ∷ [])) ps
Waited-end calls ps c other w k x at waits = elim (get_elem?-end calls c x k at) [
  | inl old ↦ w k x old waits
  | inr (last, same) ↦
      absurd (let zero_ = ap unanswered same ∙ other in omega (arith, zero_, waits))
]

-- A producer calls `enqueue`.
Waited-asks :
    (calls : List (Call Task)) (ps : List Producer) (p i : ℕ) (c : Call Task)
    → get_elem? ps p ≡ some (offers i)
    → Waited calls ps
    → Waited (calls ++ (c ∷ [])) (set ps p (waits_for i (length calls)))
Waited-asks calls ps p i c here w k x at waits = elim (get_elem?-end calls c x k at) [
  | inl old ↦
      Waited-set calls ps p (offers i) (waits_for i (length calls)) here (λ k j c a b e. cc) w k x
        old waits
  | inr (last, same) ↦ (
    p,
    i,
    get_elem?-set_self ps p (waits_for i (length calls)) (get_elem?-bound ps p (offers i) here)
        ∙ ap (λ n. some (waits_for i n)) (sym last),
  )
]

module _ {F : Floats} {g : Bool} where
  pub Way-Waited :
      {d d' : Demo F}
      → Waited d.pool.calls d.producers
      → Way F g d d'
      → Waited d'.pool.calls d'.producers
  unfolding answered enqueue shutdown_graceful shutdown_now Pool.pause Pool.resume
  Way-Waited {d} w (asks p i duration here more) = Waited-asks d.pool.calls d.producers p i _ here w
  Way-Waited {d} w (quits p i here over) =
      Waited-set d.pool.calls d.producers p (offers i) leaves here (λ k j c a b e. cc) w
  Way-Waited {d} w (learns p i k b here at) =
      Waited-set d.pool.calls d.producers p (waits_for i k) (offers (suc i)) here
        (learned d.pool.calls i k b at) w
  Way-Waited {d} w (spawns c at more) = λ k x here waits.
      let (p, i, there) = w k x here waits in
      (p, i, get_elem?-append d.producers (offers 1 ∷ []) p (waits_for i k) there)
  Way-Waited w (turns_around c at over) = w
  Way-Waited w (joins_one c at here) = w
  Way-Waited w (joins_all c at over) = w
  Way-Waited w (pauses at) = w
  Way-Waited w (resumes at) = w
  Way-Waited {d} w (stops_gently at e) = Waited-end d.pool.calls d.producers finalizing refl w
  Way-Waited {d} w (stops_at_once at e) = Waited-end d.pool.calls d.producers stopping refl w
  Way-Waited w (comes_back k at here) = w
  Way-Waited w (meets at e) = w
  Way-Waited w (shows at) = w
  Way-Waited {d} w (works_in_pool i p' e) =
      subst (λ (calls : List (Call Task)). Waited calls d.producers)
        (sym (worker_step-Keeps F d.pool p' i e).0) w
  Way-Waited {d} w (proceeds_in_pool i p' e) = λ k x at waits.
      let (y, before, waited) = call_step-unanswered F d.pool p' i k x e at waits in
      w k y before waited
  Way-Waited w (waits_in_pool time) = w
