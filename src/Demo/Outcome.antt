-- ===== src/Demo/Outcome.antt =====
-- How the demonstration ends.
use mathlib.Core.List.{Perm}
use multithreading_labs.Base.{
  ℕ, zero, suc, ◌+◌, ◌<◌, ◌≡◌, refl, sym, ap, ◌∙◌, subst, inl, inr, some, Bool, true, false, List,
  [], ◌∷◌, ◌++◌, arith, length, get_elem?, total,
}
use multithreading_labs.Stats.{Floats}
use multithreading_labs.Pool.{
  Pool, Call, pushing, noting, dropping, stopping, finalizing, joining, returned, ended, all_exited,
  create,
}
use multithreading_labs.Pool.Calls.{asked, admitted, dropped, Reach-Counts}
use multithreading_labs.Pool.Moves.{unanswered}
use multithreading_labs.Pool.Joins.{Reach-Gentle, Reach-crew}
use multithreading_labs.Pool.Shutdown.{Reach, begun, all_exited-Holds, Reach-IsValid}
use multithreading_labs.Demo.{
  workers, queue_capacity, producer_threads, Task, Producer, waits_for, leaves, before_stats, Demo,
  start, Move,
}
use multithreading_labs.Demo.Ways.{Move-Way}
use multithreading_labs.Demo.Invariant.{made, Coordinates, Way-Reach, Made, Way-Made}
use multithreading_labs.Demo.Waits.{Waited, Way-Waited}
use multithreading_labs.Demo.Joining.{is_late, is_last, Way-Coordinates, Sees, Way-Sees}

-- A call of `enqueue` that has returned was accepted or dropped.
answered-once : (c : Call Task) → (unanswered c ≡ 1 → ⊥) → asked c ≡ admitted c + dropped c
answered-once (pushing now t) over = absurd (over refl)
answered-once (noting now r) over = absurd (over refl)
answered-once dropping over = absurd (over refl)
answered-once (returned true) over = omega arith
answered-once (returned false) over = omega arith
answered-once stopping over = omega arith
answered-once finalizing over = omega arith
answered-once joining over = omega arith
answered-once ended over = omega arith

all_answered :
    (calls : List (Call Task))
    → ((k : ℕ) (c : Call Task) → get_elem? calls k ≡ some c → unanswered c ≡ 1 → ⊥)
    → total asked calls ≡ total admitted calls + total dropped calls
all_answered [] over = omega arith
all_answered (c ∷ calls) over =
    let first = answered-once c (over 0 c refl) in
    let others_ = all_answered calls (λ k x at waits. over (suc k) x at waits) in
    omega (arith, first, others_)

-- Three producers that have left have made forty-five calls.
three_left :
    (ps : List Producer)
    → length ps ≡ producer_threads
    → ((j : ℕ) → j < producer_threads → get_elem? ps j ≡ some leaves)
    → ps ≡ leaves ∷ leaves ∷ leaves ∷ []
three_left [] size left = absurd (omega arith)
three_left (a ∷ []) size left = absurd (omega arith)
three_left (a ∷ b ∷ []) size left = absurd (omega arith)
three_left (a ∷ b ∷ c ∷ []) size left =
    let first = left 0 (omega arith) in
    let second = left 1 (omega arith) in let third = left 2 (omega arith) in cc
three_left (a ∷ b ∷ c ∷ x ∷ ps) size left = absurd (omega (arith, size))

nobody_waits : (p i k : ℕ) → get_elem? (leaves ∷ leaves ∷ leaves ∷ []) p ≡ some (waits_for i k) → ⊥
nobody_waits zero i k e = cc
nobody_waits (suc zero) i k e = cc
nobody_waits (suc (suc zero)) i k e = cc
nobody_waits (suc (suc (suc p))) i k e = cc

no_call_left :
    (calls : List (Call Task)) (ps : List Producer)
    → ps ≡ leaves ∷ leaves ∷ leaves ∷ []
    → Waited calls ps
    → (k : ℕ) (c : Call Task) → get_elem? calls k ≡ some c
    → unanswered c ≡ 1
    → ⊥
no_call_left calls ps three w k c at waits =
    let (p, i, there) = w k c at waits in
    nobody_waits p i k (sym (ap (λ (ps : List Producer). get_elem? ps p) three) ∙ there)

module _ (F : Floats) (g : Bool) where
  -- What the demonstration can become.
  pub data Plays : Demo F → Type 0 where
    begins : Plays (start F)
    plays_on : {d d' : Demo F} → Plays d → Move F g d d' → Plays d'

  pub record Goes (d : Demo F) : Type 0 where
    pub pool : Reach F workers queue_capacity d.pool
    pub made : Made d
    pub waited : Waited d.pool.calls d.producers
    pub coordinates : Coordinates d.coordinator d.producers
    pub sees : Sees g d

  pub Plays-Goes : {d : Demo F} → Plays d → Goes d
  unfolding start create
  Plays-Goes begins = record {
    pool = begun;
    made = (refl, tt);
    waited = λ k c e w. cc;
    coordinates = (refl, omega arith);
    sees = ((λ h. cc), (λ h. cc), λ h. refl);
  }
  Plays-Goes (plays_on p m) =
      let before = Plays-Goes p in
      let way = Move-Way F m in
      record {
        pool = Way-Reach before.pool way;
        made = Way-Made before.made way;
        waited = Way-Waited before.waited way;
        coordinates = Way-Coordinates before.coordinates way;
        sees = Way-Sees before.pool before.sees way;
      }

  -- What `main` finds when it shows the statistics.
  pub record Accounts (p : Pool F Task) : Type 0 where
    pub exits : all_exited F p.workers ≡ true
    pub empty : p.queue.tasks ≡ []
    pub counted : length p.log.accepted + p.tracker.stats.dropped_tasks ≡ 45
    pub in_order : p.log.accepted ≡ p.log.started ++ p.log.discarded
    pub finished : Perm p.log.started p.log.completed
    pub gentle : g ≡ true → p.log.discarded ≡ []

  stays_empty : (p : Pool F Task) → Reach F workers queue_capacity p → 0 < length p.workers
  unfolding create
  stays_empty p r = omega (arith, Reach-crew F r)

  -- When `main` shows the statistics, whatever the threads have done before: all workers have left
  -- their loops, nothing waits; every one of the forty-five tasks was accepted or is counted as
  -- dropped; the accepted tasks are those that were begun, in this order, and those that were thrown
  -- away; all that were begun are finished; and nothing was thrown away if the first argument is
  -- "graceful".
  pub Plays-Accounts : (d : Demo F) → Plays d → d.main ≡ before_stats → Accounts d.pool
  Plays-Accounts d plays here =
      let v = Plays-Goes plays in
      let (exits, met, gentle) = v.sees in
      let out = exits (ap is_late here) in
      let (size, left) =
        subst (λ x. Coordinates x d.producers) (met (ap is_last here)) v.coordinates in
      let three = three_left d.producers size left in
      let counts = Reach-Counts F v.pool in
      let over = no_call_left d.pool.calls d.producers three v.waited in
      let sum = all_answered d.pool.calls over in
      let calls : total asked d.pool.calls ≡ 45 = v.made.0 ∙ ap (total made) three in
      let crew = stays_empty d.pool v.pool in
      let (empty, in_order, finished) = all_exited-Holds F d.pool v.pool crew out in
      let admits = counts.admits in
      let drops = counts.drops in
      record {
        exits = out;
        empty = empty;
        counted = omega (arith, sum, calls, admits, drops);
        in_order = in_order;
        finished = finished;
        gentle = λ h.
            let (quiet, nobody) = Reach-Gentle F v.pool (gentle h) in
            elim (Reach-IsValid F v.pool).kept [ inl nothing ↦ nothing | inr now ↦ cc ];
      }
