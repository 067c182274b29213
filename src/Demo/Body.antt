-- ===== src/Demo/Body.antt =====
-- The body of a task.
use multithreading_labs.Base.{
  ℕ, zero, suc, ◌+◌, ◌*◌, ◌<◌, ◌≡◌, sym, ap, ◌∙◌, Bool, true, false, List, [], ◌∷◌, arith,
}
use multithreading_labs.Demo.{Task}

-- A line that a task prints.
pub data TaskLine : Type 0 where
  says_started : (task_id duration : ℕ) → TaskLine
  says_cancelled says_finished : (task_id : ℕ) → TaskLine

-- What a task has done: its lines, and how often it has slept for 100 ms.
pub record Work : Type 0 where
  pub lines : List TaskLine
  pub sleeps : ℕ

-- The loop and what follows it, with `left` rounds to go, after `step` rounds; `stop_now_flag` is what
-- the reading of the flag in each round gives.
unfoldable pub task_steps : ℕ → (ℕ → Bool) → ℕ → ℕ → Work
task_steps task_id stop_now_flag step zero = record {
  lines = says_finished task_id ∷ [];
  sleeps = step;
}
task_steps task_id stop_now_flag step (suc left) = elim (stop_now_flag step) [
  | true ↦ record { lines = says_cancelled task_id ∷ []; sleeps = step }
  | false ↦ task_steps task_id stop_now_flag (suc step) left
]

-- The line before the loop.
abbrev pub begun : Task → Work → Work
begun task rest = record rest { lines = says_started task.task_id task.duration ∷ rest.lines }

unfoldable pub run_task : Task → (ℕ → Bool) → Work
unfolding task_steps
run_task task stop_now_flag =
    begun task (task_steps task.task_id stop_now_flag 0 (task.duration * 10))

task_steps-calm :
    (task_id : ℕ) (stop_now_flag : ℕ → Bool) (step left : ℕ)
    → ((k : ℕ) → k < step + left → stop_now_flag k ≡ false)
    → task_steps task_id stop_now_flag step left
      ≡ record { lines = says_finished task_id ∷ []; sleeps = step + left }
unfolding task_steps
task_steps-calm task_id flag step zero calm =
    ap (λ n. record { lines = says_finished task_id ∷ []; sleeps = n }) (omega arith)
task_steps-calm task_id flag step (suc left) calm =
    rw (task_steps, calm step (omega arith))
      (task_steps-calm task_id flag (suc step) left (λ k h. calm k (omega (arith, h)))
        ∙ ap (λ n. record { lines = says_finished task_id ∷ []; sleeps = n }) (omega arith))

task_steps-stopped :
    (task_id : ℕ) (stop_now_flag : ℕ → Bool) (step left more : ℕ)
    → more < left
    → ((k : ℕ) → k < step + more → stop_now_flag k ≡ false)
    → stop_now_flag (step + more) ≡ true
    → task_steps task_id stop_now_flag step left
      ≡ record { lines = says_cancelled task_id ∷ []; sleeps = step + more }
unfolding task_steps
task_steps-stopped task_id flag step zero more h calm set_ = absurd (omega arith)
task_steps-stopped task_id flag step (suc left) zero h calm set_ =
    let same : step + 0 ≡ step = omega arith in
    let now : flag step ≡ true = sym (ap flag same) ∙ set_ in
    rw (task_steps, now)
      (ap (λ n. record { lines = says_cancelled task_id ∷ []; sleeps = n }) (sym same))
task_steps-stopped task_id flag step (suc left) (suc more) h calm set_ =
    let same : suc step + more ≡ step + suc more = omega arith in
    rw (task_steps, calm step (omega arith))
      (task_steps-stopped task_id flag (suc step) left more (omega arith)
          (λ k b. calm k (omega (arith, b))) (ap flag same ∙ set_)
        ∙ ap (λ n. record { lines = says_cancelled task_id ∷ []; sleeps = n }) same)

-- A task whose flag is never set while it runs prints that it has started and that it has finished,
-- and sleeps ten times for each second of its duration.
pub run_task-finishes :
    (task : Task) (stop_now_flag : ℕ → Bool)
    → ((k : ℕ) → k < task.duration * 10 → stop_now_flag k ≡ false)
    → run_task task stop_now_flag ≡ record {
      lines = says_started task.task_id task.duration ∷ says_finished task.task_id ∷ [];
      sleeps = task.duration * 10;
    }
unfolding run_task
run_task-finishes task flag calm =
    let run =
      task_steps-calm task.task_id flag 0 (task.duration * 10) (λ k h. calm k (omega (arith, h))) in
    let zero_ : 0 + task.duration * 10 ≡ task.duration * 10 = omega arith in
    ap (begun task) run
    ∙ ap (λ n. begun task (record { lines = says_finished task.task_id ∷ []; sleeps = n })) zero_

-- A task that first finds the flag set in round `k` of its loop prints that it has started and that it
-- is cancelled, and does not sleep any more.
pub run_task-cancelled :
    (task : Task) (stop_now_flag : ℕ → Bool) (k : ℕ)
    → k < task.duration * 10
    → ((j : ℕ) → j < k → stop_now_flag j ≡ false)
    → stop_now_flag k ≡ true
    → run_task task stop_now_flag ≡ record {
      lines = says_started task.task_id task.duration ∷ says_cancelled task.task_id ∷ [];
      sleeps = k;
    }
unfolding run_task
run_task-cancelled task flag k h calm set_ =
    let zero_ : 0 + k ≡ k = omega arith in
    let run =
      task_steps-stopped task.task_id flag 0 (task.duration * 10) k h
        (λ j b. calm j (omega (arith, b))) (ap flag zero_ ∙ set_) in
    ap (begun task) run
    ∙ ap (λ n. begun task (record { lines = says_cancelled task.task_id ∷ []; sleeps = n })) zero_
