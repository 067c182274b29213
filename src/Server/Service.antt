-- ===== src/Server/Service.antt =====
-- The life of one client's state: a matrix comes, a worker is started, and its result is shown.
use multithreading_labs.Base.{
  ℕ, ◌≡◌, refl, sym, ◌∙◌, subst, some, Bool, true, List, eq_of_some, arith, inl, inr, ◌⊎◌,
}
use multithreading_labs.Fork.{IsJoined}
use multithreading_labs.MinMax.Extrema.{MinMax}
use multithreading_labs.MinMax.Sequential.{IsExtremaOf}
use multithreading_labs.MinMax.Parallel.{find_min_max_parallel-IsExtremaOf}
use multithreading_labs.MinMax.{effective_threads}
use multithreading_labs.Protocol.{Host}
use multithreading_labs.Server.Payload.{HasMatrix}
use multithreading_labs.Server.Lifecycle.{
  result, IsValid, Keeps, status-cases, at, handle_message-Keeps,
}
use multithreading_labs.Server.{
  running, done, failed, no_error, internal, not_started, busy, ended, ClientState, fresh, replies,
  deadlocks, terminates, status_reply, handle_start_command, handle_status_command, handle_message,
  worker_finishes, worker_fails, Step, handled, finished, fails,
}

-- The states that a client's connection can lead to.
pub data Reach (host : Host) (can_allocate : ℕ → Bool) : ClientState → Type 0 where
  connected : Reach host can_allocate fresh
  moves :
      {state state' : ClientState}
      → Reach host can_allocate state
      → Step host can_allocate state state'
      → Reach host can_allocate state'

fresh-IsValid : IsValid fresh
unfolding fresh
fresh-IsValid = (refl, refl)

IsValid-result :
    (state : ClientState)
    → IsValid state
    → (order : List ℕ) → IsJoined (effective_threads state.job.rows state.job.num_threads) order
    → state.status ≡ running
    → (after : ClientState) × (worker_finishes state order ≡ some after)
      × (after.status ≡ done)
      × IsValid after
unfolding worker_finishes
IsValid-result state v order j e =
    let (w, d, m) = at state e v in
    let job = state.job in
    let (r, run, same, h) =
      find_min_max_parallel-IsExtremaOf job.values job.rows job.cols job.num_threads order m j in
    (
      record state {
        min_value = r.min_value;
        max_value = r.max_value;
        status = done;
        error = no_error;
        worker = ended;
      },
      rw (w, run) refl,
      refl,
      (refl, d, m, h),
    )

-- Only in the status RUNNING is there a worker to finish.
worker-cases :
    (state : ClientState)
    → IsValid state
    → ((state.status ≡ running)
        × (state.worker ≡ busy state.job)
        × (state.has_data ≡ true)
        × HasMatrix state.job)
      ⊎ (state.worker ≡ not_started)
      ⊎ (state.worker ≡ ended)
worker-cases state v = elim (status-cases state.status) [
  | inl e ↦ let (w, h) = at state e v in inr (inl w)
  | inr (inl e) ↦ let (w, d, m') = at state e v in inr (inl w)
  | inr (inr (inl e)) ↦ let (w, d, m') = at state e v in inl (e, w, d, m')
  | inr (inr (inr (inl e))) ↦ let (w, d, m', x) = at state e v in inr (inr w)
  | inr (inr (inr (inr e))) ↦ let (w, d, m') = at state e v in inr (inr w)
]

finished-IsValid :
    (state : ClientState) (order : List ℕ) (after : ClientState)
    → IsValid state
    → IsJoined (effective_threads state.job.rows state.job.num_threads) order
    → worker_finishes state order ≡ some after
    → IsValid after
unfolding worker_finishes
finished-IsValid state order after v j e = elim (worker-cases state v) [
  | inl (r, w, d, h) ↦
      let (expected, run, finish, v') = IsValid-result state v order j r in
      subst IsValid (eq_of_some expected after (sym run ∙ e)) v'
  | inr (inl w) ↦ absurd (ground arith)
  | inr (inr w) ↦ absurd (ground arith)
]

fails-IsValid :
    (state after : ClientState) → IsValid state → worker_fails state ≡ some after → IsValid after
unfolding worker_fails
fails-IsValid state after v e = elim (worker-cases state v) [
  | inl (r, w, d, h) ↦
      let failure : ClientState = record state {
        status = failed;
        error = internal;
        worker = ended;
      } in
      let run : worker_fails state ≡ some failure = rw w refl in
      subst IsValid (eq_of_some failure after (sym run ∙ e)) (refl, d, h)
  | inr (inl w) ↦ absurd (ground arith)
  | inr (inr w) ↦ absurd (ground arith)
]

module _ (host : Host) (can_allocate : ℕ → Bool) where
  Step-IsValid :
      {state state' : ClientState}
      → IsValid state
      → Step host can_allocate state state'
      → IsValid state'
  Step-IsValid v (handled state type payload after reply e) =
      subst Keeps e (handle_message-Keeps host can_allocate state v type payload)
  Step-IsValid v (finished state order after j e) = finished-IsValid state order after v j e
  Step-IsValid v (fails state after e) = fails-IsValid state after v e

  -- In every state that a connection leads to, status, worker, data and result belong together: in
  -- IDLE there is neither data nor worker, in READY a matrix and no worker, in RUNNING the worker
  -- searches the stored matrix, and in DONE and ERROR it has ended and can still be joined; in DONE
  -- the result is the least and the greatest value of the stored matrix.
  pub Reach-IsValid : (state : ClientState) → Reach host can_allocate state → IsValid state
  Reach-IsValid state connected = fresh-IsValid
  Reach-IsValid state (moves {state = before} reached step) =
      Step-IsValid (Reach-IsValid before reached) step

  -- In every state that a connection leads to, no message makes the client's thread wait for its own
  -- worker while it holds the mutex that the worker needs.
  pub handle_message-never_deadlocks :
      (state : ClientState)
      → Reach host can_allocate state
      → (type : ℕ) (payload : List ℕ)
      → ¬ (handle_message host can_allocate state type payload ≡ deadlocks)
  handle_message-never_deadlocks state reached type payload e =
      subst Keeps e
        (handle_message-Keeps host can_allocate state (Reach-IsValid state reached) type payload)

  -- In every state that a connection leads to, a status request that finds DONE is answered with the
  -- least and the greatest value of the stored matrix.
  pub handle_status_command-IsExtremaOf :
      (state : ClientState)
      → Reach host can_allocate state
      → state.status ≡ done
      → (r : MinMax) × IsExtremaOf state.job.values r
        × (handle_status_command host state
            ≡ replies state (status_reply host done r.min_value r.max_value state.error))
  unfolding handle_status_command
  handle_status_command-IsExtremaOf state reached e =
      let (w, has, m, h) = at state e (Reach-IsValid state reached) in (result state, h, simp e)

  -- While the status of a connection is RUNNING, the search that was started comes to an end without reading out of
  -- range, in whatever order its threads finish, and the status becomes DONE, with the
  -- least and the greatest value of the matrix.
  pub worker_finishes-done :
      (state : ClientState)
      → Reach host can_allocate state
      → state.status ≡ running
      → (order : List ℕ) → IsJoined (effective_threads state.job.rows state.job.num_threads) order
      → (after : ClientState) × (worker_finishes state order ≡ some after)
        × (after.status ≡ done)
        × IsExtremaOf after.job.values (result after)
  worker_finishes-done state reached e order j =
      let (after, run, d, v) = IsValid-result state (Reach-IsValid state reached) order j e in
      let (w, has, m, h) = at after d v in (after, run, d, h)

  -- START in a connection where an earlier run is done or has failed and no matrix has come since: the new thread is
  -- assigned to one that is still joinable, which ends the whole server.
  pub handle_start_command-terminates :
      (state : ClientState)
      → Reach host can_allocate state
      → (state.status ≡ done) ⊎ (state.status ≡ failed)
      → handle_start_command host state ≡ terminates
  unfolding handle_start_command
  handle_start_command-terminates state reached h = elim h [
    | inl e ↦ let (w, has, m, h') = at state e (Reach-IsValid state reached) in rw (has, e, w) refl
    | inr e ↦ let (w, has, m) = at state e (Reach-IsValid state reached) in rw (has, e, w) refl
  ]
