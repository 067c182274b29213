-- ===== src/Client/Session.antt =====
-- A whole session: DATA, START, and STATUS once the worker is done.
use multithreading_labs.Base.{
  ℕ, ◌+◌, ◌*◌, ◌^◌, ◌<◌, ◌≡◌, refl, ap, ◌∙◌, some, Bool, true, List, [], ℤ, length, All,
  All-get_elem?, size_mod, inl, inr,
}
use multithreading_labs.Fork.{IsJoined}
use multithreading_labs.MinMax.Extrema.{MinMax}
use multithreading_labs.MinMax.{effective_threads}
use multithreading_labs.MinMax.Sequential.{IsExtremaOf}
use multithreading_labs.MinMax.Scan.{Range}
use multithreading_labs.MinMax.Parallel.{find_min_max_parallel-IsExtremaOf}
use multithreading_labs.Protocol.Words.{IsInt32}
use multithreading_labs.Protocol.{Host, msg_data, msg_start, msg_status, msg_data_ok, msg_start_ok}
use multithreading_labs.Server.Payload.{HasMatrix}
use multithreading_labs.Server.Lifecycle.{IsValid, status-cases, at}
use multithreading_labs.Server.Service.{Reach, Reach-IsValid}
use multithreading_labs.Server.{
  running, ready, done, no_error, Job, not_started, busy, ended, ClientState, Reply, replies,
  store_job, store_parsed, status_reply, handle_data_command, handle_start_command,
  handle_status_command, handle_message, worker_finishes, Outcome,
}
use multithreading_labs.Client.Upload.{parse_data-data_payload}
use multithreading_labs.Client.Report.{read_status-status_reply}
use multithreading_labs.Client.{data_payload, read_status}

pub Range-All :
    (P : ℤ → Type 0) (values : List ℤ) (lo hi : ℕ) (v : ℤ)
    → All P values
    → Range values lo hi v
    → P v
Range-All P values lo hi v all (k, above, below, e) = All-get_elem? P values k v all e

-- The states after DATA, START and the worker's end.
abbrev pub loaded : ClientState → Job → ClientState
loaded state job = record state {
  job = job;
  status = ready;
  error = no_error;
  has_data = true;
  worker = not_started;
}

abbrev pub searching : ClientState → Job → ClientState
searching state job = record (loaded state job) {
  status = running;
  error = no_error;
  worker = busy job;
}

abbrev pub searched : ClientState → Job → MinMax → ClientState
searched state job r = record (searching state job) {
  min_value = r.min_value;
  max_value = r.max_value;
  status = done;
  error = no_error;
  worker = ended;
}

abbrev pub acknowledges : ClientState → ℕ → Outcome
acknowledges state type = replies state (record { type = type; payload = [] })

-- A matrix that comes while no search runs is stored.
store_job-loaded :
    (state : ClientState) (job : Job) (refusal : Reply)
    → IsValid state
    → ¬ (state.status ≡ running)
    → store_job state job refusal ≡ acknowledges (loaded state job) msg_data_ok
unfolding store_job
store_job-loaded state job refusal v n = elim (status-cases state.status) [
  | inl e ↦ let (w, h) = at state e v in rw (e, w) refl
  | inr (inl e) ↦ let (w, h, m) = at state e v in rw (e, w) refl
  | inr (inr (inl e)) ↦ absurd (n e)
  | inr (inr (inr (inl e))) ↦ let (w, h, m, x) = at state e v in rw (e, w) refl
  | inr (inr (inr (inr e))) ↦ let (w, h, m) = at state e v in rw (e, w) refl
]

module _ (host : Host) (can_allocate : ℕ → Bool) (job : Job) (is_matrix : HasMatrix job)
    (rows_fit : job.rows < 2 ^ 32) (cols_fit : job.cols < 2 ^ 32)
    (num_threads_fit : job.num_threads < 2 ^ 32) (values_fit : All IsInt32 job.values)
    (payload_fits : 12 + 4 * length job.values < size_mod)
    (allocated : can_allocate (length job.values) ≡ true) where
  -- In every state that a connection leads to in which no search runs: the client's DATA message is
  -- acknowledged, START then too, the worker then comes to an end, in whatever order its threads
  -- finish, and what the client reads from the answer to STATUS is DONE, no error, and the least and
  -- the greatest value of the matrix that it sent. The matrix has a row and a column, its values are
  -- 32-bit integers, its sizes and the number of threads fit their words, the payload is shorter than
  -- 2 ^ 64 bytes, and the server can allocate the matrix.
  pub whole_session :
      (state : ClientState)
      → Reach host can_allocate state
      → ¬ (state.status ≡ running)
      → (order : List ℕ) → IsJoined (effective_threads job.rows job.num_threads) order
      → (r : MinMax) × IsExtremaOf job.values r
        × (handle_message host can_allocate state msg_data
              (data_payload host job.rows job.cols job.num_threads job.values)
            ≡ acknowledges (loaded state job) msg_data_ok)
        × (handle_message host can_allocate (loaded state job) msg_start []
            ≡ acknowledges (searching state job) msg_start_ok)
        × (worker_finishes (searching state job) order ≡ some (searched state job r))
        × (handle_message host can_allocate (searched state job r) msg_status []
            ≡ replies
                (searched state job r)
                (status_reply host done r.min_value r.max_value no_error))
        × (read_status host (status_reply host done r.min_value r.max_value no_error).payload
            ≡ some (record {
              status = 3;
              min_value = r.min_value;
              max_value = r.max_value;
              error = 0;
            }))
  unfolding handle_message handle_data_command store_parsed handle_start_command
      handle_status_command worker_finishes
  whole_session state reached idle order j =
      let (r, run, same, h) =
        find_min_max_parallel-IsExtremaOf job.values job.rows job.cols job.num_threads order
          is_matrix j in
      let (min_fits, max_fits) : IsInt32 r.min_value × IsInt32 r.max_value = (
        Range-All IsInt32 job.values _ _ r.min_value values_fit h.min_in,
        Range-All IsInt32 job.values _ _ r.max_value values_fit h.max_in,
      ) in
      let taken =
        parse_data-data_payload host job is_matrix rows_fit cols_fit num_threads_fit values_fit
          payload_fits can_allocate allocated in
      (
        r,
        h,
        ap (store_parsed host state) taken
            ∙ store_job-loaded state job _ (Reach-IsValid host can_allocate state reached) idle,
        refl,
        rw run refl,
        refl,
        read_status-status_reply host done r no_error min_fits max_fits,
      )
