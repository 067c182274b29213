-- ===== src/Server.antt =====
-- lab_4/cpp/src/server.cpp: what the server does for one client. The client's thread handles one
-- message after the other; `worker`, started by START, searches the matrix meanwhile. Both change the
-- state under its mutex, a handler from its lock to its reply, the worker when it is done.
pub mod Payload
pub mod Oversize
pub mod Lifecycle
pub mod Service
pub mod Connection
pub mod Listening
use multithreading_labs.Base.{
  ℕ, zero, suc, ◌≡◌, Option, none, some, Bool, true, false, not, ◌||◌, List, [], ◌∷◌, ◌>>=◌, ℤ, pos,
  ◌==◌, if◌then◌else◌, length, add_size, mul_size,
}
use multithreading_labs.MinMax.Extrema.{MinMax}
use multithreading_labs.MinMax.{find_min_max_parallel, effective_threads}
use multithreading_labs.Fork.{IsJoined}
use multithreading_labs.Protocol.{
  Host, append_u32, append_i32, read_u32, read_i32, msg_data, msg_start, msg_status, msg_data_ok,
  msg_start_ok, msg_status_resp, msg_error,
}

pub data StatusCode : Type 0 where
  idle ready running done failed : StatusCode

pub data ErrorCode : Type 0 where
  no_error invalid_payload no_data already_running internal : ErrorCode

abbrev pub status_number : StatusCode → ℕ
status_number idle = 0
status_number ready = 1
status_number running = 2
status_number done = 3
status_number failed = 4

abbrev pub error_number : ErrorCode → ℕ
error_number no_error = 0
error_number invalid_payload = 1
error_number no_data = 2
error_number already_running = 3
error_number internal = 4

-- What the worker was started with.
pub record Job : Type 0 where
  pub values : List ℤ
  pub rows : ℕ
  pub cols : ℕ
  pub num_threads : ℕ

-- `std::thread worker`: not joinable, running its function, or at its end and still joinable.
pub data Worker : Type 0 where
  not_started : Worker
  busy : Job → Worker
  ended : Worker

pub record ClientState : Type 0 where
  pub job : Job  -- `data`, `rows`, `cols` and `numThreads`
  pub status : StatusCode
  pub error : ErrorCode
  pub min_value : ℤ
  pub max_value : ℤ
  pub has_data : Bool
  pub worker : Worker

unfoldable pub fresh : ClientState
fresh = record {
  job = record { values = []; rows = 0; cols = 0; num_threads = 0 };
  status = idle;
  error = no_error;
  min_value = pos 0;
  max_value = pos 0;
  has_data = false;
  worker = not_started;
}

pub record Reply : Type 0 where
  pub type : ℕ
  pub payload : List ℕ

-- A handler replies; or it waits for ever, joining a worker that needs the mutex which the handler
-- holds; or it ends the whole process by `std::terminate`.
pub data Outcome : Type 0 where
  replies : ClientState → Reply → Outcome
  deadlocks : Outcome
  terminates : Outcome

pub record Sizes : Type 0 where
  pub rows : ℕ
  pub cols : ℕ
  pub num_threads : ℕ
  pub offset : ℕ

-- What a DATA message holds; `too_large` if no vector of that size can be had.
pub data Parsed : Type 0 where
  malformed : Parsed
  too_large : Parsed
  parsed : Job → Parsed

-- The part of `handleDataCommand` under the lock.
unfoldable pub store_job : ClientState → Job → Reply → Outcome
store_job state job refusal =
    let stored = record state {
      job = job;
      status = ready;
      error = no_error;
      has_data = true;
      worker = not_started;
    } in
    let accepted = replies stored (record { type = msg_data_ok; payload = [] }) in
    elim state.status [
      | running ↦ replies state refusal
      | _ ↦ elim state.worker [ busy j ↦ deadlocks | _ ↦ accepted ]
    ]

module _ (host : Host) where
  unfoldable pub error_reply : ErrorCode → Reply
  error_reply code = record { type = msg_error; payload = append_u32 host [] (error_number code) }

  unfoldable pub status_reply : StatusCode → ℤ → ℤ → ErrorCode → Reply
  status_reply status min_value max_value error = record {
    type = msg_status_resp;
    payload =
        append_u32 host
          (append_i32 host (append_i32 host (append_u32 host [] (status_number status)) min_value)
            max_value)
          (error_number error);
  }

  -- The loop that reads the values.
  unfoldable pub read_values : List ℕ → ℕ → ℕ → Option (List ℤ)
  read_values payload offset zero = some []
  read_values payload offset (suc rounds) = read_i32 host payload offset >>= λ (value, next).
      read_values payload next rounds >>= λ values. some (value ∷ values)

  unfoldable pub read_sizes : List ℕ → Option Sizes
  read_sizes payload = read_u32 host payload 0 >>= λ (rows, offset).
      read_u32 host payload offset >>= λ (cols, offset').
      read_u32 host payload offset' >>= λ (num_threads, offset'').
      some (record { rows = rows; cols = cols; num_threads = num_threads; offset = offset'' })

  unfoldable pub store_parsed : ClientState → Parsed → Outcome
  store_parsed state malformed = replies state (error_reply invalid_payload)
  store_parsed state too_large = terminates
  store_parsed state (parsed job) = store_job state job (error_reply already_running)

  -- `can_allocate n`: `std::vector<int32_t>(n)` does not throw. Nothing catches what it throws, in
  -- the client's thread.
  module _ (can_allocate : ℕ → Bool) where
    unfoldable pub parse_values : List ℕ → Sizes → Parsed
    parse_values payload s =
        let total = mul_size s.rows s.cols in
        let expected_size = add_size 12 (mul_size total 4) in
        let job : List ℤ → Job = λ values. record {
          values = values;
          rows = s.rows;
          cols = s.cols;
          num_threads = s.num_threads;
        } in
        if s.rows == 0 || s.cols == 0
        then malformed
        else (if not (length payload == expected_size)
            then malformed
            else (if not (can_allocate total)
                then too_large
                else (elim (read_values payload s.offset total) [
                  | none ↦ malformed
                  | some values ↦ parsed (job values)
                ])))

    -- The part of `handleDataCommand` before the lock.
    unfoldable pub parse_data : List ℕ → Parsed
    parse_data payload = elim (read_sizes payload) [
      | none ↦ malformed
      | some s ↦ parse_values payload s
    ]

    unfoldable pub handle_data_command : ClientState → List ℕ → Outcome
    handle_data_command state payload = store_parsed state (parse_data payload)

  -- An assignment to a joinable `std::thread` calls `std::terminate`.
  unfoldable pub handle_start_command : ClientState → Outcome
  handle_start_command state =
      let started = record state { status = running; error = no_error; worker = busy state.job } in
      let accepted = replies started (record { type = msg_start_ok; payload = [] }) in
      let assigned : Outcome = elim state.worker [ not_started ↦ accepted | _ ↦ terminates ] in
      let guarded : Outcome = elim state.status [
        | running ↦ replies state (error_reply already_running)
        | _ ↦ assigned
      ] in
      if state.has_data then guarded else replies state (error_reply no_data)

  unfoldable pub handle_status_command : ClientState → Outcome
  handle_status_command state =
      let shown : ℤ → ℤ = λ v. elim state.status [ done ↦ v | _ ↦ pos 0 ] in
      replies state
        (status_reply state.status (shown state.min_value) (shown state.max_value) state.error)

  -- One round of `handleClient`, for a message that has been received.
  unfoldable pub handle_message : (ℕ → Bool) → ClientState → ℕ → List ℕ → Outcome
  handle_message can_allocate state type payload =
      if type == msg_data
      then handle_data_command can_allocate state payload
      else (if type == msg_start
          then handle_start_command state
          else (if type == msg_status
              then handle_status_command state
              else replies state (error_reply invalid_payload)))

-- The worker, once its search is over; `order` is the order in which the search's threads finish.
-- `none` if it reads out of range, or if no worker runs.
unfoldable pub worker_finishes : ClientState → List ℕ → Option ClientState
worker_finishes state order = elim state.worker [
  | busy job ↦ find_min_max_parallel job.values job.rows job.cols job.num_threads order >>= λ r.
      some (record state {
        min_value = r.min_value;
        max_value = r.max_value;
        status = done;
        error = no_error;
        worker = ended;
      })
  | _ ↦ none
]

-- The worker's `catch`.
unfoldable pub worker_fails : ClientState → Option ClientState
worker_fails state = elim state.worker [
  | busy job ↦ some (record state { status = failed; error = internal; worker = ended })
  | _ ↦ none
]

-- What happens to a client's state while it is connected: a message is handled, or the worker ends.
pub data Step (host : Host) (can_allocate : ℕ → Bool) : ClientState → ClientState → Type 0 where
  handled :
      (state : ClientState) (type : ℕ) (payload : List ℕ) (next : ClientState) (reply : Reply)
      → handle_message host can_allocate state type payload ≡ replies next reply
      → Step host can_allocate state next
  finished :
      (state : ClientState) (order : List ℕ) (next : ClientState)
      → IsJoined (effective_threads state.job.rows state.job.num_threads) order
      → worker_finishes state order ≡ some next
      → Step host can_allocate state next
  fails :
      (state next : ClientState)
      → worker_fails state ≡ some next
      → Step host can_allocate state next
