-- ===== src/Client/Program/Dialogue.antt =====
-- The loop of `handleClient` on the bytes that it receives, and what it makes of the messages of a
-- client with a matrix.
use multithreading_labs.Base.{
  >>=-eq-some, ◌^◌, ℕ, zero, suc, ◌≤◌, ◌<◌, ◌≡◌, refl, sym, ap, ◌∙◌, Option, none, some, Bool, true,
  List, [], ◌∷◌, ◌++◌, ◌>>=◌, eq_of_some, arith, ℤ, pos, length, All,
}
use multithreading_labs.Blocks.Slices.{concat}
use multithreading_labs.Fork.{IsJoined}
use multithreading_labs.MinMax.{effective_threads}
use multithreading_labs.MinMax.Extrema.{MinMax}
use multithreading_labs.MinMax.Sequential.{IsExtremaOf}
use multithreading_labs.Protocol.{
  recv_message, max_payload_bytes, Incoming, Host, msg_data, msg_start, msg_status, msg_data_ok,
  msg_start_ok,
}
use multithreading_labs.Protocol.Words.{IsInt32}
use multithreading_labs.Protocol.Streams.{IsOpen}
use multithreading_labs.Protocol.Messages.{wire_message, recv_message-wire_message}
use multithreading_labs.Random.{All-draw_values}
use multithreading_labs.Server.{
  Job, ClientState, Reply, Outcome, replies, fresh, handle_message, worker_finishes, status_reply,
  running, done, no_error,
}
use multithreading_labs.Server
use multithreading_labs.Server.Payload.{HasMatrix}
use multithreading_labs.Server.Service.{connected}
use multithreading_labs.Client.{data_payload}
use multithreading_labs.Client.Session.{
  acknowledges, loaded, searching, searched, whole_session, Range-All,
}
use multithreading_labs.Client.Polling.{Fits}
use multithreading_labs.Client.Program.{generate_matrix, rows, cols, num_threads}
use multithreading_labs.Client.Program.Result.{length-generate_matrix}

-- What happens in a client's thread on the server: a round of its loop, for the next message, or the
-- worker ends, whose threads finish in an order.
pub data Happening : Type 0 where
  comes : Happening
  worker_ends : (order : List ℕ) → Happening

-- `n` rounds, the end of the worker and a last round; two rounds come before.
abbrev pub rounds_until : ℕ → List ℕ → List Happening
rounds_until zero order = worker_ends order ∷ comes ∷ []
rounds_until (suc n) order = comes ∷ rounds_until n order

abbrev pub all_rounds : ℕ → List ℕ → List Happening
all_rounds n order = comes ∷ comes ∷ rounds_until n order

abbrev pub nothing_yet : MinMax
nothing_yet = record { min_value = pos 0; max_value = pos 0 }

module _ (host : Host) (can_allocate : ℕ → Bool) where
  -- The answer to a message is sent.
  unfoldable pub send_reply : Outcome → (ClientState → Option (List ℕ)) → Option (List ℕ)
  send_reply (replies next reply) later =
      later next >>= λ bytes. some (wire_message host reply.type reply.payload ++ bytes)
  send_reply other later = none

  -- The loop of `handleClient` on the bytes that it receives: the bytes that it sends. The loop is
  -- left when no message can be read.
  unfoldable pub serve : ClientState → Incoming → List Happening → Option (List ℕ)
  unfolding send_reply
  serve state pieces [] = some []
  serve state pieces (comes ∷ happenings) = elim (recv_message host pieces) [
    | none ↦ some []
    | some received ↦
        let (header, payload, rest) = received in
        send_reply (handle_message host can_allocate state header.type payload)
          (λ next. serve next rest happenings)
  ]
  serve state pieces (worker_ends order ∷ happenings) =
      worker_finishes state order >>= λ next. serve next pieces happenings

  -- A round in which a message is answered.
  pub serve-comes :
      (state next : ClientState) (type : ℕ) (payload : List ℕ) (reply : Reply) (pieces : Incoming)
      (rest : List ℕ) (happenings : List Happening)
      → type < 2 ^ 16
      → length payload ≤ max_payload_bytes
      → handle_message host can_allocate state type payload ≡ replies next reply
      → IsOpen pieces
      → concat pieces ≡ wire_message host type payload ++ rest
      → (left : Incoming) × (serve state pieces (comes ∷ happenings) ≡ (
          serve next left happenings >>= λ bytes.
          some (wire_message host reply.type reply.payload ++ bytes)))
        × (concat left ≡ rest)
        × IsOpen left
  unfolding serve send_reply
  serve-comes state next type payload reply pieces rest happenings known fits e o heard =
      let (left, run, others, o') =
        recv_message-wire_message host type payload known fits pieces rest o heard in
      (left, rw (serve, run, e) refl, others, o')

  -- Where the answers are known, the first of them is the one to that message.
  pub serve-heard :
      (state next : ClientState) (type : ℕ) (payload : List ℕ) (reply : Reply) (pieces : Incoming)
      (rest : List ℕ) (happenings : List Happening) (all : List ℕ)
      → type < 2 ^ 16
      → length payload ≤ max_payload_bytes
      → handle_message host can_allocate state type payload ≡ replies next reply
      → IsOpen pieces
      → concat pieces ≡ wire_message host type payload ++ rest
      → serve state pieces (comes ∷ happenings) ≡ some all
      → (left : Incoming) × (bytes : List ℕ) × (serve next left happenings ≡ some bytes)
        × (all ≡ wire_message host reply.type reply.payload ++ bytes)
        × (concat left ≡ rest)
        × IsOpen left
  serve-heard state next type payload reply pieces rest happenings all known fits e o heard run =
      let (left, same, others, o') =
        serve-comes state next type payload reply pieces rest happenings known fits e o heard in
      let (bytes, later, front) =
        >>=-eq-some (serve next left happenings)
          (λ bytes. some (wire_message host reply.type reply.payload ++ bytes)) (sym same ∙ run) in
      (left, bytes, later, sym (eq_of_some _ _ front), others, o')

  abbrev pub client_job : (ℕ → ℤ) → Job
  client_job draws = record {
    rows = rows;
    cols = cols;
    num_threads = num_threads;
    values = generate_matrix draws rows cols;
  }

  client_job-HasMatrix : (draws : ℕ → ℤ) → HasMatrix (client_job draws)
  client_job-HasMatrix draws = record {
    has_row = omega arith;
    has_col = omega arith;
    area = length-generate_matrix draws ∙ omega arith;
    fits = omega (arith, length-generate_matrix draws);
  }

  generate_matrix-IsInt32 :
      (draws : ℕ → ℤ)
      → ((i : ℕ) → IsInt32 (draws i))
      → All IsInt32 (generate_matrix draws rows cols)
  unfolding generate_matrix
  generate_matrix-IsInt32 draws h = All-draw_values IsInt32 draws 0 10000 h

  quiet : ¬ (fresh.status ≡ running)
  unfolding fresh
  quiet e = cc

  -- What each message of a session is answered with, for a matrix with these extrema.
  pub record Completes (job : Job) (order : List ℕ) (r : MinMax) : Type 0 where
    pub extrema : IsExtremaOf job.values r
    pub fits : Fits host r
    pub stored :
        handle_message host can_allocate fresh msg_data
          (data_payload host rows cols num_threads job.values)
        ≡ acknowledges (loaded fresh job) msg_data_ok
    pub begun :
        handle_message host can_allocate (loaded fresh job) msg_start []
        ≡ acknowledges (searching fresh job) msg_start_ok
    pub ended : worker_finishes (searching fresh job) order ≡ some (searched fresh job r)
    pub shown :
        handle_message host can_allocate (searched fresh job r) msg_status []
        ≡ replies (searched fresh job r) (status_reply host done r.min_value r.max_value no_error)

  pub client_job-Completes :
      (draws : ℕ → ℤ) (order : List ℕ)
      → ((i : ℕ) → IsInt32 (draws i))
      → can_allocate 10000 ≡ true
      → IsJoined (effective_threads rows num_threads) order
      → (r : MinMax) × Completes (client_job draws) order r
  client_job-Completes draws order fit allocated joined =
      let job = client_job draws in
      let values_fit = generate_matrix-IsInt32 draws fit in
      let size = length-generate_matrix draws in
      let (r, extrema, stored, begun, ended, shown, read) =
        whole_session host can_allocate job (client_job-HasMatrix draws) (omega arith) (omega arith)
          (omega arith) values_fit (omega (arith, size)) (ap can_allocate size ∙ allocated) fresh
          connected quiet order joined in
      (
        r,
        record {
          extrema = extrema;
          fits = (
            Range-All IsInt32 job.values _ _ r.min_value values_fit extrema.min_in,
            Range-All IsInt32 job.values _ _ r.max_value values_fit extrema.max_in,
          );
          stored = stored;
          begun = begun;
          ended = ended;
          shown = shown;
        },
      )

  -- While the search goes on, STATUS is answered with RUNNING.
  pub searching-status :
      (job : Job)
      → handle_message host can_allocate (searching fresh job) msg_status []
        ≡ replies (searching fresh job) (status_reply host running (pos 0) (pos 0) no_error)
  unfolding handle_message Server.handle_status_command
  searching-status job = refl

  -- The worker ends.
  pub serve-ends :
      (job : Job) (order : List ℕ) (r : MinMax) (pieces : Incoming)
      → Completes job order r
      → serve (searching fresh job) pieces (worker_ends order ∷ comes ∷ [])
        ≡ serve (searched fresh job r) pieces (comes ∷ [])
  unfolding serve
  serve-ends job order r pieces c = rw (serve, c.ended) refl
