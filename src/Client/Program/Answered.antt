-- ===== src/Client/Program/Answered.antt =====
-- What `handleClient` sends for DATA, START and STATUS.
use mathlib.Core.List.{append-nil}
use multithreading_labs.Base.{
  ℕ, zero, suc, ◌≤◌, ◌≡◌, ap, ◌∙◌, some, Bool, List, [], ◌∷◌, ◌++◌, ◌>>=◌, arith, length, replicate,
}
use multithreading_labs.Blocks.Slices.{concat}
use multithreading_labs.MinMax.Extrema.{MinMax}
use multithreading_labs.Protocol.{
  Host, Incoming, msg_data, msg_start, msg_status, msg_data_ok, msg_start_ok, max_payload_bytes,
}
use multithreading_labs.Protocol.Streams.{IsOpen}
use multithreading_labs.Protocol.Messages.{wire_message}
use multithreading_labs.Server.{Job, fresh, status_reply, running}
use multithreading_labs.Client.{data_payload}
use multithreading_labs.Client.Session.{loaded, searching, searched}
use multithreading_labs.Client.Polling.{answer_bytes, answers_bytes, questions}
use multithreading_labs.Client.Program.{rows, cols, num_threads}
use multithreading_labs.Client.Program.Result.{messages}
use multithreading_labs.Client.Program.Dialogue.{
  comes, serve, rounds_until, all_rounds, nothing_yet, serve-comes, serve-ends, searching-status,
  Completes,
}

module _ (host : Host) (can_allocate : ℕ → Bool) (job : Job) (order : List ℕ) (r : MinMax)
    (c : Completes host can_allocate job order r) where
  serve-questions :
      (n : ℕ) (pieces : Incoming)
      → IsOpen pieces
      → concat pieces ≡ questions host (suc n)
      → serve host can_allocate (searching fresh job) pieces (rounds_until n order)
        ≡ some (answers_bytes host (replicate n nothing_yet) r)
  unfolding serve status_reply
  serve-questions zero pieces o e =
      let (left, run, others, o') =
        serve-comes host can_allocate (searched fresh job r) (searched fresh job r) msg_status [] _
          pieces [] [] (omega arith) (omega arith) c.shown o e in
      serve-ends host can_allocate job order r pieces c
      ∙ run
      ∙ ap some (append-nil (answers_bytes host [] r))
  serve-questions (suc n) pieces o e =
      let (left, run, others, o') =
        serve-comes host can_allocate (searching fresh job) (searching fresh job) msg_status [] _
          pieces (questions host (suc n)) (rounds_until n order) (omega arith) (omega arith)
          (searching-status host can_allocate job) o e in
      run
      ∙ ap (λ o. o >>= λ bytes. some (answer_bytes host running nothing_yet ++ bytes))
          (serve-questions n left o' others)

  -- DATA and START are acknowledged, STATUS is answered with RUNNING until the worker has ended, and
  -- then with DONE and the extrema.
  pub serve-messages :
      (n : ℕ) (pieces : Incoming)
      → length (data_payload host rows cols num_threads job.values) ≤ max_payload_bytes
      → IsOpen pieces
      → concat pieces ≡ messages host job.values (suc n)
      → serve host can_allocate fresh pieces (all_rounds n order)
        ≡ some (
            wire_message host msg_data_ok []
            ++ (wire_message host msg_start_ok []
                ++ answers_bytes host (replicate n nothing_yet) r))
  serve-messages n pieces fits o e =
      let (left, stored, others, o') =
        serve-comes host can_allocate fresh (loaded fresh job) msg_data _ _ pieces
          (wire_message host msg_start [] ++ questions host (suc n)) (comes ∷ rounds_until n order)
          (omega arith) fits c.stored o e in
      let (left', begun, others', o'') =
        serve-comes host can_allocate (loaded fresh job) (searching fresh job) msg_start [] _ left
          (questions host (suc n)) (rounds_until n order) (omega arith) (omega arith) c.begun o'
          others in
      stored
      ∙ ap (λ o. o >>= λ bytes. some (wire_message host msg_data_ok [] ++ bytes))
          (begun
            ∙ ap (λ o. o >>= λ bytes. some (wire_message host msg_start_ok [] ++ bytes))
                (serve-questions n left' o'' others'))
