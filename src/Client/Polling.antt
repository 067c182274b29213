-- ===== src/Client/Polling.antt =====
-- The client's loop that asks for the status until the search is over.
use mathlib.Core.List.{append_assoc}
use multithreading_labs.Base.{
  ap, ℕ, zero, suc, ◌+◌, ◌*◌, ◌≡◌, ◌≤◌, ◌<◌, refl, ◌∙◌, some, true, List, [], ◌∷◌, ◌++◌, ℤ, arith,
  length, All,
}
use multithreading_labs.Blocks.Slices.{concat}
use multithreading_labs.MinMax.Extrema.{MinMax}
use multithreading_labs.Protocol.{Host, Incoming, send_message, msg_status, msg_status_resp}
use multithreading_labs.Protocol.Words.{IsInt32}
use multithreading_labs.Protocol.Streams.{IsOpen, Sends}
use multithreading_labs.Protocol.Messages.{
  wire_message, recv_message-wire_message, send_message-wire_message,
}
use multithreading_labs.Server.{StatusCode, running, done, no_error, status_reply}
use multithreading_labs.Client.Report.{read_status-status_reply, status_reply-length}
use multithreading_labs.Client.{poll, behind, shows, judge, recv_expected}

module _ (host : Host) where
  -- STATUS, some times, as it travels.
  abbrev pub questions : ℕ → List ℕ
  questions zero = []
  questions (suc n) = wire_message host msg_status [] ++ questions n

  -- STATUS has no payload.
  pub ask :
      (results : List ℤ)
      → All Sends results
      → 12 ≤ length results
      → (left : List ℤ) × (send_message host results msg_status [] 0
          ≡ some (record { ok = true; wire = wire_message host msg_status []; results = left }))
        × All Sends left
        × (length results ≤ length left + 12)
  ask results s enough =
      send_message-wire_message host msg_status [] (omega arith) (omega arith) results s
        (omega (arith, enough))

  -- The answer to STATUS, as it travels.
  abbrev pub answer_bytes : StatusCode → MinMax → List ℕ
  answer_bytes status r =
      wire_message host msg_status_resp
        (status_reply host status r.min_value r.max_value no_error).payload

  pub hear :
      (status : StatusCode) (r : MinMax) (pieces : Incoming) (rest : List ℕ)
      → IsInt32 r.min_value
      → IsInt32 r.max_value
      → IsOpen pieces
      → concat pieces ≡ answer_bytes status r ++ rest
      → (left : Incoming) × (recv_expected host pieces msg_status_resp
          ≡ some ((status_reply host status r.min_value r.max_value no_error).payload, left))
        × (concat left ≡ rest)
        × IsOpen left
  unfolding recv_expected
  hear status r pieces rest min_fits max_fits o e =
      let payload = (status_reply host status r.min_value r.max_value no_error).payload in
      let sixteen = status_reply-length host status r no_error min_fits max_fits in
      let (left, run, done_, o') =
        recv_message-wire_message host msg_status_resp payload (omega arith)
          (omega (arith, sixteen)) pieces rest o e in
      (left, rw run refl, done_, o')

  -- The server's answers: RUNNING some times, with whatever extrema it has then, and at last DONE.
  abbrev pub answers_bytes : List MinMax → MinMax → List ℕ
  answers_bytes [] r = answer_bytes done r
  answers_bytes (old ∷ olds) r = answer_bytes running old ++ answers_bytes olds r

  abbrev pub Fits : MinMax → Type 0
  Fits r = IsInt32 r.min_value × IsInt32 r.max_value

  -- While the calls of `send` make progress, and whatever pieces the network cuts the answers
  -- into: when the server answers RUNNING some times and then DONE, all with 32-bit extrema, the
  -- loop shows the extrema of the last answer, if it is given more rounds than there were answers
  -- RUNNING; it has then sent STATUS once for each answer.
  pub poll-shows :
      (olds : List MinMax) (r : MinMax) (rest : List ℕ) (rounds : ℕ) (results : List ℤ)
      (pieces : Incoming)
      → length olds < rounds
      → All Sends results
      → 12 * rounds ≤ length results
      → All Fits olds
      → Fits r
      → IsOpen pieces
      → concat pieces ≡ answers_bytes olds r ++ rest
      → poll host rounds results pieces
        ≡ (shows r.min_value r.max_value, questions (suc (length olds)))
  unfolding poll judge
  poll-shows olds r rest zero results pieces few s enough fits fit o e = absurd (omega arith)
  poll-shows [] r rest (suc rounds) results pieces few s enough fits fit o e =
      let (left, sent, s', more) = ask results s (omega (arith, enough)) in
      let (after, heard, others, o') = hear done r pieces rest fit.0 fit.1 o e in
      let read = read_status-status_reply host done r no_error fit.0 fit.1 in
      rw (poll, sent, heard, read) refl
  poll-shows (old ∷ olds) r rest (suc rounds) results pieces few s enough fits fit o e =
      let (left, sent, s', more) = ask results s (omega (arith, enough)) in
      let (after, heard, others, o') =
        hear running old pieces (answers_bytes olds r ++ rest) fits.0.0 fits.0.1 o
          (e ∙ append_assoc (answer_bytes running old) (answers_bytes olds r) rest) in
      let read = read_status-status_reply host running old no_error fits.0.0 fits.0.1 in
      rw (poll, sent, heard, read)
        (ap (behind (wire_message host msg_status [])) (
          poll-shows olds r rest rounds left after (omega (arith, few)) s'
            (omega (arith, enough, more)) fits.1 fit o' others))
