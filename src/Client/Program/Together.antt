-- ===== src/Client/Program/Together.antt =====
-- The client's program and the loop of `handleClient`, together: each gets the bytes that the other
-- sends.
use mathlib.Core.List.{append_cancel_left}
use multithreading_labs.Base.{
  ℕ, suc, ◌+◌, ◌*◌, ◌≤◌, ◌<◌, ◌≡◌, refl, sym, ap, ◌∙◌, some, true, Bool, List, [], ◌∷◌, ◌++◌, ◌%◌,
  ◌^◌, arith, ℤ, length, All,
}
use multithreading_labs.Blocks.Slices.{concat}
use multithreading_labs.Fork.{IsJoined}
use multithreading_labs.MinMax.{effective_threads}
use multithreading_labs.MinMax.Extrema.{MinMax}
use multithreading_labs.MinMax.Sequential.{IsExtremaOf}
use multithreading_labs.Protocol.{
  Host, Incoming, msg_data, msg_start, msg_data_ok, msg_start_ok, send_message,
}
use multithreading_labs.Protocol.Words.{IsInt32}
use multithreading_labs.Protocol.Streams.{IsOpen, Sends}
use multithreading_labs.Protocol.Messages.{wire_message, send_message-wire_message}
use multithreading_labs.Server.{Job, fresh}
use multithreading_labs.Client.{Ending, recv_expected, poll, shows, behind, data_payload}
use multithreading_labs.Client.Session.{loaded, searching}
use multithreading_labs.Client.Polling.{questions}
use multithreading_labs.Client.Program.{
  generate_matrix, rows, cols, num_threads, Surroundings, Talk, Run, polls, talk_on, talk, end_talk,
  code_of, run_main,
}
use multithreading_labs.Client.Program.Result.{
  Connects, messages, acknowledged, run_main-end_talk, data_payload-size, length-generate_matrix,
}
use multithreading_labs.Client.Program.Dialogue.{
  comes, serve, rounds_until, all_rounds, serve-heard, Completes, client_job, client_job-Completes,
}
use multithreading_labs.Sockets.{starts_sockets, opens_socket, closes_socket, cleans_sockets}
use multithreading_labs.Client.Program.Asking.{rest_behind, behind-front, poll-serve}

-- The two messages before the loop, on their answers.
module _ (host : Host) (rounds : ℕ) (results left : List ℤ) (answers : Incoming) where
  talk_on-asks :
      send_message host results msg_start [] 0
        ≡ some (record { ok = true; wire = wire_message host msg_start []; results = left })
      → (talk_on host rounds results answers).1
        ≡ wire_message host msg_start []
          ++ rest_behind host msg_start [] (talk_on host rounds results answers).1
  unfolding talk_on
  talk_on-asks sent = rw (talk_on, sent) (behind-front host msg_start [] _)

  talk_on-goes_on :
      (after : Incoming)
      → send_message host results msg_start [] 0
        ≡ some (record { ok = true; wire = wire_message host msg_start []; results = left })
      → recv_expected host answers msg_start_ok ≡ some ([], after)
      → talk_on host rounds results answers
        ≡ behind
            (wire_message host msg_start [])
            (polls (poll host rounds left after).0, (poll host rounds left after).1)
  unfolding talk_on
  talk_on-goes_on after sent heard = rw (talk_on, sent, heard) refl

  module _ (matrix : List ℤ) where
    abbrev payload : List ℕ
    payload = data_payload host rows cols num_threads matrix

    talk-asks :
        send_message host results msg_data payload (length payload % 2 ^ 32)
          ≡ some (record { ok = true; wire = wire_message host msg_data payload; results = left })
        → (talk host rounds matrix results answers).1
          ≡ wire_message host msg_data payload
            ++ rest_behind host msg_data payload (talk host rounds matrix results answers).1
    unfolding talk
    talk-asks sent = rw (talk, sent) (behind-front host msg_data payload _)

    talk-goes_on :
        (after : Incoming)
        → send_message host results msg_data payload (length payload % 2 ^ 32)
          ≡ some (record { ok = true; wire = wire_message host msg_data payload; results = left })
        → recv_expected host answers msg_data_ok ≡ some ([], after)
        → talk host rounds matrix results answers
          ≡ behind (wire_message host msg_data payload) (talk_on host rounds left after)
    unfolding talk
    talk-goes_on after sent heard = rw (talk, sent, heard) refl

module _ (host : Host) (can_allocate : ℕ → Bool) (job : Job) (order : List ℕ) (r : MinMax)
    (c : Completes host can_allocate job order r) where
  talk_on-serve :
      (n rounds : ℕ) (results : List ℤ) (answers asked : Incoming)
      → n < rounds
      → All Sends results
      → 12 + 12 * rounds ≤ length results
      → IsOpen answers
      → IsOpen asked
      → concat asked ≡ (talk_on host rounds results answers).1
      → serve host can_allocate (loaded fresh job) asked (comes ∷ rounds_until n order)
        ≡ some (concat answers)
      → talk_on host rounds results answers ≡ (
        polls (shows r.min_value r.max_value),
        wire_message host msg_start [] ++ questions host (suc n),
      )
  talk_on-serve n rounds results answers asked few s enough o o' e run =
      let start = wire_message host msg_start [] in
      let (left, sent, s', more) =
        send_message-wire_message host msg_start [] (omega arith) (omega arith) results s
          (omega (arith, enough)) in
      let first = talk_on-asks host rounds results left answers sent in
      let more_bytes = rest_behind host msg_start [] (talk_on host rounds results answers).1 in
      let (left', bytes, later, front, others, o'') =
        serve-heard host can_allocate (loaded fresh job) (searching fresh job) msg_start [] _ asked
          more_bytes (rounds_until n order) (concat answers) (omega arith) (omega arith) c.begun o'
          (e ∙ first) run in
      let (after, heard, rest, o3) =
        acknowledged host msg_start_ok answers bytes (omega arith) o front in
      let next = talk_on-goes_on host rounds results left answers after sent heard in
      let same =
        append_cancel_left start more_bytes (poll host rounds left after).1
          (sym first ∙ ap (λ p. p.1) next) in
      next
      ∙ ap (λ (p : Ending × List ℕ). behind start (polls p.0, p.1))
          (poll-serve host can_allocate job order r c n rounds left after left' few s'
            (omega (arith, enough, more)) o3 o'' (others ∙ same) (later ∙ ap some (sym rest)))

  talk-serve :
      (n rounds : ℕ) (results : List ℤ) (answers asked : Incoming)
      → length job.values ≡ 10000
      → n < rounds
      → All Sends results
      → 40036 + 12 * rounds ≤ length results
      → IsOpen answers
      → IsOpen asked
      → concat asked ≡ (talk host rounds job.values results answers).1
      → serve host can_allocate fresh asked (all_rounds n order) ≡ some (concat answers)
      → talk host rounds job.values results answers
        ≡ (polls (shows r.min_value r.max_value), messages host job.values (suc n))
  talk-serve n rounds results answers asked size few s enough o o' e run =
      let payload = data_payload host rows cols num_threads job.values in
      let bytes_ = data_payload-size host job.values size in
      let cast : length payload % 2 ^ 32 ≡ length payload = rw bytes_ refl in
      let (left, sent', s', more) =
        send_message-wire_message host msg_data payload (omega arith) (omega (arith, bytes_))
          results s (omega (arith, enough, bytes_)) in
      let sent = ap (λ (n : ℕ). send_message host results msg_data payload n) cast ∙ sent' in
      let first = talk-asks host rounds results left answers job.values sent in
      let more_bytes =
        rest_behind host msg_data payload (talk host rounds job.values results answers).1 in
      let (left', bytes, later, front, others, o'') =
        serve-heard host can_allocate fresh (loaded fresh job) msg_data payload _ asked more_bytes
          (comes ∷ rounds_until n order) (concat answers) (omega arith) (omega (arith, bytes_))
          c.stored o' (e ∙ first) run in
      let (after, heard, rest, o3) =
        acknowledged host msg_data_ok answers bytes (omega arith) o front in
      let next = talk-goes_on host rounds results left answers job.values after sent heard in
      let same =
        append_cancel_left (wire_message host msg_data payload) more_bytes
          (talk_on host rounds left after).1 (sym first ∙ ap (λ p. p.1) next) in
      next
      ∙ ap (behind (wire_message host msg_data payload)) (
          talk_on-serve n rounds left after left' few s' (omega (arith, enough, more, bytes_)) o3
            o'' (others ∙ same) (later ∙ ap some (sym rest)))

-- The client and the server together, each of which gets the bytes that the other sends, however the
-- network cuts them into pieces. The client is called without arguments and reaches the server, its
-- calls of `send` make progress, and there are enough of them; its random values are 32-bit integers,
-- the server can allocate the matrix, and its loop goes through two rounds, `n` rounds while the
-- search goes on, and one when it is over, in whatever order its threads finish. If the client is
-- given more rounds than `n`, then its `main` sends DATA with its matrix, START, and STATUS `n + 1`
-- times, shows the least and the greatest value of its matrix, gives everything back and returns 0.
pub run_main-serve :
    (host : Host) (can_allocate : ℕ → Bool) (rounds : ℕ) (s : Surroundings) (fd n : ℕ)
    (order : List ℕ) (asked : Incoming)
    → Connects host s fd
    → ((i : ℕ) → IsInt32 (s.draws i))
    → can_allocate 10000 ≡ true
    → IsJoined (effective_threads rows num_threads) order
    → n < rounds
    → All Sends s.results
    → 40036 + 12 * rounds ≤ length s.results
    → IsOpen s.pieces
    → IsOpen asked
    → concat asked ≡ (run_main host rounds s).wire
    → serve host can_allocate fresh asked (all_rounds n order) ≡ some (concat s.pieces)
    → (r : MinMax) × IsExtremaOf (generate_matrix s.draws rows cols) r
      × (run_main host rounds s ≡ record {
        code = some 0;
        talk = some (polls (shows r.min_value r.max_value));
        wire = messages host (generate_matrix s.draws rows cols) (suc n);
        calls = cleans_sockets ∷ closes_socket fd ∷ opens_socket fd ∷ starts_sockets ∷ [];
      })
unfolding end_talk code_of
run_main-serve host can_allocate rounds s fd n order asked c fit allocated joined few sends enough o
      o' e run =
    let (r, completes) =
      client_job-Completes host can_allocate s.draws order fit allocated joined in
    let same = run_main-end_talk host rounds s fd c in
    let talked =
      talk-serve host can_allocate (client_job host can_allocate s.draws) order r completes n rounds
        s.results s.pieces asked (length-generate_matrix s.draws) few sends enough o o'
        (e ∙ ap (λ (r : Run). r.wire) same) run in
    (
      r,
      completes.extrema,
      same
          ∙ ap
              (λ (p : Talk × List ℕ).
                end_talk host p.0 p.1 (opens_socket fd ∷ starts_sockets ∷ []) fd)
              talked,
    )
