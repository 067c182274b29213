-- ===== src/Tests/Talk.antt =====
-- The client's program, from its start to its end.
use mathlib.Core.List.{append_assoc, append-nil}
use multithreading_labs.Base.{
  Bool, true, replicate, ap, sym, ◌∙◌, ℕ, zero, suc, ◌≡◌, refl, ap, some, List, [], ◌∷◌, ◌++◌, ℤ,
  pos, negsuc, arith, length, All,
}
use multithreading_labs.MinMax.Extrema.{MinMax}
use multithreading_labs.Protocol.{msg_data_ok, msg_start_ok, header_bytes}
use multithreading_labs.Blocks.Slices.{concat}
use multithreading_labs.Protocol.Streams.{IsOpen, Sends}
use multithreading_labs.Protocol.Messages.{wire_message}
use multithreading_labs.Client.{shows}
use multithreading_labs.Client.Polling.{answers_bytes}
use multithreading_labs.Client.Program.{Surroundings, Run, polls, run_main}
use multithreading_labs.MinMax.{effective_threads}
use multithreading_labs.MinMax.Sequential.{IsExtremaOf}
use multithreading_labs.Server.{fresh}
use multithreading_labs.Tests.Search.{down_from, down_from-IsJoined}
use multithreading_labs.Client.Program.{generate_matrix}
use multithreading_labs.Client.Program.Dialogue.{
  serve, all_rounds, nothing_yet, Completes, client_job, client_job-Completes,
}
use multithreading_labs.Client.Program.Answered.{serve-messages}
use multithreading_labs.Client.Program.Together.{run_main-serve}
use multithreading_labs.Client.Program.Result.{
  messages, data_payload-size, length-generate_matrix, Connects, run_main-shows,
  run_main-AllReleased,
}
use multithreading_labs.Sockets.{
  starts_sockets, opens_socket, closes_socket, cleans_sockets, AllReleased,
}
use multithreading_labs.Tests.Machine.{x86}

regroup : (xs ys zs : List ℕ) → (xs ++ (ys ++ zs)) ++ [] ≡ xs ++ (ys ++ (zs ++ []))
regroup xs ys zs = append_assoc xs (ys ++ zs) [] ∙ ap (◌++◌ xs) (append_assoc ys zs [])

-- Each call of `send` takes a byte.
unfoldable bytewise : ℕ → List ℤ
bytewise zero = []
bytewise (suc n) = pos 1 ∷ bytewise n

bytewise-Sends : (n : ℕ) → All Sends (bytewise n)
unfolding bytewise
bytewise-Sends zero = tt
bytewise-Sends (suc n) = (omega arith, bytewise-Sends n)

length-bytewise : (n : ℕ) → length (bytewise n) ≡ n
unfolding bytewise
length-bytewise zero = refl
length-bytewise (suc n) = ap suc (length-bytewise n)

abbrev still_zero : MinMax
still_zero = record { min_value = pos 0; max_value = pos 0 }

abbrev extrema : MinMax
extrema = record { min_value = negsuc 4; max_value = pos 9 }

-- The server's answers: DATA_OK, START_OK, RUNNING and DONE.
abbrev stream_of_answers : List ℕ
stream_of_answers =
    wire_message x86 msg_data_ok []
    ++ (wire_message x86 msg_start_ok [] ++ answers_bytes x86 (still_zero ∷ []) extrema)

abbrev met : Surroundings
met = record {
  argc = 1;
  wsa_startup = 0;
  draws = λ i. pos 7;
  socket = some 3;
  inet_pton = pos 1;
  connect = pos 0;
  results = bytewise 50000;
  pieces = stream_of_answers ∷ [];
}

met-Connects : Connects x86 met 3
met-Connects = record {
  no_arguments = omega arith;
  library = refl;
  opened = refl;
  address = refl;
  connected = refl;
}

answers-IsOpen : IsOpen (stream_of_answers ∷ [])
unfolding header_bytes
answers-IsOpen = (omega arith, tt)

-- With such answers the client shows the extrema of the last one.
talk_shown : run_main x86 2 met ≡ record {
  code = some 0;
  talk = some (polls (shows (negsuc 4) (pos 9)));
  wire = messages x86 (generate_matrix (λ i. pos 7) 100 100) 2;
  calls = cleans_sockets ∷ closes_socket 3 ∷ opens_socket 3 ∷ starts_sockets ∷ [];
}
unfolding header_bytes
talk_shown =
    run_main-shows x86 2 met 3 (still_zero ∷ []) extrema [] met-Connects (omega arith)
      (bytewise-Sends 50000) (omega (arith, length-bytewise 50000)) ((omega arith, omega arith), tt)
      (omega arith, omega arith) answers-IsOpen refl

-- The connection is refused.
abbrev refused : Surroundings
refused = record met { connect = negsuc 0 }

run_main-AllReleased_example : AllReleased (run_main x86 2 refused).calls
unfolding run_main
run_main-AllReleased_example = run_main-AllReleased x86 2 refused 1 refl

-- The four threads of the server's search, and one STATUS while it goes on.
abbrev by_four : List ℕ
by_four = down_from (effective_threads 100 4)

abbrev everything_fits : ℕ → Bool
everything_fits n = true

served :
    (r : MinMax) × Completes x86 everything_fits
      (client_job x86 everything_fits (λ i. pos 7))
      by_four
      r
served =
    client_job-Completes x86 everything_fits (λ i. pos 7) by_four (λ i. omega arith) refl
      (down_from-IsJoined (effective_threads 100 4))

abbrev served_bytes : List ℕ
served_bytes =
    wire_message x86 msg_data_ok []
    ++ (wire_message x86 msg_start_ok [] ++ answers_bytes x86 (replicate 1 nothing_yet) served.0)

abbrev at_server : Surroundings
at_server = record met { pieces = served_bytes ∷ [] }

at_server-Connects : Connects x86 at_server 3
at_server-Connects = record {
  no_arguments = omega arith;
  library = refl;
  opened = refl;
  address = refl;
  connected = refl;
}

served_bytes-IsOpen : IsOpen (served_bytes ∷ [])
unfolding header_bytes
served_bytes-IsOpen = (omega arith, tt)

abbrev asked_bytes : List ℕ
asked_bytes = messages x86 (generate_matrix (λ i. pos 7) 100 100) 2

asked_bytes-IsOpen : IsOpen (asked_bytes ∷ [])
unfolding header_bytes
asked_bytes-IsOpen = (omega arith, tt)

-- What the client sends when it gets the server's answers.
asked : concat (asked_bytes ∷ []) ≡ (run_main x86 2 at_server).wire
asked =
    append-nil asked_bytes
    ∙ sym (
        ap (λ (r : Run). r.wire)
          (run_main-shows x86 2 at_server 3 (replicate 1 nothing_yet) served.0 [] at_server-Connects
            (omega arith) (bytewise-Sends 50000) (omega (arith, length-bytewise 50000))
            ((omega arith, omega arith), tt) served.1.fits served_bytes-IsOpen
            (append-nil served_bytes
              ∙ sym (append-nil served_bytes)
              ∙ regroup (wire_message x86 msg_data_ok []) (wire_message x86 msg_start_ok [])
                  (answers_bytes x86 (replicate 1 nothing_yet) served.0))))

-- What the server sends when it gets the client's messages.
served_messages :
    serve x86 everything_fits fresh (asked_bytes ∷ []) (all_rounds 1 by_four)
    ≡ some (concat (served_bytes ∷ []))
served_messages =
    let values = generate_matrix (λ i. pos 7) 100 100 in
    serve-messages x86 everything_fits (client_job x86 everything_fits (λ i. pos 7)) by_four
      served.0 served.1 1 (asked_bytes ∷ [])
      (omega (arith, data_payload-size x86 values (length-generate_matrix (λ i. pos 7))))
      asked_bytes-IsOpen (append-nil asked_bytes)
    ∙ ap some (sym (append-nil served_bytes))

run_main-serve_example :
    (r : MinMax) × IsExtremaOf (generate_matrix (λ i. pos 7) 100 100) r
    × (run_main x86 2 at_server ≡ record {
      code = some 0;
      talk = some (polls (shows r.min_value r.max_value));
      wire = messages x86 (generate_matrix (λ i. pos 7) 100 100) 2;
      calls = cleans_sockets ∷ closes_socket 3 ∷ opens_socket 3 ∷ starts_sockets ∷ [];
    })
run_main-serve_example =
    run_main-serve x86 everything_fits 2 at_server 3 1 by_four (asked_bytes ∷ []) at_server-Connects
      (λ i. omega arith) refl (down_from-IsJoined (effective_threads 100 4)) (omega arith)
      (bytewise-Sends 50000) (omega (arith, length-bytewise 50000)) served_bytes-IsOpen
      asked_bytes-IsOpen asked served_messages
