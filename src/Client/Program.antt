-- ===== src/Client/Program.antt =====
-- `main` of lab_4/cpp/src/client.cpp: the random matrix, the connection, the conversation and its end.
pub mod Result
pub mod Dialogue
pub mod Answered
pub mod Asking
pub mod Together
use multithreading_labs.Base.{
  ℕ, zero, suc, ◌+◌, ◌*◌, ◌%◌, ◌^◌, ◌≤◌, ◌≡◌, refl, Option, none, some, Bool, true, false, not,
  List, [], ◌∷◌, ◌++◌, ◌>>=◌, ℤ, pos, negsuc, ◌==◌, ◌==ℤ◌, ltb_ℤ, leb, if◌then◌else◌, length,
  mul_size,
}
use multithreading_labs.Random.{draw_values}
use multithreading_labs.Protocol.{
  Host, Incoming, Sent, send_message, msg_data, msg_data_ok, msg_start, msg_start_ok,
}
use multithreading_labs.Client.{
  Ending, gives_up, asks_on, waits, shows, blames, data_payload, recv_expected, poll, behind,
}
use multithreading_labs.Sockets.{
  SocketCall, starts_sockets, opens_socket, closes_socket, cleans_sockets, socket_error,
}

unfoldable pub generate_matrix : (ℕ → ℤ) → ℕ → ℕ → List ℤ
unfolding draw_values
generate_matrix draws rows cols = draw_values draws 0 (mul_size rows cols)

abbrev pub rows : ℕ
rows = 100

abbrev pub cols : ℕ
cols = 100

abbrev pub num_threads : ℕ
num_threads = 4

-- What the program meets: the number of arguments, the answers of the socket library (`none` is
-- `INVALID_SOCKET`), the random values, what the calls of `send` return and what `recv` delivers.
pub record Surroundings : Type 0 where
  pub argc : ℕ
  pub wsa_startup : ℕ
  pub draws : ℕ → ℤ
  pub socket : Option ℕ
  pub inet_pton : ℤ
  pub connect : ℤ
  pub results : List ℤ
  pub pieces : Incoming

-- How the conversation ends: with a step before the loop that fails, or as the loop does.
pub data Talk : Type 0 where
  stalls : Talk
  breaks_off : Talk
  polls : Ending → Talk

-- What `main` has done: its result, if it has returned; how the conversation went, if there was one;
-- the bytes that it has sent; the calls of the socket library that succeeded, the newest first.
pub record Run : Type 0 where
  pub code : Option ℕ
  pub talk : Option Talk
  pub wire : List ℕ
  pub calls : List SocketCall

-- The result of `main` after the conversation; `none` if it goes on.
unfoldable pub code_of : Talk → Option ℕ
code_of stalls = none
code_of breaks_off = some 1
code_of (polls gives_up) = some 0
code_of (polls asks_on) = none
code_of (polls waits) = none
code_of (polls (shows min_value max_value)) = some 0
code_of (polls (blames error)) = some 0

module _ (host : Host) where
  -- From START on, for a number of rounds of the loop: how it ends, and the bytes that are sent.
  unfoldable pub talk_on : ℕ → List ℤ → Incoming → Talk × List ℕ
  unfolding recv_expected poll
  talk_on rounds results pieces = elim (send_message host results msg_start [] 0) [
    | none ↦ (stalls, [])
    | some sent ↦ behind sent.wire (elim sent.ok [
      | false ↦ (breaks_off, [])
      | true ↦ elim (recv_expected host pieces msg_start_ok) [
        | none ↦ (breaks_off, [])
        | some received ↦
            let (ending, wire) = poll host rounds sent.results received.1 in (polls ending, wire)
      ]
    ])
  ]

  -- From DATA on.
  unfoldable pub talk : ℕ → List ℤ → List ℤ → Incoming → Talk × List ℕ
  unfolding talk_on data_payload recv_expected
  talk rounds matrix results pieces =
      let payload = data_payload host rows cols num_threads matrix in
      elim (send_message host results msg_data payload (length payload % 2 ^ 32)) [
        | none ↦ (stalls, [])
        | some sent ↦ behind sent.wire (elim sent.ok [
          | false ↦ (breaks_off, [])
          | true ↦ elim (recv_expected host pieces msg_data_ok) [
            | none ↦ (breaks_off, [])
            | some received ↦ talk_on rounds sent.results received.1
          ]
        ])
      ]

  -- `closeSocket(sockFd); WSACleanup();` where `main` returns.
  unfoldable pub end_talk : Talk → List ℕ → List SocketCall → ℕ → Run
  unfolding code_of
  end_talk t wire calls fd = record {
    code = code_of t;
    talk = some t;
    wire = wire;
    calls = elim (code_of t) [
      | none ↦ calls
      | some code ↦ cleans_sockets ∷ closes_socket fd ∷ calls
    ];
  }

  unfoldable pub run_main : ℕ → Surroundings → Run
  unfolding talk end_talk generate_matrix
  run_main rounds s =
      let started = starts_sockets ∷ [] in
      if not (leb s.argc 1)
      then record { code = some 1; talk = none; wire = []; calls = [] }
      else if rows == 0
      then record { code = some 1; talk = none; wire = []; calls = [] }
      else if cols == 0
      then record { code = some 1; talk = none; wire = []; calls = [] }
      else if not (s.wsa_startup == 0)
      then record { code = some 1; talk = none; wire = []; calls = [] }
      else elim s.socket [
        | none ↦ record { code = some 1; talk = none; wire = []; calls = cleans_sockets ∷ started }
        | some fd ↦
            let opened = opens_socket fd ∷ started in
            let failed : Run = record {
              code = some 1;
              talk = none;
              wire = [];
              calls = cleans_sockets ∷ closes_socket fd ∷ opened;
            } in
            let matrix = generate_matrix s.draws rows cols in
            let (t, wire) = talk rounds matrix s.results s.pieces in
            let talked = end_talk t wire opened fd in
            if ltb_ℤ s.inet_pton (pos 1)
            then failed
            else if s.connect ==ℤ socket_error
            then failed
            else talked
      ]
