-- ===== src/Client/Program/Result.antt =====
-- What `main` of the client shows, and what it leaves behind.
use multithreading_labs.Base.{
  suc, ℕ, ◌+◌, ◌*◌, ◌%◌, ◌^◌, ◌≤◌, ◌<◌, ◌≡◌, refl, sym, ap, subst, ◌∙◌, inl, inr, some, true, false,
  List, [], ◌∷◌, ◌++◌, ℤ, pos, ◌==◌, ◌==ℤ◌, ltb_ℤ, leb, arith, length, All, Bool-cases,
  Option-cases, leb→le,
}
use multithreading_labs.Blocks.Slices.{concat}
use multithreading_labs.MinMax.Extrema.{MinMax}
use multithreading_labs.Random.{length-draw_values}
use multithreading_labs.Protocol.{Host, Incoming, msg_data, msg_data_ok, msg_start, msg_start_ok}
use multithreading_labs.Protocol.Streams.{IsOpen, Sends}
use multithreading_labs.Protocol.Messages.{
  wire_message, recv_message-wire_message, send_message-wire_message,
}
use multithreading_labs.Client.{shows, data_payload, recv_expected}
use multithreading_labs.Client.Upload.{length-data_payload}
use multithreading_labs.Client.Polling.{answers_bytes, questions, Fits, poll-shows}
use multithreading_labs.Client.Program.{
  generate_matrix, rows, cols, num_threads, Surroundings, Talk, polls, Run, code_of, talk_on, talk,
  end_talk, run_main,
}
use multithreading_labs.Sockets.{
  starts_sockets, opens_socket, closes_socket, cleans_sockets, socket_error, AllReleased,
  released-again,
}

pub length-generate_matrix : (draws : ℕ → ℤ) → length (generate_matrix draws rows cols) ≡ 10000
unfolding generate_matrix
length-generate_matrix draws = length-draw_values draws 0 10000

module _ (host : Host) where
  -- An answer without payload.
  pub acknowledged :
      (type : ℕ) (pieces : Incoming) (rest : List ℕ)
      → type < 2 ^ 16
      → IsOpen pieces
      → concat pieces ≡ wire_message host type [] ++ rest
      → (left : Incoming) × (recv_expected host pieces type ≡ some ([], left))
        × (concat left ≡ rest)
        × IsOpen left
  unfolding recv_expected
  acknowledged type pieces rest known o e =
      let (left, run, others, o') =
        recv_message-wire_message host type [] known (omega arith) pieces rest o e in
      let same : (type == type) ≡ true = ground arith in (left, rw (run, same) refl, others, o')

  -- The bytes of DATA, START and some times STATUS.
  abbrev pub messages : List ℤ → ℕ → List ℕ
  messages matrix n =
      wire_message host msg_data (data_payload host rows cols num_threads matrix)
      ++ (wire_message host msg_start [] ++ questions host n)

  pub data_payload-size :
      (matrix : List ℤ)
      → length matrix ≡ 10000
      → length (data_payload host rows cols num_threads matrix) ≡ 40012
  data_payload-size matrix size =
      length-data_payload host rows cols num_threads matrix (omega arith) (omega arith)
        (omega arith)
      ∙ omega (arith, size)

  talk_on-shows :
      (rounds : ℕ) (results : List ℤ) (pieces : Incoming) (olds : List MinMax) (r : MinMax)
      (rest : List ℕ)
      → length olds < rounds
      → All Sends results
      → 12 + 12 * rounds ≤ length results
      → All (Fits host) olds
      → Fits host r
      → IsOpen pieces
      → concat pieces ≡ wire_message host msg_start_ok [] ++ (answers_bytes host olds r ++ rest)
      → talk_on host rounds results pieces ≡ (
        polls (shows r.min_value r.max_value),
        wire_message host msg_start [] ++ questions host (suc (length olds)),
      )
  unfolding talk_on
  talk_on-shows rounds results pieces olds r rest few s enough fits fit o e =
      let (left, sent, s', more) =
        send_message-wire_message host msg_start [] (omega arith) (omega arith) results s
          (omega (arith, enough)) in
      let (after, heard, others, o') =
        acknowledged msg_start_ok pieces (answers_bytes host olds r ++ rest) (omega arith) o e in
      let end =
        poll-shows host olds r rest rounds left after few s' (omega (arith, enough, more)) fits fit
          o' others in
      rw (talk_on, sent, heard, end) refl

  talk-shows :
      (rounds : ℕ) (matrix : List ℤ) (results : List ℤ) (pieces : Incoming) (olds : List MinMax)
      (r : MinMax) (rest : List ℕ)
      → length matrix ≡ 10000
      → length olds < rounds
      → All Sends results
      → 40036 + 12 * rounds ≤ length results
      → All (Fits host) olds
      → Fits host r
      → IsOpen pieces
      → concat pieces
        ≡ wire_message host msg_data_ok []
          ++ (wire_message host msg_start_ok [] ++ (answers_bytes host olds r ++ rest))
      → talk host rounds matrix results pieces
        ≡ (polls (shows r.min_value r.max_value), messages matrix (suc (length olds)))
  unfolding talk
  talk-shows rounds matrix results pieces olds r rest size few s enough fits fit o e =
      let payload = data_payload host rows cols num_threads matrix in
      let bytes = data_payload-size matrix size in
      let cast : length payload % 2 ^ 32 ≡ length payload = rw bytes refl in
      let (left, sent, s', more) =
        send_message-wire_message host msg_data payload (omega arith) (omega (arith, bytes)) results
          s (omega (arith, enough, bytes)) in
      let (after, heard, others, o') =
        acknowledged msg_data_ok pieces
          (wire_message host msg_start_ok [] ++ (answers_bytes host olds r ++ rest)) (omega arith) o
          e in
      let end =
        talk_on-shows rounds left after olds r rest few s' (omega (arith, enough, more, bytes)) fits
          fit o' others in
      rw (talk, cast, sent, heard, end) refl

  -- The program is called without arguments, and it reaches the server: the calls of the socket
  -- library before the conversation succeed.
  pub record Connects (s : Surroundings) (fd : ℕ) : Type 0 where
    pub no_arguments : s.argc ≤ 1
    pub library : s.wsa_startup ≡ 0
    pub opened : s.socket ≡ some fd
    pub address : ltb_ℤ s.inet_pton (pos 1) ≡ false
    pub connected : (s.connect ==ℤ socket_error) ≡ false

  pub run_main-end_talk :
      (rounds : ℕ) (s : Surroundings) (fd : ℕ)
      → Connects s fd
      → run_main host rounds s
        ≡ end_talk host
            (talk host rounds (generate_matrix s.draws rows cols) s.results s.pieces).0
            (talk host rounds (generate_matrix s.draws rows cols) s.results s.pieces).1
            (opens_socket fd ∷ starts_sockets ∷ [])
            fd
  unfolding run_main
  run_main-end_talk rounds s fd c =
      let few : leb s.argc 1 ≡ true = let h = c.no_arguments in ground arith in
      let library : (s.wsa_startup == 0) ≡ true = let h = c.library in ground arith in
      rw (few, library, c.opened, c.address, c.connected) refl

  -- The client is called without arguments and reaches the server, the calls of `send` make progress,
  -- and there are enough of them. However the network cuts the server's answers into pieces: when the
  -- server acknowledges DATA and START, answers RUNNING some times and then DONE, all with 32-bit
  -- extrema, `main` shows the extrema of the last answer, closes its socket, gives the socket library
  -- back and returns 0, if its loop is given more rounds than there were answers RUNNING.
  pub run_main-shows :
      (rounds : ℕ) (s : Surroundings) (fd : ℕ) (olds : List MinMax) (r : MinMax) (rest : List ℕ)
      → Connects s fd
      → length olds < rounds
      → All Sends s.results
      → 40036 + 12 * rounds ≤ length s.results
      → All (Fits host) olds
      → Fits host r
      → IsOpen s.pieces
      → concat s.pieces
        ≡ wire_message host msg_data_ok []
          ++ (wire_message host msg_start_ok [] ++ (answers_bytes host olds r ++ rest))
      → run_main host rounds s ≡ record {
        code = some 0;
        talk = some (polls (shows r.min_value r.max_value));
        wire = messages (generate_matrix s.draws rows cols) (suc (length olds));
        calls = cleans_sockets ∷ closes_socket fd ∷ opens_socket fd ∷ starts_sockets ∷ [];
      }
  unfolding end_talk code_of
  run_main-shows rounds s fd olds r rest c few sends enough fits fit o e =
      let shown =
        talk-shows rounds (generate_matrix s.draws rows cols) s.results s.pieces olds r rest
          (length-generate_matrix s.draws) few sends enough fits fit o e in
      run_main-end_talk rounds s fd c ∙ rw shown refl

  end_talk-AllReleased :
      (t : Talk) (wire : List ℕ) (fd code : ℕ)
      → (end_talk host t wire (opens_socket fd ∷ starts_sockets ∷ []) fd).code ≡ some code
      → AllReleased (end_talk host t wire (opens_socket fd ∷ starts_sockets ∷ []) fd).calls
  unfolding end_talk
  end_talk-AllReleased t wire fd code e = elim (Option-cases (code_of t)) [
    | inl goes_on ↦ absurd (ground arith)
    | inr (c, returned) ↦ rw (end_talk, returned) (released-again fd, refl)
  ]

  -- Whatever the program meets: when `main` returns, it has closed its socket and given the socket
  -- library back, if it had got them.
  pub run_main-AllReleased :
      (rounds : ℕ) (s : Surroundings) (code : ℕ)
      → (run_main host rounds s).code ≡ some code
      → AllReleased (run_main host rounds s).calls
  unfolding run_main
  run_main-AllReleased rounds s code e = elim (Bool-cases (leb s.argc 1)) [
    | inr many ↦ rw many ((λ k. refl), refl)
    | inl few ↦ elim (Bool-cases (s.wsa_startup == 0)) [
      | inr no_library ↦ rw (few, no_library) ((λ k. refl), refl)
      | inl library ↦ elim (Option-cases s.socket) [
        | inl no_socket ↦ rw (few, library, no_socket) ((λ k. refl), refl)
        | inr (fd, opened) ↦ elim (Bool-cases (ltb_ℤ s.inet_pton (pos 1))) [
          | inl bad ↦ rw (few, library, opened, bad) (released-again fd, refl)
          | inr address ↦ elim (Bool-cases (s.connect ==ℤ socket_error)) [
            | inl bad ↦ rw (few, library, opened, address, bad) (released-again fd, refl)
            | inr connected ↦
                let c : Connects s fd = record {
                  no_arguments = leb→le s.argc 1 few;
                  library = ground arith;
                  opened = opened;
                  address = address;
                  connected = connected;
                } in
                let t = talk host rounds (generate_matrix s.draws rows cols) s.results s.pieces in
                let same = run_main-end_talk rounds s fd c in
                subst (λ (r : Run). AllReleased r.calls) (sym same)
                  (end_talk-AllReleased t.0 t.1 fd code (sym (ap (λ (r : Run). r.code) same) ∙ e))
          ]
        ]
      ]
    ]
  ]
