-- ===== src/Client.antt =====
-- lab_4/cpp/src/client.cpp: the client's messages, and what it reads from the server's answers.
pub mod Upload
pub mod Report
pub mod Session
pub mod Polling
pub mod Program
use multithreading_labs.Base.{
  ℕ, zero, suc, ◌≡◌, Option, none, some, Bool, true, false, not, List, [], ◌∷◌, ◌>>=◌, ℤ, ◌==◌,
  if◌then◌else◌, ◌++◌,
}
use multithreading_labs.Protocol.{
  Host, MessageHeader, Incoming, append_u32, append_i32, read_u32, read_i32, recv_message,
  send_message, msg_status, msg_status_resp,
}

-- What the client reads from the answer to STATUS.
pub record StatusReport : Type 0 where
  pub status : ℕ
  pub min_value : ℤ
  pub max_value : ℤ
  pub error : ℕ

-- How the loop of `main` that asks for the status ends: with a message about a failure, with the
-- result, or with the server's error; `asks_on` if it has not ended yet, `waits` if a call of `send`
-- does not return.
pub data Ending : Type 0 where
  gives_up asks_on waits : Ending
  shows : (min_value max_value : ℤ) → Ending
  blames : (error : ℕ) → Ending

-- What was sent before stands on the wire first.
abbrev pub behind : {A : Type 0} → List ℕ → A × List ℕ → A × List ℕ
behind wire (a, more) = (a, wire ++ more)

-- What follows from an answer; `none` if the client asks again.
unfoldable pub judge : StatusReport → Option Ending
judge report =
    if report.status == 3
    then some (shows report.min_value report.max_value)
    else if report.status == 4
    then some (blames report.error)
    else none

module _ (host : Host) where
  -- `for (const auto value : matrix)`
  unfoldable pub append_values : List ℕ → List ℤ → List ℕ
  append_values data_payload [] = data_payload
  append_values data_payload (v ∷ matrix) = append_values (append_i32 host data_payload v) matrix

  unfoldable pub data_payload : ℕ → ℕ → ℕ → List ℤ → List ℕ
  data_payload rows cols num_threads matrix =
      append_values (append_u32 host (append_u32 host (append_u32 host [] rows) cols) num_threads)
        matrix

  -- `none` is the result `false`: an answer of another type than the expected one, an error
  -- included, or none.
  unfoldable pub recv_expected : Incoming → ℕ → Option (List ℕ × Incoming)
  recv_expected pieces expected_type = recv_message host pieces >>= λ (header, payload, rest).
      if header.type == expected_type then some (payload, rest) else none

  unfoldable pub read_status : List ℕ → Option StatusReport
  read_status payload = read_u32 host payload 0 >>= λ (status, offset).
      read_i32 host payload offset >>= λ (min_value, offset').
      read_i32 host payload offset' >>= λ (max_value, offset'').
      read_u32 host payload offset'' >>= λ (error, end).
      some (record { status = status; min_value = min_value; max_value = max_value; error = error })

  -- The loop of `main`, for a number of rounds: how it ends, and the bytes that it has sent. (What a
  -- call of `send` has sent that does not return is not among them.)
  unfoldable pub poll : ℕ → List ℤ → Incoming → Ending × List ℕ
  unfolding recv_expected read_status judge
  poll zero results pieces = (asks_on, [])
  poll (suc rounds) results pieces = elim (send_message host results msg_status [] 0) [
    | none ↦ (waits, [])
    | some sent ↦ behind sent.wire (elim sent.ok [
      | false ↦ (gives_up, [])
      | true ↦ elim (recv_expected pieces msg_status_resp) [
        | none ↦ (gives_up, [])
        | some received ↦ elim (read_status received.0) [
          | none ↦ (gives_up, [])
          | some report ↦ elim (judge report) [
            | some ending ↦ (ending, [])
            | none ↦ poll rounds sent.results received.1
          ]
        ]
      ]
    ])
  ]
