-- ===== src/Tests/Network.antt =====
-- Messages on a slow network.
use multithreading_labs.Base.{
  ℕ, ◌+◌, ◌≤◌, ◌≡◌, refl, arith, some, true, false, List, [], ◌∷◌, ◌++◌, ℤ, pos, negsuc, All,
  length,
}
use multithreading_labs.Blocks.Slices.{concat}
use multithreading_labs.Protocol.{
  Incoming, Sent, send_all, send_message, recv_message, header_of, header_bytes,
}
use multithreading_labs.Protocol.Streams.{IsOpen, Sends}
use multithreading_labs.Protocol.Messages.{
  wire_message, recv_message-wire_message, send_message-wire_message,
}
use multithreading_labs.Client.Polling.{answers_bytes}
use multithreading_labs.Tests.Machine.{x86}

-- The network cuts the stream in three, and another byte follows.
abbrev cut_pieces : Incoming
cut_pieces =
    (0x4D ∷ 0x4D ∷ [])
    ∷ (0x58 ∷ 0x31 ∷ 0 ∷ 1 ∷ 0 ∷ 1 ∷ 0 ∷ 0 ∷ 0 ∷ [])
    ∷ (2 ∷ 10 ∷ 20 ∷ 77 ∷ [])
    ∷ []

cut_pieces-IsOpen : IsOpen cut_pieces
cut_pieces-IsOpen = (omega arith, (omega arith, (omega arith, tt)))

abbrev first_four : List ℕ
first_four = 0x4D ∷ 0x4D ∷ 0x58 ∷ 0x31 ∷ []

abbrev others : List ℕ
others = 0 ∷ 1 ∷ 0 ∷ 1 ∷ 0 ∷ 0 ∷ 0 ∷ 2 ∷ 10 ∷ 20 ∷ 77 ∷ []

abbrev ten : List ℤ
ten = pos 10 ∷ pos 10 ∷ pos 10 ∷ pos 10 ∷ pos 10 ∷ []

abbrev more : List ℤ
more = ten ++ (ten ++ ten)

more-Sends : All Sends more
more-Sends = ground arith

-- The second call of `send` fails.
abbrev broken : Sent
broken = record { ok = false; wire = 0x4D ∷ 0x4D ∷ []; results = [] }

send_all-broken : send_all (pos 2 ∷ negsuc 0 ∷ []) first_four ≡ some broken
unfolding send_all
send_all-broken = refl

abbrev two_bytes : List ℕ
two_bytes = 10 ∷ 20 ∷ []

cut_pieces-wire_message : concat cut_pieces ≡ wire_message x86 1 two_bytes ++ (77 ∷ [])
unfolding header_bytes
cut_pieces-wire_message = refl

recv_message-wire_message_example :
    (left : Incoming) × (recv_message x86 cut_pieces
      ≡ some (header_of 1 (length two_bytes), two_bytes, left))
    × (concat left ≡ 77 ∷ [])
    × IsOpen left
recv_message-wire_message_example =
    recv_message-wire_message x86 1 two_bytes (omega arith) (omega arith) cut_pieces (77 ∷ [])
      cut_pieces-IsOpen cut_pieces-wire_message

send_message-wire_message_example :
    (left : List ℤ) × (send_message x86 more 1 two_bytes (length two_bytes)
      ≡ some (record { ok = true; wire = wire_message x86 1 two_bytes; results = left }))
    × All Sends left
    × (length more ≤ length left + (12 + length two_bytes))
send_message-wire_message_example =
    send_message-wire_message x86 1 two_bytes (omega arith) (omega arith) more more-Sends
      (omega arith)

-- The server is still at work at the first question, and done at the second one.
abbrev two_answers : Incoming
two_answers =
    answers_bytes x86 (record { min_value = pos 0; max_value = pos 0 } ∷ [])
      (record { min_value = negsuc 4; max_value = pos 9 })
    ∷ []

two_answers-IsOpen : IsOpen two_answers
unfolding header_bytes
two_answers-IsOpen = (omega arith, tt)
