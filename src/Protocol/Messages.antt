-- ===== src/Protocol/Messages.antt =====
-- `sendMessage` and `recvMessage`: what one side sends the other receives.
use mathlib.Core.List.{append_assoc, append-nil}
use multithreading_labs.Base.{
  take-all, ℕ, ◌+◌, ◌^◌, ◌≤◌, ◌<◌, ◌≡◌, refl, sym, ap, ◌∙◌, some, true, List, [], ◌∷◌, ◌++◌, ℤ,
  arith, length, All, inl, inr, Bool-cases, ◌==◌,
}
use multithreading_labs.Blocks.Slices.{concat}
use multithreading_labs.Protocol.{
  Host, MessageHeader, header_bytes, parse_header, header_of, is_acceptable, Incoming, send_message,
  recv_message, max_payload_bytes, be_32, be_16,
}
use multithreading_labs.Protocol.Streams.{IsOpen, recv_all-concat, Sends, send_all-Sends}

append-empty : (xs ys : List ℕ) → (length ys == 0) ≡ true → xs ≡ xs ++ ys
append-empty xs [] e = sym (append-nil xs)
append-empty xs (y ∷ ys) e = absurd (ground arith)

module _ (host : Host) where
  -- The twelve bytes of a header, as they travel.
  wire_header :
      (h : MessageHeader)
      → h.magic < 2 ^ 32
      → h.version < 2 ^ 16
      → h.type < 2 ^ 16
      → h.payload_length < 2 ^ 32
      → header_bytes host h
        ≡ be_32 h.magic ++ (be_16 h.version ++ (be_16 h.type ++ be_32 h.payload_length))
  unfolding header_bytes
  wire_header h a b c d = rw (
    host.store-htonl h.magic a,
    host.store-htons h.version b,
    host.store-htons h.type c,
    host.store-htonl h.payload_length d,
  )

  parse_header-header_bytes :
      (h : MessageHeader)
      → h.magic < 2 ^ 32
      → h.version < 2 ^ 16
      → h.type < 2 ^ 16
      → h.payload_length < 2 ^ 32
      → parse_header host (header_bytes host h) ≡ h
  unfolding parse_header
  parse_header-header_bytes h a b c d = rw (wire_header h a b c d) (
      rw (
        host.ntohl-load h.magic a,
        host.ntohs-load h.version b,
        host.ntohs-load h.type c,
        host.ntohl-load h.payload_length d,
      ))

  -- The bytes that a message is on the wire.
  abbrev pub wire_message : ℕ → List ℕ → List ℕ
  wire_message type payload = header_bytes host (header_of type (length payload)) ++ payload

  pub length-header_bytes :
      (h : MessageHeader)
      → h.magic < 2 ^ 32
      → h.version < 2 ^ 16
      → h.type < 2 ^ 16
      → h.payload_length < 2 ^ 32
      → length (header_bytes host h) ≡ 12
  length-header_bytes h a b c d = ap length (wire_header h a b c d)

  module _ (type : ℕ) (payload : List ℕ) (known : type < 2 ^ 16)
      (fits : length payload ≤ max_payload_bytes) where
    abbrev header : MessageHeader
    header = header_of type (length payload)

    parsed : parse_header host (header_bytes host header) ≡ header
    parsed = parse_header-header_bytes header (omega arith) (omega arith) known (omega arith)

    twelve : length (header_bytes host header) ≡ 12
    twelve = length-header_bytes header (omega arith) (omega arith) known (omega arith)

    accepted : is_acceptable header ≡ true
    unfolding is_acceptable
    accepted = ground arith

    -- However the network cuts the stream into pieces, none of them empty: where a message with a
    -- 16-bit type and a payload of at most `kMaxPayloadBytes` comes first, `recvMessage` returns its
    -- header and its payload, and the bytes behind it stay for the next call.
    pub recv_message-wire_message :
        (pieces : Incoming) (rest : List ℕ)
        → IsOpen pieces
        → concat pieces ≡ wire_message type payload ++ rest
        → (left : Incoming) × (recv_message host pieces ≡ some (header, payload, left))
          × (concat left ≡ rest)
          × IsOpen left
    unfolding recv_message
    recv_message-wire_message pieces rest o e =
        let (mid, run, cut, o') =
          recv_all-concat 12 pieces (header_bytes host header) (payload ++ rest) o
            (e ∙ append_assoc (header_bytes host header) payload rest) twelve in
        let (left, run', done, o'') =
          recv_all-concat (length payload) mid payload rest o' cut refl in
        (left, rw (run, parsed, accepted, run'), done, o'')

    -- `sendMessage` succeeds and puts exactly the header and the payload on the wire, for a 16-bit
    -- type and a payload of at most `kMaxPayloadBytes`, if each call of `send` makes progress and
    -- there are as many calls as bytes; it makes at most one call for each byte.
    pub send_message-wire_message :
        (results : List ℤ)
        → All Sends results
        → 12 + length payload ≤ length results
        → (left : List ℤ) × (send_message host results type payload (length payload)
            ≡ some (record { ok = true; wire = wire_message type payload; results = left }))
          × All Sends left
          × (length results ≤ length left + (12 + length payload))
    unfolding send_message
    send_message-wire_message results s h =
        let (mid, run, s', more) =
          send_all-Sends results (header_bytes host header) s (omega (arith, twelve)) in
        elim (Bool-cases (length payload == 0)) [
          | inr nonempty ↦
              let (left, run', s'', more') =
                send_all-Sends mid payload s' (omega (arith, twelve)) in
              (
                left,
                rw (run, nonempty, take-all payload, run'),
                s'',
                omega (arith, twelve, more, more'),
              )
          | inl empty ↦ (
            mid,
            rw (run, empty)
                (ap (λ (w : List ℕ). some (record { ok = true; wire = w; results = mid }))
                  (append-empty (header_bytes host header) payload empty)),
            s',
            omega (arith, twelve, more),
          )
        ]
