-- ===== src/Protocol.antt =====
-- lab_4/cpp/include/protocol.h: messages between the client and the server. A byte is a number below
-- 256, an unsigned word a number below its bound.
pub mod Words
pub mod Streams
pub mod Messages
use multithreading_labs.Base.{
  ℕ, zero, suc, ◌+◌, ◌-◌, ◌*◌, ◌/◌, ◌%◌, ◌^◌, ◌≤◌, ◌<◌, ◌≡◌, Option, none, some, Bool, true, false,
  not, ◌&&◌, ◌||◌, List, [], ◌∷◌, ◌++◌, ◌>>=◌, ℤ, pos, negsuc, ltb, leb, ◌==◌, if◌then◌else◌,
  length, take, drop, All, add_size,
}

abbrev pub protocol_magic : ℕ
protocol_magic = 0x4D4D_5831

abbrev pub protocol_version : ℕ
protocol_version = 1

abbrev pub max_payload_bytes : ℕ
max_payload_bytes = 256 * 1024 * 1024

abbrev pub msg_data : ℕ
msg_data = 1

abbrev pub msg_start : ℕ
msg_start = 2

abbrev pub msg_status : ℕ
msg_status = 3

abbrev pub msg_data_ok : ℕ
msg_data_ok = 101

abbrev pub msg_start_ok : ℕ
msg_start_ok = 102

abbrev pub msg_status_resp : ℕ
msg_status_resp = 103

abbrev pub msg_error : ℕ
msg_error = 200

pub record MessageHeader : Type 0 where
  pub magic : ℕ
  pub version : ℕ
  pub type : ℕ
  pub payload_length : ℕ

-- Most significant byte first.
abbrev pub be_32 : ℕ → List ℕ
be_32 v = v / 2 ^ 24 % 256 ∷ v / 2 ^ 16 % 256 ∷ v / 2 ^ 8 % 256 ∷ v % 256 ∷ []

abbrev pub be_16 : ℕ → List ℕ
be_16 v = v / 2 ^ 8 % 256 ∷ v % 256 ∷ []

-- The machine that the program runs on and the socket library's byte order functions: how a word
-- lies in memory, and `htonl`, `htons`, `ntohl` and `ntohs`. They are documented to convert between
-- the machine's order and the network's, which is most significant byte first.
pub record Host : Type 0 where
  pub store_32 : ℕ → List ℕ
  pub load_32 : List ℕ → ℕ
  pub store_16 : ℕ → List ℕ
  pub load_16 : List ℕ → ℕ
  pub htonl : ℕ → ℕ
  pub ntohl : ℕ → ℕ
  pub htons : ℕ → ℕ
  pub ntohs : ℕ → ℕ
  pub ntohl-lt : (w : ℕ) → ntohl w < 2 ^ 32
  pub store-htonl : (v : ℕ) → v < 2 ^ 32 → store_32 (htonl v) ≡ be_32 v
  pub ntohl-load : (v : ℕ) → v < 2 ^ 32 → ntohl (load_32 (be_32 v)) ≡ v
  pub store-htons : (v : ℕ) → v < 2 ^ 16 → store_16 (htons v) ≡ be_16 v
  pub ntohs-load : (v : ℕ) → v < 2 ^ 16 → ntohs (load_16 (be_16 v)) ≡ v

-- `static_cast` between `int32_t` and `uint32_t`.
abbrev pub unsigned_32 : ℤ → ℕ
unsigned_32 (pos n) = n % 2 ^ 32
unsigned_32 (negsuc n) = 2 ^ 32 - 1 - n % 2 ^ 32

abbrev pub signed_32 : ℕ → ℤ
signed_32 w = if ltb w (2 ^ 31) then pos w else negsuc (2 ^ 32 - 1 - w)

-- What TCP delivers, cut as the calls of `recv` find it; an empty piece is a call that returns 0 or
-- an error, and the end of the list a connection that is closed.
abbrev pub Incoming : Type 0
Incoming = List (List ℕ)

-- `none`: the connection ended before `need` bytes had come.
unfoldable pub recv_all : ℕ → Incoming → Option (List ℕ × Incoming)
recv_all zero pieces = some ([], pieces)
recv_all (suc need) [] = none
recv_all (suc need) ([] ∷ pieces) = none
recv_all (suc need) ((b ∷ bs) ∷ pieces) =
    let whole =
      recv_all (need - length bs) pieces >>= λ (more, rest). some ((b ∷ bs) ++ more, rest) in
    if leb (length bs) need
    then whole
    else some (take (suc need) (b ∷ bs), drop (suc need) (b ∷ bs) ∷ pieces)

pub record Sent : Type 0 where
  pub ok : Bool
  pub wire : List ℕ  -- the bytes that the calls of `send` took
  pub results : List ℤ  -- what the calls of `send` to come return

-- What successive calls of `send` return is the environment's choice; `none` if it makes none, and
-- the call waits for ever. Messages are shorter than 2 ^ 31 bytes, so that the cast to `int` keeps
-- the size.
unfoldable pub send_all : List ℤ → List ℕ → Option Sent
send_all results [] = some (record { ok = true; wire = []; results = results })
send_all [] (b ∷ bs) = none
send_all (pos (suc n) ∷ results) (b ∷ bs) =
    send_all results (drop n bs) >>= λ s. some (record s { wire = (b ∷ take n bs) ++ s.wire })
send_all (pos zero ∷ results) (b ∷ bs) = some (record { ok = false; wire = []; results = results })
send_all (negsuc n ∷ results) (b ∷ bs) = some (record { ok = false; wire = []; results = results })

abbrev pub header_of : ℕ → ℕ → MessageHeader
header_of type n = record {
  magic = protocol_magic;
  version = protocol_version;
  type = type;
  payload_length = n;
}

-- The checks that `recvMessage` makes of a header.
unfoldable pub is_acceptable : MessageHeader → Bool
is_acceptable h =
    (h.magic == protocol_magic && h.version == protocol_version)
    && leb h.payload_length max_payload_bytes

module _ (host : Host) where
  open host use {store_32, load_32, store_16, load_16, htonl, ntohl, htons, ntohs}

  unfoldable pub append_u32 : List ℕ → ℕ → List ℕ
  append_u32 buffer value = buffer ++ store_32 (htonl value)

  unfoldable pub append_i32 : List ℕ → ℤ → List ℕ
  append_i32 buffer value = buffer ++ store_32 (htonl (unsigned_32 value))

  -- The value and the new offset.
  unfoldable pub read_u32 : List ℕ → ℕ → Option (ℕ × ℕ)
  read_u32 buffer offset =
      if ltb (length buffer) (add_size offset 4)
      then none
      else some (ntohl (load_32 (take 4 (drop offset buffer))), add_size offset 4)

  unfoldable pub read_i32 : List ℕ → ℕ → Option (ℤ × ℕ)
  read_i32 buffer offset =
      if ltb (length buffer) (add_size offset 4)
      then none
      else some (signed_32 (ntohl (load_32 (take 4 (drop offset buffer)))), add_size offset 4)

  unfoldable pub header_bytes : MessageHeader → List ℕ
  header_bytes h =
      store_32 (htonl h.magic)
      ++ (store_16 (htons h.version)
          ++ (store_16 (htons h.type) ++ store_32 (htonl h.payload_length)))

  unfoldable pub parse_header : List ℕ → MessageHeader
  parse_header bytes = record {
    magic = ntohl (load_32 (take 4 bytes));
    version = ntohs (load_16 (take 2 (drop 4 bytes)));
    type = ntohs (load_16 (take 2 (drop 6 bytes)));
    payload_length = ntohl (load_32 (take 4 (drop 8 bytes)));
  }

  -- `payload_length` is the argument `length`: that many bytes of the payload are sent.
  unfoldable pub send_message : List ℤ → ℕ → List ℕ → ℕ → Option Sent
  send_message results type payload payload_length =
      send_all results (header_bytes (header_of type payload_length)) >>= λ s.
      if not s.ok || payload_length == 0
      then some s
      else (send_all s.results (take payload_length payload) >>= λ s'.
          some (record s' { wire = s.wire ++ s'.wire }))

  -- `none` is the result `false`.
  unfoldable pub recv_message : Incoming → Option (MessageHeader × List ℕ × Incoming)
  recv_message pieces = recv_all 12 pieces >>= λ (bytes, rest).
      let header = parse_header bytes in
      if is_acceptable header
      then (recv_all header.payload_length rest >>= λ (payload, rest').
          some (header, payload, rest'))
      else none
