-- ===== src/HttpServer.antt =====
-- lab_5/src/server.cpp: the request line, the answers and the sending of a file. Text is a list of
-- bytes. `sscanf` and `snprintf` are written out for the formats that the server uses.
pub mod Names
pub mod Request
pub mod Loop
pub mod Sending
pub mod Sharing
pub mod Answer
pub mod Wanted
pub mod Delivery
pub mod Header
pub mod Listening
use multithreading_labs.Base.{
  ℕ, zero, suc, ◌+◌, ◌-◌, ◌*◌, ◌/◌, ◌%◌, Option, none, some, Bool, true, false, ◌&&◌, ◌||◌, List,
  [], ◌∷◌, ◌++◌, ◌>>=◌, ℤ, pos, negsuc, ltb, leb, ◌==◌, ◌==ℤ◌, if◌then◌else◌, length, get_elem?,
  sub_size, codes, same_text, contains,
}
use multithreading_labs.Windows.{Windows}
use multithreading_labs.Cache.{FileCache, get_file_cache}

abbrev pub static_path : List ℕ
static_path = codes "public"

abbrev pub buffer_size : ℕ
buffer_size = 4096

-- The bytes before the first zero.
abbrev pub c_string : List ℕ → List ℕ
c_string [] = []
c_string (c ∷ cs) = let rest = c_string cs in if c == 0 then [] else c ∷ rest

-- `isspace`
abbrev pub is_space : ℕ → Bool
is_space c = (leb 9 c && leb c 13) || c == 32

abbrev pub skip_spaces : List ℕ → List ℕ
skip_spaces [] = []
skip_spaces (c ∷ cs) = let rest = skip_spaces cs in if is_space c then rest else c ∷ cs

-- At most `width` bytes that are no white space, and what is behind them.
unfoldable pub scan_chars : ℕ → List ℕ → List ℕ × List ℕ
scan_chars zero cs = ([], cs)
scan_chars (suc width) [] = ([], [])
scan_chars (suc width) (c ∷ cs) =
    let (word, rest) = scan_chars width cs in if is_space c then ([], c ∷ cs) else (c ∷ word, rest)

-- `%s` with a width; `none` if the text is at its end.
abbrev pub scanned : List ℕ × List ℕ → Option (List ℕ × List ℕ)
scanned ([], rest) = none
scanned (c ∷ cs, rest) = some (c ∷ cs, rest)

unfoldable pub scan_string : ℕ → List ℕ → Option (List ℕ × List ℕ)
unfolding scan_chars
scan_string width text = scanned (scan_chars width (skip_spaces text))

-- `sscanf(…, "%15s %255s %15s", method, path, protocol) == 3`
unfoldable pub scan_fields : List ℕ → Option (List ℕ × List ℕ)
unfolding scan_string
scan_fields text = scan_string 15 text >>= λ (method, after_method).
    scan_string 255 after_method >>= λ (path, after_path).
    scan_string 15 after_path >>= λ (protocol, rest). some (method, path)

unfoldable pub scan_request : List ℕ → Option (List ℕ × List ℕ)
unfolding scan_fields
scan_request buffer = scan_fields (c_string buffer)

-- What `handle_client` does with a request: nothing, an answer 405, an answer 404, or the file.
pub data Action : Type 0 where
  ignores refuses hides : Action
  serves : (filepath : List ℕ) → Action

abbrev pub filepath_of : List ℕ → List ℕ
filepath_of path = static_path ++ (if same_text path (codes "/") then codes "/index.html" else path)

unfoldable pub decide : List ℕ → Action
unfolding scan_request
decide buffer = elim (scan_request buffer) [
  | none ↦ ignores
  | some request ↦
      let (method, path) = request in
      if same_text method (codes "GET")
      then (if contains (filepath_of path) (codes "..") then hides else serves (filepath_of path))
      else refuses
]

-- `%zu` and `%d` of a number below 10 ^ 20.
unfoldable pub digits : ℕ → ℕ → List ℕ
digits zero n = []
digits (suc places) n =
    let higher = digits places (n / 10) in
    (if ltb n 10 then [] else higher) ++ ((b'0' + n % 10) ∷ [])

unfoldable pub decimal : ℕ → List ℕ
unfolding digits
decimal n = digits 20 n

unfoldable pub header_of : List ℕ → List ℕ → ℕ → List ℕ
unfolding decimal
header_of status content_type content_length =
    codes "HTTP/1.1 "
    ++ status
    ++ codes "\r\nContent-Type: "
    ++ content_type
    ++ codes "\r\nContent-Length: "
    ++ decimal content_length
    ++ codes "\r\nConnection: close\r\n\r\n"

abbrev pub not_allowed : List ℕ
not_allowed = codes "HTTP/1.1 405 Method Not Allowed\r\nContent-Length: 0\r\n\r\n"

abbrev pub not_found_body : List ℕ
not_found_body = codes "<html><body><h1>404 Not Found</h1></body></html>"

-- Where the sending of a file stands: before the file pointer is moved; before a read, with what
-- remains; behind it, with the bytes read; behind the loop.
pub data Stream : Type 0 where
  seeking : Stream
  reading : (remaining : ℕ) → Stream
  writing : (remaining : ℕ) → (bytes : List ℕ) → Stream
  finished : Stream

module _ (W : Windows) where
  open W use {State, set_file_pointer, read_file, recv, send, close_socket}

  -- `ReadFile` has returned: the loop is left if it failed or read nothing.
  abbrev pub after_read : ℕ → Option (List ℕ) → Stream
  after_read remaining none = finished
  after_read remaining (some []) = finished
  after_read remaining (some (b ∷ bs)) = writing remaining (b ∷ bs)

  -- One call of Windows in `send_file_response`, behind the sending of the header.
  unfoldable pub stream_step : FileCache → ℕ → Stream → State → Stream × State
  stream_step f client seeking s = (reading f.file_size, set_file_pointer s f.handle 0)
  stream_step f client (reading zero) s = (finished, s)
  stream_step f client (reading (suc n)) s =
      let to_read = if ltb buffer_size (suc n) then buffer_size else suc n in
      let (bytes, s') = read_file s f.handle to_read in (after_read (suc n) bytes, s')
  stream_step f client (writing remaining bytes) s =
      let (result, s') = send s client bytes in
      (if result ==ℤ negsuc 0 then finished else reading (sub_size remaining (length bytes)), s')
  stream_step f client finished s = (finished, s)

  unfoldable pub stream : ℕ → FileCache → ℕ → Stream → State → Stream × State
  stream zero f client place s = (place, s)
  stream (suc fuel) f client place s =
      let (place', s') = stream_step f client place s in stream fuel f client place' s'

  -- Every round of the loop but the last one reads a byte at least, in two steps.
  abbrev pub stream_fuel : FileCache → ℕ
  stream_fuel f = suc (suc (2 * f.file_size))

  unfoldable pub send_response : State → ℕ → List ℕ → List ℕ → List ℕ → State
  unfolding header_of
  send_response s client status content_type body =
      let s' = (send s client (header_of status content_type (length body))).1 in
      (send s' client body).1

  unfoldable pub send_404 : State → ℕ → State
  unfolding send_response
  send_404 s client =
      send_response s client (codes "404 Not Found") (codes "text/html") not_found_body

  -- `get_file_cache` has returned.
  unfoldable pub send_file : State → ℕ → Option FileCache → State
  unfolding send_404 stream header_of
  send_file s client none = send_404 s client
  send_file s client (some f) =
      let s' = (send s client (header_of (codes "200 OK") f.content_type f.file_size)).1 in
      (stream (stream_fuel f) f client seeking s').1

  unfoldable pub send_file_response : List FileCache → State → ℕ → List ℕ → List FileCache × State
  unfolding send_file
  send_file_response cache s client filepath =
      let (file_info, cache', s') = get_file_cache W cache s filepath in
      let f : Option FileCache = file_info >>= λ i. get_elem? cache' i in
      (cache', send_file s' client f)

  unfoldable pub perform : List FileCache → State → ℕ → Action → List FileCache × State
  unfolding send_file_response send_404
  perform cache s client ignores = (cache, s)
  perform cache s client refuses = (cache, (send s client not_allowed).1)
  perform cache s client hides = (cache, send_404 s client)
  perform cache s client (serves filepath) = send_file_response cache s client filepath

  -- What `recv` returned.
  unfoldable pub handle_request :
      List FileCache → ℕ → Option (List ℕ) × State → List FileCache × State
  unfolding perform decide
  handle_request cache client (none, s) = (cache, s)
  handle_request cache client (some buffer, s) = perform cache s client (decide buffer)

  unfoldable pub handle_client : List FileCache → State → ℕ → List FileCache × State
  unfolding handle_request
  handle_client cache s client =
      let (cache', s') = handle_request cache client (recv s client (buffer_size - 1)) in
      (cache', close_socket s' client)
