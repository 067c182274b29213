-- ===== src/Sockets.antt =====
-- The calls of the socket library by which a program takes and gives back what the library holds for
-- it, as lab_4/cpp/src/server.cpp, lab_4/cpp/src/client.cpp and lab_5/src/server.cpp make them.
use multithreading_labs.Base.{
  ℕ, zero, suc, ◌≡◌, Option, none, some, Bool, true, false, List, [], ◌∷◌, ◌>>=◌, ℤ, negsuc, ◌==◌,
  if◌then◌else◌, ◌+◌, arith,
}

-- The calls that succeeded: `WSAStartup`; `socket` or `accept`, with the socket; `closesocket`;
-- `WSACleanup`.
pub data SocketCall : Type 0 where
  starts_sockets : SocketCall
  opens_socket : ℕ → SocketCall
  closes_socket : ℕ → SocketCall
  cleans_sockets : SocketCall

-- `SOCKET_ERROR`
abbrev pub socket_error : ℤ
socket_error = negsuc 0

-- What the socket library answers to a program that sets up a server: `none` is `INVALID_SOCKET`.
pub record Answers : Type 0 where
  pub wsa_startup : ℕ
  pub socket : Option ℕ
  pub setsockopt : ℤ
  pub bind : ℤ
  pub listen : ℤ

abbrev pub give_back : Bool → ℕ → Option ℕ
give_back false n = some n
give_back true zero = none
give_back true (suc n) = some n

-- How often socket `k` is open after the calls, the newest first; `none` if it was closed while it was
-- not open.
abbrev pub held : ℕ → List SocketCall → Option ℕ
held k [] = some 0
held k (starts_sockets ∷ calls) = held k calls
held k (opens_socket fd ∷ calls) = held k calls >>= λ n. some (if fd == k then suc n else n)
held k (closes_socket fd ∷ calls) = held k calls >>= λ n. give_back (fd == k) n
held k (cleans_sockets ∷ calls) = held k calls

-- How many calls of `WSAStartup` wait for their `WSACleanup`.
abbrev pub startups : List SocketCall → Option ℕ
startups [] = some 0
startups (starts_sockets ∷ calls) = startups calls >>= λ n. some (suc n)
startups (opens_socket fd ∷ calls) = startups calls
startups (closes_socket fd ∷ calls) = startups calls
startups (cleans_sockets ∷ calls) = startups calls >>= λ n. give_back true n

-- Every socket has been closed once, and the library is done with.
abbrev pub AllReleased : List SocketCall → Type 0
AllReleased calls = ((k : ℕ) → held k calls ≡ some 0) × (startups calls ≡ some 0)

abbrev pub own : ℕ → ℕ → ℕ
own fd k = if fd == k then 1 else 0

pub held-opens :
    (k fd n m : ℕ) (calls : List SocketCall)
    → held k calls ≡ some n
    → m ≡ n + own fd k
    → held k (opens_socket fd ∷ calls) ≡ some m
held-opens k fd n m calls h e = rw (h, e) (ground arith)

pub held-closes :
    (k fd n m : ℕ) (calls : List SocketCall)
    → held k calls ≡ some n
    → n ≡ m + own fd k
    → held k (closes_socket fd ∷ calls) ≡ some m
held-closes k fd n m calls h e = rw (h, e) (ground arith)

pub held-opened : (fd k : ℕ) → held k (opens_socket fd ∷ starts_sockets ∷ []) ≡ some (own fd k)
held-opened fd k = ground arith

pub released-again :
    (fd k : ℕ)
    → held k (cleans_sockets ∷ closes_socket fd ∷ opens_socket fd ∷ starts_sockets ∷ []) ≡ some 0
released-again fd k = ground arith
