-- ===== src/Server/Listening.antt =====
-- `main` of lab_4/cpp/src/server.cpp: the socket that listens, and the clients that are accepted.
use multithreading_labs.Base.{
  ℕ, ◌+◌, ◌-◌, ◌%◌, ◌^◌, ◌≡◌, refl, ap, ◌∙◌, ◌⊎◌, inl, inr, Option, none, some, Bool, false, not,
  List, [], ◌∷◌, ◌++◌, ◌>>=◌, >>=-eq-some, eq_of_some, subst, ℤ, pos, negsuc, ◌==◌, ◌==ℤ◌,
  if◌then◌else◌, arith, get_elem?, set, total, total-append, total-set, Bool-cases, Option-cases,
}
use multithreading_labs.Protocol.{Host}
use multithreading_labs.Server.{fresh}
use multithreading_labs.Server.Connection.{
  Connection, receiving, sending, leaving, closed, Event, answers, recv_fails, sends, send_fails,
  works_receiving, works_sending, works_leaving, joins,
}
use multithreading_labs.Sockets.{
  SocketCall, starts_sockets, opens_socket, closes_socket, cleans_sockets, socket_error, Answers,
  held, startups, AllReleased, own, held-opens, held-closes, held-opened, released-again,
}

abbrev pub default_port : ℕ
default_port = 5000

-- `static_cast<std::uint16_t>`
abbrev pub unsigned_16 : ℤ → ℕ
unsigned_16 (pos n) = n % 2 ^ 16
unsigned_16 (negsuc n) = 2 ^ 16 - 1 - n % 2 ^ 16

-- What `std::stoi` makes of the first argument, if there is one; it throws where it finds no `int`.
pub data Argument : Type 0 where
  absent throws : Argument
  converts : ℤ → Argument

-- `none` if the exception leaves `main`.
unfoldable pub port_of : Argument → Option ℕ
port_of absent = some default_port
port_of throws = none
port_of (converts z) = some (unsigned_16 z)

-- `main` has returned, or it has come to its loop.
pub data Setup : Type 0 where
  exits : (code : ℕ) → List SocketCall → Setup
  listens : (port server_fd : ℕ) → List SocketCall → Setup

unfoldable pub set_up : Answers → ℕ → Setup
set_up a port = if not (a.wsa_startup == 0) then exits 1 [] else elim a.socket [
  | none ↦ exits 1 (cleans_sockets ∷ starts_sockets ∷ [])
  | some fd ↦
      let calls = opens_socket fd ∷ starts_sockets ∷ [] in
      let failed = exits 1 (cleans_sockets ∷ closes_socket fd ∷ calls) in
      if a.setsockopt ==ℤ socket_error
      then failed
      else if a.bind ==ℤ socket_error
      then failed
      else if a.listen ==ℤ socket_error
      then failed
      else listens port fd calls
]

unfoldable pub start_main : Answers → Argument → Option Setup
unfolding port_of set_up
start_main a argument = port_of argument >>= λ port. some (set_up a port)

-- All calls of `main` before its loop succeed.
abbrev pub AllSucceed : Answers → ℕ → Type 0
AllSucceed a fd =
    (a.wsa_startup ≡ 0)
    × (a.socket ≡ some fd)
    × ((a.setsockopt ==ℤ socket_error) ≡ false)
    × ((a.bind ==ℤ socket_error) ≡ false)
    × ((a.listen ==ℤ socket_error) ≡ false)

-- `main` has failed and given everything back, or it listens, and holds the socket that listens.
abbrev pub Settles : Answers → ℕ → Setup → Type 0
Settles a port (exits code calls) = (code ≡ 1) × AllReleased calls × ((fd : ℕ) → ¬ AllSucceed a fd)
Settles a port (listens port' fd calls) =
    (port' ≡ port)
    × AllSucceed a fd
    × ((k : ℕ) → held k calls ≡ some (own fd k))
    × (startups calls ≡ some 1)

-- Whatever the socket library answers.
pub set_up-Settles : (a : Answers) (port : ℕ) → Settles a port (set_up a port)
unfolding set_up
set_up-Settles a port = elim (Bool-cases (a.wsa_startup == 0)) [
  | inr no_library ↦
      rw no_library (refl, ((λ k. refl), refl), λ fd h. let zero_ = h.0 in ground arith)
  | inl library ↦ elim (Option-cases a.socket) [
    | inl no_socket ↦ rw (library, no_socket) (refl, ((λ k. refl), refl), λ fd h. let s = h.1 in cc)
    | inr (fd, opened) ↦ elim (Bool-cases (a.setsockopt ==ℤ socket_error)) [
      | inl bad ↦
          rw (library, opened, bad) (refl, (released-again fd, refl), λ fd' h. let s = h.2 in cc)
      | inr o ↦ elim (Bool-cases (a.bind ==ℤ socket_error)) [
        | inl bad ↦
            rw (library, opened, o, bad)
              (refl, (released-again fd, refl), λ fd' h. let s = h.3 in cc)
        | inr b ↦ elim (Bool-cases (a.listen ==ℤ socket_error)) [
          | inl bad ↦
              rw (library, opened, o, b, bad)
                (refl, (released-again fd, refl), λ fd' h. let s = h.4 in cc)
          | inr l ↦
              rw (library, opened, o, b, l)
                (refl, (ground arith, refl, cc, cc, cc), held-opened fd, refl)
        ]
      ]
    ]
  ]
]

-- The loop of `main` with the clients that it has accepted, each in a thread of its own.
pub record Listener : Type 0 where
  pub server_fd : ℕ
  pub clients : List (ℕ × Connection)
  pub calls : List SocketCall

-- `accept` has returned. The thread is taken to be created: where it is not, the constructor of
-- `std::thread` throws, which ends the server.
unfoldable pub accept_client : Listener → Option ℕ → Listener
accept_client l none = l
accept_client l (some fd) = record l {
  clients = l.clients ++ ((fd, receiving fresh) ∷ []);
  calls = opens_socket fd ∷ l.calls;
}

-- `closeSocket(clientFd)` at the end of `handleClient`.
abbrev pub close_at_end : ℕ → Connection → List SocketCall → List SocketCall
close_at_end fd (closed state) calls = closes_socket fd ∷ calls
close_at_end fd (receiving state) calls = calls
close_at_end fd (sending state reply) calls = calls
close_at_end fd (leaving state) calls = calls

unfoldable pub put_client : Listener → ℕ → ℕ → Connection → Listener
put_client l i fd c = record l {
  clients = set l.clients i (fd, c);
  calls = close_at_end fd c l.calls;
}

-- What the socket `k` is to a client's thread.
abbrev pub owns : ℕ → ℕ × Connection → ℕ
owns k (fd, closed state) = 0
owns k (fd, receiving state) = own fd k
owns k (fd, sending state reply) = own fd k
owns k (fd, leaving state) = own fd k

module _ (host : Host) (can_allocate : ℕ → Bool) where
  -- The loop goes round, or something happens to client `i`.
  pub data Serves (a : Answers) (argument : Argument) : Listener → Type 0 where
    begins :
        (port fd : ℕ) (calls : List SocketCall)
        → start_main a argument ≡ some (listens port fd calls)
        → Serves a argument (record { server_fd = fd; clients = []; calls = calls })
    accepts :
        (l : Listener) (client : Option ℕ)
        → Serves a argument l
        → Serves a argument (accept_client l client)
    happens :
        (l : Listener) (i fd : ℕ) (c c' : Connection)
        → Serves a argument l
        → get_elem? l.clients i ≡ some (fd, c)
        → Event host can_allocate c c'
        → Serves a argument (put_client l i fd c')

  -- A client's thread owns its socket until the step that closes it.
  abbrev Keeps : ℕ → ℕ → List SocketCall → Connection → Connection → Type 0
  Keeps k fd calls c c' =
      ((close_at_end fd c' calls ≡ calls) × (owns k (fd, c') ≡ owns k (fd, c)))
      ⊎ ((close_at_end fd c' calls ≡ closes_socket fd ∷ calls)
          × (owns k (fd, c) ≡ own fd k)
          × (owns k (fd, c') ≡ 0))

  Event-Keeps :
      {c c' : Connection} (k fd : ℕ) (calls : List SocketCall)
      → Event host can_allocate c c'
      → Keeps k fd calls c c'
  Event-Keeps k fd calls (answers state type payload after reply e) = inl (refl, refl)
  Event-Keeps k fd calls (recv_fails state) = inl (refl, refl)
  Event-Keeps k fd calls (sends state reply) = inl (refl, refl)
  Event-Keeps k fd calls (send_fails state reply) = inl (refl, refl)
  Event-Keeps k fd calls (works_receiving state after w) = inl (refl, refl)
  Event-Keeps k fd calls (works_sending state after reply w) = inl (refl, refl)
  Event-Keeps k fd calls (works_leaving state after w) = inl (refl, refl)
  Event-Keeps k fd calls (joins state w) = inr (refl, refl, refl)

  held-put :
      (l : Listener) (i fd k : ℕ) (c c' : Connection)
      → get_elem? l.clients i ≡ some (fd, c)
      → Keeps k fd l.calls c c'
      → held k l.calls ≡ some (own l.server_fd k + total (owns k) l.clients)
      → held k (close_at_end fd c' l.calls)
        ≡ some (own l.server_fd k + total (owns k) (set l.clients i (fd, c')))
  held-put l i fd k c c' here e h =
      let sums = total-set (owns k) l.clients i (fd, c) (fd, c') here in
      elim e [
        | inl (same, kept) ↦
            let sum : total (owns k) l.clients ≡ total (owns k) (set l.clients i (fd, c')) =
              omega (arith, sums, kept) in
            rw same (h ∙ ap (λ n. some (own l.server_fd k + n)) sum)
        | inr (ends, owned, gone) ↦
            rw ends (held-closes k fd _ _ l.calls h (omega (arith, sums, owned, gone)))
      ]

  -- However the loop of `main` and the threads of the clients have gone on: each socket is open as
  -- often as it is the one that listens or belongs to a client's thread that has not closed it yet,
  -- and no socket was closed that was not open.
  pub held-owned :
      {a : Answers} {argument : Argument} {l : Listener}
      → Serves a argument l
      → (k : ℕ) → held k l.calls ≡ some (own l.server_fd k + total (owns k) l.clients)
  unfolding start_main accept_client put_client
  held-owned {a} {argument} (begins port fd calls e) k =
      let (port', chosen, setup) = >>=-eq-some (port_of argument) _ e in
      let settles = subst (Settles a port') (eq_of_some _ _ setup) (set_up-Settles a port') in
      settles.2 k ∙ ap some (omega arith)
  held-owned (accepts l none s) k = held-owned s k
  held-owned (accepts l (some fd) s) k =
      let sum = total-append (owns k) l.clients ((fd, receiving fresh) ∷ []) in
      held-opens k fd _ _ l.calls (held-owned s k) (omega (arith, sum))
  held-owned (happens l i fd c c' s here e) k =
      held-put l i fd k c c' here (Event-Keeps k fd l.calls e) (held-owned s k)
