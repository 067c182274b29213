-- ===== src/HttpServer/Listening.antt =====
-- `main` of lab_5/src/server.cpp: the socket that listens, and the threads that it starts.
use multithreading_labs.Base.{
  ℕ, suc, ◌+◌, ◌-◌, ◌≡◌, refl, sym, ap, subst, inl, inr, ◌∙◌, Option, none, some, Bool, true, false,
  not, List, [], ◌∷◌, ◌++◌, pos, ltb_ℤ, ◌==◌, if◌then◌else◌, arith, get_elem?, set, total,
  total-append, total-set, Bool-cases, Option-cases,
}
use multithreading_labs.Sockets.{
  SocketCall, starts_sockets, opens_socket, closes_socket, Answers, held, startups, own, held-opens,
  held-closes, held-opened,
}

-- `main` has returned, or it has come to its loop.
pub data Setup : Type 0 where
  exits : (code : ℕ) → List SocketCall → Setup
  listens : (server_socket : ℕ) → List SocketCall → Setup

unfoldable pub set_up : Answers → Setup
set_up a = if not (a.wsa_startup == 0) then exits 1 [] else elim a.socket [
  | none ↦ exits 1 (starts_sockets ∷ [])
  | some fd ↦
      let calls = opens_socket fd ∷ starts_sockets ∷ [] in
      let failed = exits 1 (closes_socket fd ∷ calls) in
      if ltb_ℤ a.setsockopt (pos 0)
      then failed
      else if ltb_ℤ a.bind (pos 0)
      then failed
      else if ltb_ℤ a.listen (pos 0)
      then failed
      else listens fd calls
]

-- All calls of `main` before its loop succeed.
abbrev pub AllSucceed : Answers → ℕ → Type 0
AllSucceed a fd =
    (a.wsa_startup ≡ 0)
    × (a.socket ≡ some fd)
    × (ltb_ℤ a.setsockopt (pos 0) ≡ false)
    × (ltb_ℤ a.bind (pos 0) ≡ false)
    × (ltb_ℤ a.listen (pos 0) ≡ false)

-- `main` has failed and closed its socket, but still holds the library, if that was started; or it
-- listens.
abbrev pub LeavesLibrary : Answers → Setup → Type 0
LeavesLibrary a (exits code calls) =
    (code ≡ 1)
    × ((k : ℕ) → held k calls ≡ some 0)
    × (startups calls ≡ some (if a.wsa_startup == 0 then 1 else 0))
    × ((fd : ℕ) → ¬ AllSucceed a fd)
LeavesLibrary a (listens fd calls) =
    AllSucceed a fd × ((k : ℕ) → held k calls ≡ some (own fd k)) × (startups calls ≡ some 1)

closed-again :
    (fd k : ℕ) → held k (closes_socket fd ∷ opens_socket fd ∷ starts_sockets ∷ []) ≡ some 0
closed-again fd k = ground arith

library_started :
    (a : Answers) (b : Bool)
    → (a.wsa_startup == 0) ≡ b
    → ◌≡◌ {A = Option ℕ} (some (if b then 1 else 0)) (some (if a.wsa_startup == 0 then 1 else 0))
library_started a b h = ap (λ (b : Bool). some (if b then 1 else 0)) (sym h)

-- Whatever the socket library answers: `main` returns 1 exactly when a call fails, with its sockets
-- closed, but the library, if it was started, is not given back; or it listens, and holds the socket
-- that listens.
pub set_up-LeavesLibrary : (a : Answers) → LeavesLibrary a (set_up a)
unfolding set_up
set_up-LeavesLibrary a = elim (Bool-cases (a.wsa_startup == 0)) [
  | inr no_library ↦ rw no_library (
    refl,
    (λ k. refl),
    library_started a false no_library,
    λ fd h. let zero_ = h.0 in ground arith,
  )
  | inl library ↦ elim (Option-cases a.socket) [
    | inl no_socket ↦
        rw (library, no_socket)
          (refl, (λ k. refl), library_started a true library, λ fd h. let s = h.1 in cc)
    | inr (fd, opened) ↦ elim (Bool-cases (ltb_ℤ a.setsockopt (pos 0))) [
      | inl bad ↦
          rw (library, opened, bad)
            (refl, closed-again fd, library_started a true library, λ fd' h. let s = h.2 in cc)
      | inr o ↦ elim (Bool-cases (ltb_ℤ a.bind (pos 0))) [
        | inl bad ↦
            rw (library, opened, o, bad)
              (refl, closed-again fd, library_started a true library, λ fd' h. let s = h.3 in cc)
        | inr b ↦ elim (Bool-cases (ltb_ℤ a.listen (pos 0))) [
          | inl bad ↦
              rw (library, opened, o, b, bad)
                (refl, closed-again fd, library_started a true library, λ fd' h. let s = h.4 in cc)
          | inr l ↦
              rw (library, opened, o, b, l) ((ground arith, refl, cc, cc, cc), held-opened fd, refl)
        ]
      ]
    ]
  ]
]

-- The loop of `main`. A client is `none` when its thread has ended; `owned_sockets` counts the values
-- on the heap that carry a socket to its thread.
pub record Listener : Type 0 where
  pub server_socket : ℕ
  pub clients : List (Option ℕ)
  pub calls : List SocketCall
  pub owned_sockets : ℕ

-- What `accept`, `new (std::nothrow)` and `_beginthreadex` return in a round of the loop.
pub record Round : Type 0 where
  pub accepted : Option ℕ
  pub allocates : Bool
  pub thread : ℕ

unfoldable pub take_client : Listener → Round → ℕ → Listener
take_client l r fd =
    let calls = opens_socket fd ∷ l.calls in
    let refused = record l { calls = closes_socket fd ∷ calls } in
    if not r.allocates then refused else if r.thread == 0 then refused else record l {
      clients = l.clients ++ (some fd ∷ []);
      calls = calls;
      owned_sockets = suc l.owned_sockets;
    }

unfoldable pub accept_round : Listener → Round → Listener
unfolding take_client
accept_round l r = elim r.accepted [ none ↦ l | some fd ↦ take_client l r fd ]

-- The end of `handle_client` for client `i`: the socket is closed, and its owner goes.
unfoldable pub client_ends : Listener → ℕ → ℕ → Listener
client_ends l i fd = record l {
  clients = set l.clients i none;
  calls = closes_socket fd ∷ l.calls;
  owned_sockets = l.owned_sockets - 1;
}

pub data Serves (a : Answers) : Listener → Type 0 where
  begins :
      (fd : ℕ) (calls : List SocketCall)
      → set_up a ≡ listens fd calls
      → Serves a (record { server_socket = fd; clients = []; calls = calls; owned_sockets = 0 })
  accepts : (l : Listener) (r : Round) → Serves a l → Serves a (accept_round l r)
  ends :
      (l : Listener) (i fd : ℕ)
      → Serves a l
      → get_elem? l.clients i ≡ some (some fd)
      → Serves a (client_ends l i fd)

abbrev pub owns : ℕ → Option ℕ → ℕ
owns k none = 0
owns k (some fd) = own fd k

abbrev pub running : Option ℕ → ℕ
running none = 0
running (some fd) = 1

-- What holds in the loop of `main`.
pub record Owned (l : Listener) : Type 0 where
  pub sockets : (k : ℕ) → held k l.calls ≡ some (own l.server_socket k + total (owns k) l.clients)
  pub owners : l.owned_sockets ≡ total running l.clients
  pub library : startups l.calls ≡ some 1

held-refused :
    (k fd n : ℕ) (calls : List SocketCall)
    → held k calls ≡ some n
    → held k (closes_socket fd ∷ opens_socket fd ∷ calls) ≡ some n
held-refused k fd n calls h =
    held-closes k fd _ n (opens_socket fd ∷ calls) (held-opens k fd n _ calls h refl) refl

refused-Owned :
    (l : Listener) (fd : ℕ)
    → Owned l
    → Owned (record l { calls = closes_socket fd ∷ opens_socket fd ∷ l.calls })
refused-Owned l fd o = record {
  sockets = λ k. held-refused k fd _ l.calls (o.sockets k);
  owners = o.owners;
  library = o.library;
}

take_client-Owned : (l : Listener) (r : Round) (fd : ℕ) → Owned l → Owned (take_client l r fd)
unfolding take_client
take_client-Owned l r fd o = elim (Bool-cases r.allocates) [
  | inr no_memory ↦ rw no_memory (refused-Owned l fd o)
  | inl memory ↦ elim (Bool-cases (r.thread == 0)) [
    | inl no_thread ↦ rw (memory, no_thread) (refused-Owned l fd o)
    | inr thread ↦
        rw (memory, thread)
          (record {
            sockets = λ k.
                held-opens k fd _ _ l.calls (o.sockets k)
                  (omega (arith, total-append (owns k) l.clients (some fd ∷ [])));
            owners = omega (arith, o.owners, total-append running l.clients (some fd ∷ []));
            library = o.library;
          })
  ]
]

accept_round-Owned : (l : Listener) (r : Round) → Owned l → Owned (accept_round l r)
unfolding accept_round
accept_round-Owned l r o = elim (Option-cases r.accepted) [
  | inl nobody ↦ rw nobody o
  | inr (fd, client) ↦ rw client (take_client-Owned l r fd o)
]

client_ends-Owned :
    (l : Listener) (i fd : ℕ)
    → get_elem? l.clients i ≡ some (some fd)
    → Owned l
    → Owned (client_ends l i fd)
unfolding client_ends
client_ends-Owned l i fd here o = record {
  sockets = λ k.
      held-closes k fd _ _ l.calls (o.sockets k)
        (omega (arith, total-set (owns k) l.clients i (some fd) none here));
  owners = omega (arith, o.owners, total-set running l.clients i (some fd) none here);
  library = o.library;
}

-- However the loop of `main` and the threads of the clients have gone on: each socket is open as
-- often as it is the one that listens or belongs to a client whose thread has not ended, no socket
-- was closed that was not open, there is one value on the heap for each such thread, and the library
-- is started.
pub Serves-Owned : {a : Answers} {l : Listener} → Serves a l → Owned l
Serves-Owned {a} (begins fd calls e) =
    let settles = subst (LeavesLibrary a) e (set_up-LeavesLibrary a) in
    record {
      sockets = λ k. settles.1 k ∙ ap some (omega arith);
      owners = refl;
      library = settles.2;
    }
Serves-Owned (accepts l r s) = accept_round-Owned l r (Serves-Owned s)
Serves-Owned (ends l i fd s here) = client_ends-Owned l i fd here (Serves-Owned s)
