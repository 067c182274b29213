-- ===== src/Server/Connection.antt =====
-- The loop of `handleClient`: messages come until a call of `recv` or `send` fails; the worker goes on
-- meanwhile; then it is joined and the socket is closed.
use multithreading_labs.Base.{ℕ, ◌≡◌, refl, some, Bool, true, false, List, inl, inr, ◌⊎◌}
use multithreading_labs.Fork.{IsJoined}
use multithreading_labs.MinMax.{effective_threads}
use multithreading_labs.Protocol.{Host}
use multithreading_labs.Server.Lifecycle.{IsValid, status-cases, at}
use multithreading_labs.Server.Service.{
  Reach, connected, moves, Reach-IsValid, worker_finishes-done,
}
use multithreading_labs.Server.{
  StatusCode, idle, ready, failed, running, done, Worker, not_started, busy, ended, ClientState,
  Reply, fresh, replies, handle_message, worker_finishes, worker_fails, handled, finished, fails,
}

-- Where the client's thread stands: before `recvMessage`; with an answer to send; behind the loop;
-- behind the closing of the socket, where the state that the worker refers to is gone.
pub data Connection : Type 0 where
  receiving : ClientState → Connection
  sending : ClientState → Reply → Connection
  leaving : ClientState → Connection
  closed : ClientState → Connection

-- `if (state.worker.joinable()) state.worker.join();` would return.
abbrev pub can_join : Worker → Bool
can_join not_started = true
can_join (busy job) = false
can_join ended = true

running-cases : (status : StatusCode) → (status ≡ running) ⊎ ¬ (status ≡ running)
running-cases idle = inr (λ e. cc)
running-cases ready = inr (λ e. cc)
running-cases running = inl refl
running-cases done = inr (λ e. cc)
running-cases failed = inr (λ e. cc)

module _ (host : Host) (can_allocate : ℕ → Bool) where
  -- The worker ends, with a result or with an exception.
  pub data WorkerEnds (state : ClientState) : ClientState → Type 0 where
    finishes :
        (order : List ℕ) (after : ClientState)
        → IsJoined (effective_threads state.job.rows state.job.num_threads) order
        → worker_finishes state order ≡ some after
        → WorkerEnds state after
    throws : (after : ClientState) → worker_fails state ≡ some after → WorkerEnds state after

  pub data Event : Connection → Connection → Type 0 where
    answers :
        (state : ClientState) (type : ℕ) (payload : List ℕ) (after : ClientState) (reply : Reply)
        → handle_message host can_allocate state type payload ≡ replies after reply
        → Event (receiving state) (sending after reply)
    recv_fails : (state : ClientState) → Event (receiving state) (leaving state)
    sends : (state : ClientState) (reply : Reply) → Event (sending state reply) (receiving state)
    send_fails : (state : ClientState) (reply : Reply) → Event (sending state reply) (leaving state)
    works_receiving :
        (state after : ClientState)
        → WorkerEnds state after
        → Event (receiving state) (receiving after)
    works_sending :
        (state after : ClientState) (reply : Reply)
        → WorkerEnds state after
        → Event (sending state reply) (sending after reply)
    works_leaving :
        (state after : ClientState) → WorkerEnds state after → Event (leaving state) (leaving after)
    joins :
        (state : ClientState)
        → can_join state.worker ≡ true
        → Event (leaving state) (closed (record state { worker = not_started }))

  -- What a connection can become.
  pub data Runs : Connection → Connection → Type 0 where
    stays : (c : Connection) → Runs c c
    goes : {a b c : Connection} → Event a b → Runs b c → Runs a c

  pub data Meets : Connection → Type 0 where
    begins : Meets (receiving fresh)
    continues : {c c' : Connection} → Meets c → Event c c' → Meets c'

  -- Whatever the place, the state is one that messages and the worker lead to.
  abbrev Serves : Connection → Type 0
  Serves (receiving state) = Reach host can_allocate state
  Serves (sending state reply) = Reach host can_allocate state
  Serves (leaving state) = Reach host can_allocate state
  Serves (closed state) = (state.worker ≡ not_started) × (¬ (state.status ≡ running))

  -- Where the socket is closed no search is running and the worker is joined; else that place can
  -- be reached.
  abbrev pub Closes : Connection → Type 0
  Closes (closed last) = (¬ (last.status ≡ running)) × (last.worker ≡ not_started)
  Closes c = (last : ClientState) × Runs c (closed last)

  WorkerEnds-Reach :
      {state after : ClientState}
      → Reach host can_allocate state
      → WorkerEnds state after
      → Reach host can_allocate after
  WorkerEnds-Reach {state} r (finishes order after j e) = moves r (finished state order after j e)
  WorkerEnds-Reach {state} r (throws after e) = moves r (fails state after e)

  -- A worker that can be joined is not searching.
  can_join-quiet :
      (state : ClientState)
      → Reach host can_allocate state
      → can_join state.worker ≡ true
      → ¬ (state.status ≡ running)
  can_join-quiet state r joinable e =
      let (w, d, m) = at state e (Reach-IsValid host can_allocate state r) in
      let waits : can_join state.worker ≡ false = rw w refl in cc

  Event-Serves : {c c' : Connection} → Serves c → Event c c' → Serves c'
  Event-Serves r (answers state type payload after reply e) =
      moves r (handled state type payload after reply e)
  Event-Serves r (recv_fails state) = r
  Event-Serves r (sends state reply) = r
  Event-Serves r (send_fails state reply) = r
  Event-Serves r (works_receiving state after w) = WorkerEnds-Reach r w
  Event-Serves r (works_sending state after reply w) = WorkerEnds-Reach r w
  Event-Serves r (works_leaving state after w) = WorkerEnds-Reach r w
  Event-Serves r (joins state w) = (refl, can_join-quiet state r w)

  Meets-Serves : {c : Connection} → Meets c → Serves c
  Meets-Serves begins = connected
  Meets-Serves (continues m e) = Event-Serves (Meets-Serves m) e

  no_worker :
      (state : ClientState)
      → IsValid state
      → ¬ (state.status ≡ running)
      → can_join state.worker ≡ true
  no_worker state v n = elim (status-cases state.status) [
    | inl e ↦ let (w, h) = at state e v in rw w refl
    | inr (inl e) ↦ let (w, h, m) = at state e v in rw w refl
    | inr (inr (inl e)) ↦ absurd (n e)
    | inr (inr (inr (inl e))) ↦ let (w, h, m, x) = at state e v in rw w refl
    | inr (inr (inr (inr e))) ↦ let (w, h, m) = at state e v in rw w refl
  ]

  module _ (orders : ℕ → List ℕ) (joined : (n : ℕ) → IsJoined n (orders n)) where
    -- Behind the loop: the search, if one runs, ends, and the worker is joined.
    leaving-closed :
        (state : ClientState)
        → Reach host can_allocate state
        → (last : ClientState) × Runs (leaving state) (closed last)
    leaving-closed state r = elim (running-cases state.status) [
      | inr quiet ↦ (
        record state { worker = not_started },
        goes (joins state (no_worker state (Reach-IsValid host can_allocate state r) quiet))
            (stays _),
      )
      | inl busy_ ↦
          let j = joined (effective_threads state.job.rows state.job.num_threads) in
          let (after, run, d, h) = worker_finishes-done host can_allocate state r busy_ _ j in
          let ends = finishes _ after j run in
          let over : ¬ (after.status ≡ running) = λ e. cc in
          let v = Reach-IsValid host can_allocate after (WorkerEnds-Reach r ends) in
          (
            record after { worker = not_started },
            goes (works_leaving state after ends)
                (goes (joins after (no_worker after v over)) (stays _)),
          )
    ]

    -- However a connection has gone: where its socket is closed, no search is running and the worker
    -- is joined; at every other place it can come to its end, in whatever order the threads of a
    -- search finish: the search, if one runs, ends, the worker is joined and the socket is closed.
    pub Meets-Closes : (c : Connection) → Meets c → Closes c
    Meets-Closes (receiving state) m =
        let (last, run) = leaving-closed state (Meets-Serves m) in
        (last, goes (recv_fails state) run)
    Meets-Closes (sending state reply) m =
        let (last, run) = leaving-closed state (Meets-Serves m) in
        (last, goes (send_fails state reply) run)
    Meets-Closes (leaving state) m = leaving-closed state (Meets-Serves m)
    Meets-Closes (closed last) m = let (joined_, quiet) = Meets-Serves m in (quiet, joined_)
