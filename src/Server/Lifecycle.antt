-- ===== src/Server/Lifecycle.antt =====
-- What each handler makes of one client's state.
use multithreading_labs.Base.{
  ℕ, ◌≡◌, refl, subst, Bool, true, false, List, ◌==◌, Bool-cases, inl, inr, ◌⊎◌,
}
use multithreading_labs.MinMax.Extrema.{MinMax}
use multithreading_labs.MinMax.Sequential.{IsExtremaOf}
use multithreading_labs.Protocol.{Host, msg_data, msg_start, msg_status}
use multithreading_labs.Server.Payload.{HasMatrix, parse_data-HasMatrix}
use multithreading_labs.Server.{
  StatusCode, idle, ready, running, done, failed, already_running, Job, not_started, busy, ended,
  ClientState, Reply, Outcome, replies, deadlocks, terminates, error_reply, Parsed, malformed,
  too_large, parsed, store_job, store_parsed, parse_data, handle_data_command, handle_start_command,
  handle_status_command, handle_message,
}

abbrev pub result : ClientState → MinMax
result state = record { min_value = state.min_value; max_value = state.max_value }

-- How status, worker, data and result belong together.
abbrev pub Phase : StatusCode → ClientState → Type 0
Phase idle state = (state.worker ≡ not_started) × (state.has_data ≡ false)
Phase ready state = (state.worker ≡ not_started) × (state.has_data ≡ true) × HasMatrix state.job
Phase running state =
    (state.worker ≡ busy state.job) × (state.has_data ≡ true) × HasMatrix state.job
Phase done state =
    (state.worker ≡ ended)
    × (state.has_data ≡ true)
    × HasMatrix state.job
    × IsExtremaOf state.job.values (result state)
Phase failed state = (state.worker ≡ ended) × (state.has_data ≡ true) × HasMatrix state.job

abbrev pub IsValid : ClientState → Type 0
IsValid state = Phase state.status state

-- A handler that replies leaves a valid state, and none waits for ever for the worker.
abbrev pub Keeps : Outcome → Type 0
Keeps (replies next reply) = IsValid next
Keeps deadlocks = ⊥
Keeps terminates = Unit

pub status-cases :
    (s : StatusCode) → (s ≡ idle) ⊎ (s ≡ ready) ⊎ (s ≡ running) ⊎ (s ≡ done) ⊎ (s ≡ failed)
status-cases idle = inl refl
status-cases ready = inr (inl refl)
status-cases running = inr (inr (inl refl))
status-cases done = inr (inr (inr (inl refl)))
status-cases failed = inr (inr (inr (inr refl)))

pub at : (state : ClientState) {s : StatusCode} → state.status ≡ s → IsValid state → Phase s state
at state e v = subst (λ (s : StatusCode). Phase s state) e v

module _ (state : ClientState) (v : IsValid state) where
  store_job-Keeps :
      (job : Job) (refusal : Reply) → HasMatrix job → Keeps (store_job state job refusal)
  unfolding store_job
  store_job-Keeps job refusal m = elim (status-cases state.status) [
    | inl e ↦ let (w, h) = at state e v in rw (e, w) (refl, refl, m)
    | inr (inl e) ↦ let (w, d, m') = at state e v in rw (e, w) (refl, refl, m)
    | inr (inr (inl e)) ↦ rw e (at state e v)
    | inr (inr (inr (inl e))) ↦ let (w, d, m', x) = at state e v in rw (e, w) (refl, refl, m)
    | inr (inr (inr (inr e))) ↦ let (w, d, m') = at state e v in rw (e, w) (refl, refl, m)
  ]

  module _ (host : Host) where
    handle_start_command-Keeps : Keeps (handle_start_command host state)
    unfolding handle_start_command
    handle_start_command-Keeps = elim (Bool-cases state.has_data) [
      | inr none_yet ↦ simp none_yet v
      | inl has ↦ elim (status-cases state.status) [
        | inl e ↦ let (w, h) = at state e v in absurd (cc)
        | inr (inl e) ↦ let (w, d, m) = at state e v in rw (has, e, w) (refl, d, m)
        | inr (inr (inl e)) ↦ rw (has, e) v
        | inr (inr (inr (inl e))) ↦ let (w, d, m', x) = at state e v in rw (has, e, w) tt
        | inr (inr (inr (inr e))) ↦ let (w, d, m') = at state e v in rw (has, e, w) tt
      ]
    ]

module _ (host : Host) (can_allocate : ℕ → Bool) where
  store_parsed-Keeps :
      (state : ClientState)
      → IsValid state
      → (p : Parsed) → ((job : Job) → p ≡ parsed job → HasMatrix job)
      → Keeps (store_parsed host state p)
  unfolding store_parsed
  store_parsed-Keeps state v malformed m = v
  store_parsed-Keeps state v too_large m = tt
  store_parsed-Keeps state v (parsed job) m =
      store_job-Keeps state v job (error_reply host already_running) (m job refl)

  handle_data_command-Keeps :
      (state : ClientState)
      → IsValid state
      → (payload : List ℕ) → Keeps (handle_data_command host can_allocate state payload)
  unfolding handle_data_command
  handle_data_command-Keeps state v payload =
      store_parsed-Keeps state v (parse_data host can_allocate payload)
        (parse_data-HasMatrix host can_allocate payload)

  pub handle_message-Keeps :
      (state : ClientState)
      → IsValid state
      → (type : ℕ) (payload : List ℕ) → Keeps (handle_message host can_allocate state type payload)
  unfolding handle_message handle_status_command
  handle_message-Keeps state v type payload = elim (Bool-cases (type == msg_data)) [
    | inl e ↦ rw e (handle_data_command-Keeps state v payload)
    | inr e ↦ elim (Bool-cases (type == msg_start)) [
      | inl e' ↦ rw (e, e') (handle_start_command-Keeps state v host)
      | inr e' ↦ elim (Bool-cases (type == msg_status)) [
        | inl e2 ↦ rw (e, e', e2) v
        | inr e2 ↦ rw (e, e', e2) v
      ]
    ]
  ]
