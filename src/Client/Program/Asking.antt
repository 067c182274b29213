-- ===== src/Client/Program/Asking.antt =====
-- The client's loop that asks for the status, and the loop of `handleClient`: each gets the bytes that
-- the other sends.
use mathlib.Core.List.{append_cancel_left}
use multithreading_labs.Base.{
  ℕ, zero, suc, ◌*◌, ◌≤◌, ◌<◌, ◌≡◌, refl, sym, ap, ◌∙◌, some, none, true, Bool, List, [], ◌∷◌, ◌++◌,
  arith, ℤ, length, All, drop,
}
use multithreading_labs.Blocks.Slices.{concat}
use multithreading_labs.MinMax.Extrema.{MinMax}
use multithreading_labs.Protocol.{Host, Incoming, msg_status, msg_status_resp, send_message}
use multithreading_labs.Protocol.Streams.{IsOpen, Sends}
use multithreading_labs.Protocol.Messages.{wire_message}
use multithreading_labs.Server.{Job, fresh, status_reply, running, done, no_error}
use multithreading_labs.Client.{
  StatusReport, Ending, recv_expected, read_status, poll, judge, shows, behind,
}
use multithreading_labs.Client.Report.{read_status-status_reply}
use multithreading_labs.Client.Session.{searching, searched}
use multithreading_labs.Client.Polling.{ask, hear, questions}
use multithreading_labs.Client.Program.Dialogue.{
  serve, rounds_until, nothing_yet, serve-heard, serve-ends, searching-status, Completes,
}

pub drop-append : (xs ys : List ℕ) → drop (length xs) (xs ++ ys) ≡ ys
drop-append [] ys = refl
drop-append (x ∷ xs) ys = drop-append xs ys

-- What is sent behind a message.
abbrev pub rest_behind : Host → ℕ → List ℕ → List ℕ → List ℕ
rest_behind host type payload wire = drop (length (wire_message host type payload)) wire

pub behind-front :
    (host : Host) (type : ℕ) (payload more : List ℕ)
    → wire_message host type payload ++ more
      ≡ wire_message host type payload
        ++ rest_behind host type payload (wire_message host type payload ++ more)
behind-front host type payload more =
    ap (◌++◌ (wire_message host type payload))
      (sym (drop-append (wire_message host type payload) more))

-- A round of the loop, on its answers.
module _ (host : Host) (rounds : ℕ) (results left : List ℤ) (answers : Incoming)
    (sent : send_message host results msg_status [] 0
      ≡ some (record { ok = true; wire = wire_message host msg_status []; results = left })) where
  poll-asks :
      (poll host (suc rounds) results answers).1
      ≡ wire_message host msg_status []
        ++ rest_behind host msg_status [] (poll host (suc rounds) results answers).1
  unfolding poll
  poll-asks = rw (poll, sent) (behind-front host msg_status [] _)

  poll-goes_on :
      (payload : List ℕ) (after : Incoming) (report : StatusReport)
      → recv_expected host answers msg_status_resp ≡ some (payload, after)
      → read_status host payload ≡ some report
      → judge report ≡ none
      → poll host (suc rounds) results answers
        ≡ behind (wire_message host msg_status []) (poll host rounds left after)
  unfolding poll
  poll-goes_on payload after report heard read on = rw (poll, sent, heard, read, on) refl

  poll-ends :
      (payload : List ℕ) (after : Incoming) (report : StatusReport) (ending : Ending)
      → recv_expected host answers msg_status_resp ≡ some (payload, after)
      → read_status host payload ≡ some report
      → judge report ≡ some ending
      → poll host (suc rounds) results answers ≡ (ending, questions host 1)
  unfolding poll
  poll-ends payload after report ending heard read on = rw (poll, sent, heard, read, on) refl

module _ (host : Host) (can_allocate : ℕ → Bool) (job : Job) (order : List ℕ) (r : MinMax)
    (c : Completes host can_allocate job order r) where
  pub poll-serve :
      (n rounds : ℕ) (results : List ℤ) (answers asked : Incoming)
      → n < rounds
      → All Sends results
      → 12 * rounds ≤ length results
      → IsOpen answers
      → IsOpen asked
      → concat asked ≡ (poll host rounds results answers).1
      → serve host can_allocate (searching fresh job) asked (rounds_until n order)
        ≡ some (concat answers)
      → poll host rounds results answers ≡ (shows r.min_value r.max_value, questions host (suc n))
  unfolding judge status_reply
  poll-serve n zero results answers asked few s enough o o' e run = absurd (omega arith)
  poll-serve zero (suc rounds) results answers asked few s enough o o' e run =
      let (left, sent, s', more) = ask host results s (omega (arith, enough)) in
      let more_bytes = rest_behind host msg_status [] (poll host (suc rounds) results answers).1 in
      let first : (poll host (suc rounds) results answers).1
          ≡ wire_message host msg_status [] ++ more_bytes =
        poll-asks host rounds results left answers sent in
      let (left', bytes, later, front, others, o'') =
        serve-heard host can_allocate (searched fresh job r) (searched fresh job r) msg_status [] _
          asked more_bytes [] (concat answers) (omega arith) (omega arith) c.shown o' (e ∙ first)
          (sym (serve-ends host can_allocate job order r asked c) ∙ run) in
      let (after, heard, rest, o3) = hear host done r answers bytes c.fits.0 c.fits.1 o front in
      let read = read_status-status_reply host done r no_error c.fits.0 c.fits.1 in
      poll-ends host rounds results left answers sent _ after _ _ heard read refl
  poll-serve (suc n) (suc rounds) results answers asked few s enough o o' e run =
      let old = nothing_yet in
      let (left, sent, s', more) = ask host results s (omega (arith, enough)) in
      let more_bytes = rest_behind host msg_status [] (poll host (suc rounds) results answers).1 in
      let first : (poll host (suc rounds) results answers).1
          ≡ wire_message host msg_status [] ++ more_bytes =
        poll-asks host rounds results left answers sent in
      let (left', bytes, later, front, others, o'') =
        serve-heard host can_allocate (searching fresh job) (searching fresh job) msg_status [] _
          asked more_bytes (rounds_until n order) (concat answers) (omega arith) (omega arith)
          (searching-status host can_allocate job) o' (e ∙ first) run in
      let (after, heard, rest, o3) =
        hear host running old answers bytes (omega arith) (omega arith) o front in
      let read = read_status-status_reply host running old no_error (omega arith) (omega arith) in
      let next : poll host (suc rounds) results answers
          ≡ behind (wire_message host msg_status []) (poll host rounds left after) =
        poll-goes_on host rounds results left answers sent _ after _ heard read refl in
      let same =
        append_cancel_left (wire_message host msg_status []) more_bytes
          (poll host rounds left after).1 (sym first ∙ ap (λ p. p.1) next) in
      next
      ∙ ap (behind (wire_message host msg_status [])) (
          poll-serve n rounds left after left' (omega (arith, few)) s' (omega (arith, enough, more))
            o3 o'' (others ∙ same) (later ∙ ap some (sym rest)))
