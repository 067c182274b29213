-- ===== src/Tests/Service.antt =====
-- A client with a matrix of two rows and two columns.
use multithreading_labs.Base.{
  ℕ, ◌^◌, ◌≡◌, refl, ap, arith, inl, some, Bool, true, List, [], ◌∷◌, pos, negsuc, ltb,
}
use multithreading_labs.Fork.{IsJoined}
use multithreading_labs.Blocks.{blocks}
use multithreading_labs.MinMax.{effective_threads, find_min_max_parallel}
use multithreading_labs.MinMax.Extrema.{MinMax, absorb, merge}
use multithreading_labs.MinMax.Parallel.{IsMatrix}
use multithreading_labs.MinMax.Sequential.{IsExtremaOf}
use multithreading_labs.Protocol.{read_u32}
use multithreading_labs.Client.{data_payload, read_status}
use multithreading_labs.Client.Upload.{parse_data-data_payload}
use multithreading_labs.Client.Session.{whole_session, acknowledges}
use multithreading_labs.Client.Session
use multithreading_labs.Server.{
  Reply, running, done, no_error, Job, busy, ClientState, fresh, replies, deadlocks, terminates,
  status_reply, Sizes, read_sizes, store_parsed, store_job, parsed, parse_data, handle_data_command,
  handle_start_command, handle_message, worker_finishes, handled, finished, ready, not_started,
  ended,
}
use multithreading_labs.Server.Lifecycle.{IsValid}
use multithreading_labs.Server.Oversize.{handle_data_command-wraps}
use multithreading_labs.Server.Service.{
  Reach, connected, moves, Reach-IsValid, handle_message-never_deadlocks,
  handle_start_command-terminates,
}
use multithreading_labs.Server.Connection.{
  Meets, begins, continues, leaving, answers, sends, send_fails, Closes, Meets-Closes,
}
use multithreading_labs.Tests.{IsJoined-two}
use multithreading_labs.Tests.Machine.{x86}
use multithreading_labs.Tests.Search.{down_from, down_from-IsJoined}

abbrev small : ℕ → Bool
small n = ltb n 1000

abbrev job : Job
job = record { values = pos 3 ∷ negsuc 4 ∷ pos 9 ∷ pos 1 ∷ []; rows = 2; cols = 2; num_threads = 2 }

job-IsMatrix : IsMatrix job.values job.rows job.cols
job-IsMatrix = record {
  has_row = omega arith;
  has_col = omega arith;
  area = refl;
  fits = omega arith;
}

small-parsed :
    parse_data x86 small (data_payload x86 job.rows job.cols job.num_threads job.values)
    ≡ parsed job
small-parsed =
    parse_data-data_payload x86 job job-IsMatrix (omega arith) (omega arith) (omega arith)
      (omega arith, (omega arith, (omega arith, (omega arith, tt)))) (omega arith) small refl

abbrev extrema : MinMax
extrema = record { min_value = negsuc 4; max_value = pos 9 }

-- The states after DATA, after START and when the worker is done.
abbrev loaded : ClientState
loaded = record fresh {
  job = job;
  status = ready;
  error = no_error;
  has_data = true;
  worker = not_started;
}

abbrev searching : ClientState
searching = record loaded { status = running; error = no_error; worker = busy job }

abbrev searched : ClientState
searched = record searching {
  min_value = extrema.min_value;
  max_value = extrema.max_value;
  status = done;
  error = no_error;
  worker = ended;
}

abbrev upload : List ℕ
upload = data_payload x86 2 2 2 (pos 3 ∷ negsuc 4 ∷ pos 9 ∷ pos 1 ∷ [])

loaded-Reach : Reach x86 small loaded
unfolding handle_message handle_data_command store_parsed store_job fresh
loaded-Reach = moves connected (
    handled fresh 1 upload loaded (record { type = 101; payload = [] })
      (ap (store_parsed x86 fresh) small-parsed))

searching-Reach : Reach x86 small searching
unfolding handle_message handle_start_command fresh
searching-Reach =
    moves loaded-Reach (handled loaded 2 [] searching (record { type = 102; payload = [] }) refl)

searching-IsJoined :
    IsJoined (effective_threads searching.job.rows searching.job.num_threads) (1 ∷ 0 ∷ [])
unfolding effective_threads
searching-IsJoined = IsJoined-two

searched-Reach : Reach x86 small searched
unfolding worker_finishes find_min_max_parallel blocks absorb merge
searched-Reach =
    moves searching-Reach (finished searching (1 ∷ 0 ∷ []) searched searching-IsJoined refl)

Reach-IsValid_example : IsValid searched
Reach-IsValid_example = Reach-IsValid x86 small searched searched-Reach

-- A new matrix may come while the old one is searched.
handle_message-never_deadlocks_example : ¬ (handle_message x86 small searching 1 upload ≡ deadlocks)
handle_message-never_deadlocks_example =
    handle_message-never_deadlocks x86 small searching searching-Reach 1 upload

handle_start_command-terminates_example : handle_start_command x86 searched ≡ terminates
handle_start_command-terminates_example =
    handle_start_command-terminates x86 small searched searched-Reach (inl refl)

-- 2 ^ 31 rows and columns, and no value.
abbrev bomb : List ℕ
bomb = 128 ∷ 0 ∷ 0 ∷ 0 ∷ 128 ∷ 0 ∷ 0 ∷ 0 ∷ 0 ∷ 0 ∷ 0 ∷ 1 ∷ []

abbrev bomb_sizes : Sizes
bomb_sizes = record { rows = 2 ^ 31; cols = 2 ^ 31; num_threads = 1; offset = 12 }

bomb_sizes-read : read_sizes x86 bomb ≡ some bomb_sizes
unfolding read_sizes read_u32
bomb_sizes-read = refl

handle_data_command-wraps_example : handle_data_command x86 small fresh bomb ≡ terminates
handle_data_command-wraps_example =
    handle_data_command-wraps x86 small bomb bomb_sizes bomb_sizes-read refl (omega arith)
      (omega arith) refl refl fresh

idle_at_first : ¬ (fresh.status ≡ running)
unfolding fresh
idle_at_first e = cc

whole_session_example :
    (r : MinMax) × IsExtremaOf job.values r
    × (handle_message x86 small fresh 1
          (data_payload x86 job.rows job.cols job.num_threads job.values)
        ≡ acknowledges (Session.loaded fresh job) 101)
    × (handle_message x86 small (Session.loaded fresh job) 2 []
        ≡ acknowledges (Session.searching fresh job) 102)
    × (worker_finishes (Session.searching fresh job) (1 ∷ 0 ∷ [])
        ≡ some (Session.searched fresh job r))
    × (handle_message x86 small (Session.searched fresh job r) 3 []
        ≡ replies
            (Session.searched fresh job r)
            (status_reply x86 done r.min_value r.max_value no_error))
    × (read_status x86 (status_reply x86 done r.min_value r.max_value no_error).payload
        ≡ some (record { status = 3; min_value = r.min_value; max_value = r.max_value; error = 0 }))
whole_session_example =
    whole_session x86 small job job-IsMatrix (omega arith) (omega arith) (omega arith)
      (omega arith, (omega arith, (omega arith, (omega arith, tt)))) (omega arith) refl fresh
      connected idle_at_first (1 ∷ 0 ∷ []) searching-IsJoined

-- The client is gone when the server answers START.
left_while_searching : Meets x86 small (leaving searching)
unfolding handle_message handle_data_command store_parsed store_job handle_start_command fresh
left_while_searching =
    let data_ok : Reply = record { type = 101; payload = [] } in
    let start_ok : Reply = record { type = 102; payload = [] } in
    let told =
      continues begins
        (answers fresh 1 upload loaded data_ok (ap (store_parsed x86 fresh) small-parsed)) in
    let asked =
      continues (continues told (sends loaded data_ok))
        (answers loaded 2 [] searching start_ok refl) in
    continues asked (send_fails searching start_ok)

-- At the end of a run, where the client's thread has nothing more to do but to wait.
Meets-Closes_example : Closes x86 small (leaving searching)
Meets-Closes_example =
    Meets-Closes x86 small down_from down_from-IsJoined (leaving searching) left_while_searching
