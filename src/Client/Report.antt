-- ===== src/Client/Report.antt =====
-- What the server answers to STATUS is what the client reads.
use multithreading_labs.Base.{
  ℕ, ◌^◌, ◌<◌, ◌≡◌, refl, ap, some, List, [], ◌++◌, arith, length, size_mod,
}
use multithreading_labs.MinMax.Extrema.{MinMax}
use multithreading_labs.Protocol.Words.{
  IsInt32, append_u32-be_32, append_i32-be_32, drop-next, read_u32-at, read_i32-at,
  signed_32-unsigned_32, unsigned_32-lt,
}
use multithreading_labs.Protocol.{Host, be_32, unsigned_32}
use multithreading_labs.Server.{
  StatusCode, idle, ready, running, done, failed, ErrorCode, no_error, invalid_payload, no_data,
  already_running, internal, status_number, error_number, status_reply,
}
use multithreading_labs.Client.{read_status}

status_number-lt : (status : StatusCode) → status_number status < 2 ^ 32
status_number-lt idle = omega arith
status_number-lt ready = omega arith
status_number-lt running = omega arith
status_number-lt done = omega arith
status_number-lt failed = omega arith

error_number-lt : (error : ErrorCode) → error_number error < 2 ^ 32
error_number-lt no_error = omega arith
error_number-lt invalid_payload = omega arith
error_number-lt no_data = omega arith
error_number-lt already_running = omega arith
error_number-lt internal = omega arith

module _ (host : Host) (status : StatusCode) (r : MinMax) (error : ErrorCode)
    (min_fits : IsInt32 r.min_value) (max_fits : IsInt32 r.max_value) where
  abbrev answer : List ℕ
  answer = (status_reply host status r.min_value r.max_value error).payload

  answer-words :
      answer
      ≡ be_32 (status_number status)
        ++ (be_32 (unsigned_32 r.min_value)
            ++ (be_32 (unsigned_32 r.max_value) ++ be_32 (error_number error)))
  unfolding status_reply
  answer-words = rw (append_u32-be_32 host [] (status_number status) (status_number-lt status)) (
      rw (append_i32-be_32 host (be_32 (status_number status)) r.min_value) (
        rw
          (append_i32-be_32 host (be_32 (status_number status) ++ be_32 (unsigned_32 r.min_value))
            r.max_value)
          (rw
            (append_u32-be_32 host
              (be_32 (status_number status)
                ++ (be_32 (unsigned_32 r.min_value) ++ be_32 (unsigned_32 r.max_value)))
              (error_number error) (error_number-lt error))
            refl)))

  pub status_reply-length : length answer ≡ 16
  status_reply-length = ap length answer-words

  -- The client reads from the answer to STATUS the status, the two extrema and the error code that
  -- the server put into it, where the extrema are 32-bit integers.
  pub read_status-status_reply :
      read_status host (status_reply host status r.min_value r.max_value error).payload
      ≡ some (record {
        status = status_number status;
        min_value = r.min_value;
        max_value = r.max_value;
        error = error_number error;
      })
  unfolding read_status
  read_status-status_reply =
      let fits : length answer < size_mod = omega (arith, ap length answer-words) in
      let known = status_number-lt status in
      let min = unsigned_32-lt r.min_value in
      let max = unsigned_32-lt r.max_value in
      let at_min = drop-next host answer 0 (status_number status) _ answer-words known fits in
      let at_max = drop-next host answer 4 (unsigned_32 r.min_value) _ at_min min fits in
      let at_error = drop-next host answer 8 (unsigned_32 r.max_value) _ at_max max fits in
      rw (read_u32-at host answer 0 (status_number status) _ answer-words known fits) (
        rw (read_i32-at host answer 4 (unsigned_32 r.min_value) _ at_min min fits) (
          rw (read_i32-at host answer 8 (unsigned_32 r.max_value) _ at_max max fits) (
            rw
              (
                read_u32-at host answer 12 (error_number error) [] at_error (error_number-lt error)
                    fits,
                signed_32-unsigned_32 r.min_value min_fits,
                signed_32-unsigned_32 r.max_value max_fits,
              )
              refl)))
