-- ===== src/Client/Upload.antt =====
-- What the client sends in a DATA message is what the server takes from it.
use mathlib.Core.List.{append_assoc, append-nil}
use multithreading_labs.Base.{
  ℕ, ◌+◌, ◌*◌, ◌^◌, ◌<◌, ◌≡◌, refl, sym, ap, ◌∙◌, Option, none, some, Bool, true, false, ◌||◌, List,
  [], ◌∷◌, ◌++◌, arith, ℤ, ◌==◌, length, drop, All, map, add_size, mul_size, size_mod,
}
use multithreading_labs.Protocol.Words.{
  IsInt32, be_all, append_u32-be_32, append_i32-be_32, drop-next, read_u32-at, read_i32-at,
  signed_32-unsigned_32, unsigned_32-lt,
}
use multithreading_labs.Protocol.{Host, be_32, unsigned_32, append_u32, append_i32}
use multithreading_labs.Server.Payload.{HasMatrix}
use multithreading_labs.Server.{
  Job, read_values, Sizes, read_sizes, Parsed, malformed, parsed, parse_values, parse_data,
}
use multithreading_labs.Client.{append_values, data_payload}

abbrev words : List ℤ → List ℕ
words values = be_all (map unsigned_32 values)

length-words : (values : List ℤ) → length (words values) ≡ 4 * length values
length-words [] = refl
length-words (v ∷ values) = omega (arith, length-words values)

module _ (host : Host) where
  append_values-words :
      (buffer : List ℕ) (values : List ℤ)
      → append_values host buffer values ≡ buffer ++ words values
  unfolding append_values
  append_values-words buffer [] = sym (append-nil buffer)
  append_values-words buffer (v ∷ values) =
      append_values-words (append_i32 host buffer v) values
      ∙ ap (λ (b : List ℕ). b ++ words values) (append_i32-be_32 host buffer v)
      ∙ append_assoc buffer (be_32 (unsigned_32 v)) (words values)

  read_values-words :
      (payload : List ℕ) (offset : ℕ) (values : List ℤ)
      → drop offset payload ≡ words values
      → length payload < size_mod
      → All IsInt32 values
      → read_values host payload offset (length values) ≡ some values
  unfolding read_values
  read_values-words payload offset [] here fits small = refl
  read_values-words payload offset (v ∷ values) here fits (h, small) =
      let next =
        drop-next host payload offset (unsigned_32 v) (words values) here (unsigned_32-lt v) fits in
      let at =
        read_i32-at host payload offset (unsigned_32 v) (words values) here (unsigned_32-lt v)
          fits in
      rw
        (
          at,
          signed_32-unsigned_32 v h,
          read_values-words payload (offset + 4) values next fits small,
        )
        refl

  data_payload-words :
      (rows cols num_threads : ℕ) (values : List ℤ)
      → rows < 2 ^ 32
      → cols < 2 ^ 32
      → num_threads < 2 ^ 32
      → data_payload host rows cols num_threads values
        ≡ be_32 rows ++ (be_32 cols ++ (be_32 num_threads ++ words values))
  unfolding data_payload
  data_payload-words rows cols num_threads values rows_fit cols_fit num_threads_fit =
      append_values-words
        (append_u32 host (append_u32 host (append_u32 host [] rows) cols) num_threads) values
      ∙ rw
          (
            append_u32-be_32 host [] rows rows_fit,
            append_u32-be_32 host (be_32 rows) cols cols_fit,
            append_u32-be_32 host (be_32 rows ++ be_32 cols) num_threads num_threads_fit,
          )
          refl

  pub length-data_payload :
      (rows cols num_threads : ℕ) (values : List ℤ)
      → rows < 2 ^ 32
      → cols < 2 ^ 32
      → num_threads < 2 ^ 32
      → length (data_payload host rows cols num_threads values) ≡ 12 + 4 * length values
  length-data_payload rows cols num_threads values rows_fit cols_fit num_threads_fit =
      ap length (data_payload-words rows cols num_threads values rows_fit cols_fit num_threads_fit)
      ∙ omega (arith, length-words values)

  module _ (job : Job) (is_matrix : HasMatrix job) (rows_fit : job.rows < 2 ^ 32)
      (cols_fit : job.cols < 2 ^ 32) (num_threads_fit : job.num_threads < 2 ^ 32)
      (values_fit : All IsInt32 job.values)
      (payload_fits : 12 + 4 * length job.values < size_mod) where
    abbrev payload : List ℕ
    payload = data_payload host job.rows job.cols job.num_threads job.values

    payload-words :
        payload ≡ be_32 job.rows ++ (be_32 job.cols ++ (be_32 job.num_threads ++ words job.values))
    payload-words =
        data_payload-words job.rows job.cols job.num_threads job.values rows_fit cols_fit
          num_threads_fit

    length-payload : length payload ≡ 12 + 4 * length job.values
    length-payload =
        length-data_payload job.rows job.cols job.num_threads job.values rows_fit cols_fit
          num_threads_fit

    fits : length payload < size_mod
    fits = omega (arith, length-payload, payload_fits)

    sizes :
        read_sizes host payload
        ≡ some (record {
          rows = job.rows;
          cols = job.cols;
          num_threads = job.num_threads;
          offset = 12;
        })
    unfolding read_sizes
    sizes =
        let at_cols = drop-next host payload 0 job.rows _ payload-words rows_fit fits in
        let at_num_threads = drop-next host payload 4 job.cols _ at_cols cols_fit fits in
        rw
          (
            read_u32-at host payload 0 job.rows _ payload-words rows_fit fits,
            read_u32-at host payload 4 job.cols _ at_cols cols_fit fits,
            read_u32-at host payload 8 job.num_threads _ at_num_threads num_threads_fit fits,
          )
          refl

    values_read : read_values host payload 12 (length job.values) ≡ some job.values
    values_read =
        let at_cols = drop-next host payload 0 job.rows _ payload-words rows_fit fits in
        let at_num_threads = drop-next host payload 4 job.cols _ at_cols cols_fit fits in
        let at_values =
          drop-next host payload 8 job.num_threads _ at_num_threads num_threads_fit fits in
        read_values-words payload 12 job.values at_values fits values_fit

    module _ (can_allocate : ℕ → Bool) (allocated : can_allocate (length job.values) ≡ true) where
      matrix_parsed :
          parse_values host can_allocate payload (record {
            rows = job.rows;
            cols = job.cols;
            num_threads = job.num_threads;
            offset = 12;
          })
          ≡ parsed job
      unfolding parse_values
      matrix_parsed =
          let total : mul_size job.rows job.cols ≡ length job.values =
            omega (arith, is_matrix.area, is_matrix.fits) in
          let expected : (length payload == add_size 12 (mul_size (length job.values) 4)) ≡ true =
            ground (arith, length-payload, payload_fits) in
          let some_cell : (job.rows == 0 || job.cols == 0) ≡ false =
            ground (arith, is_matrix.has_row, is_matrix.has_col) in
          rw some_cell (rw total (rw expected (rw allocated (rw values_read refl))))

      -- The server reads from the client's DATA message exactly the matrix, its sizes and the number of
      -- threads that the client put into it, where the sizes are those of the matrix, every number fits
      -- its word, the payload is shorter than 2 ^ 64 bytes and the server can allocate the matrix.
      pub parse_data-data_payload :
          parse_data host can_allocate
            (data_payload host job.rows job.cols job.num_threads job.values)
          ≡ parsed job
      unfolding parse_data
      parse_data-data_payload =
          ap
            (λ (o : Option Sizes). elim o as (λ o. Parsed) [
              | none ↦ malformed
              | some s ↦ parse_values host can_allocate payload s
            ])
            sizes
          ∙ matrix_parsed
