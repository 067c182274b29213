-- ===== src/Server/Oversize.antt =====
-- `expectedSize` in `handleDataCommand`, where the multiplication by the size of a value wraps.
use multithreading_labs.Base.{
  ltb, ℕ, ◌*◌, ◌%◌, ◌^◌, ◌<◌, ◌≡◌, refl, ap, ◌∙◌, Option, none, some, Bool, true, false, ◌||◌, List,
  arith, ◌==◌, length, add_size, mul_size, Bool-cases, inl, inr,
}
use multithreading_labs.Protocol.{Host, read_u32}
use multithreading_labs.Server.Payload.{area_lt, read_sizes-lt}
use multithreading_labs.Server.{
  invalid_payload, ClientState, replies, terminates, error_reply, Sizes, read_sizes, Parsed,
  malformed, too_large, store_parsed, parse_values, parse_data, handle_data_command,
}

module _ (host : Host) (can_allocate : ℕ → Bool) (payload : List ℕ) (s : Sizes)
    (announced : read_sizes host payload ≡ some s) (no_values : length payload ≡ 12)
    (some_row : 0 < s.rows) (some_col : 0 < s.cols) (wraps : s.rows * s.cols % 2 ^ 62 ≡ 0)
    (too_many : can_allocate (s.rows * s.cols) ≡ false) where
  parse_values-too_large : parse_values host can_allocate payload s ≡ too_large
  unfolding parse_values
  parse_values-too_large =
      let (r, c) = read_sizes-lt host payload s announced in
      let total : mul_size s.rows s.cols ≡ s.rows * s.cols =
        omega (arith, area_lt s.rows s.cols r c) in
      let expected : (length payload == add_size 12 (mul_size (s.rows * s.cols) 4)) ≡ true =
        ground (arith, no_values, wraps) in
      let some_cell : (s.rows == 0 || s.cols == 0) ≡ false = ground (arith, some_row, some_col) in
      rw some_cell (rw total (rw expected (rw too_many refl)))

  -- A DATA message of twelve bytes, without any value, passes the check of its size if the number of
  -- values that it announces is a positive multiple of 2 ^ 62; then the vector for them is
  -- constructed, and if it cannot be had, the exception, which nothing catches, ends the whole server,
  -- whatever the client's state is.
  pub handle_data_command-wraps :
      (state : ClientState) → handle_data_command host can_allocate state payload ≡ terminates
  unfolding handle_data_command parse_data store_parsed
  handle_data_command-wraps state = ap (store_parsed host state) (
      ap
        (λ (o : Option Sizes). elim o as (λ o. Parsed) [
          | none ↦ malformed
          | some s ↦ parse_values host can_allocate payload s
        ])
        announced
      ∙ parse_values-too_large)

read_sizes-short :
    (host : Host) (payload : List ℕ) → length payload < 12 → read_sizes host payload ≡ none
unfolding read_sizes read_u32
read_sizes-short host payload short = elim (Bool-cases (ltb (length payload) 4)) [
  | inl e ↦ rw e refl
  | inr e ↦ elim (Bool-cases (ltb (length payload) 8)) [
    | inl e' ↦ rw (e, e') refl
    | inr e' ↦
        let last : ltb (length payload) 12 ≡ true = ground (arith, short) in rw (e, e', last) refl
  ]
]

-- A payload too short for its three sizes is refused as invalid, and the state stays as it is.
pub handle_data_command-short :
    (host : Host) (can_allocate : ℕ → Bool) (payload : List ℕ)
    → length payload < 12
    → (state : ClientState)
    → handle_data_command host can_allocate state payload
      ≡ replies state (error_reply host invalid_payload)
unfolding handle_data_command parse_data store_parsed
handle_data_command-short host can_allocate payload short state =
    ap
      (λ (o : Option Sizes). store_parsed host state (elim o as (λ o. Parsed) [
        | none ↦ malformed
        | some s ↦ parse_values host can_allocate payload s
      ]))
      (read_sizes-short host payload short)
