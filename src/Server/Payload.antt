-- ===== src/Server/Payload.antt =====
-- The payload of a DATA message: three sizes and the values, all in network order.
use multithreading_labs.Base.{
  ℕ, zero, suc, ◌*◌, ◌^◌, ◌≤◌, ◌<◌, ◌≡◌, sym, ap, ◌∙◌, subst, some, Bool, ◌||◌, List, [], ◌∷◌,
  >>=-eq-some, eq_of_some, arith, ℤ, ◌==◌, length, add_size, mul_size, size_mod, Bool-cases,
  Option-cases, inl, inr,
}
use multithreading_labs.MinMax.Parallel.{IsMatrix}
use multithreading_labs.Protocol.Words.{read_u32-lt}
use multithreading_labs.Protocol.{Host, read_u32, read_i32}
use multithreading_labs.Server.{
  Job, read_values, Sizes, read_sizes, parsed, parse_values, parse_data,
}

abbrev pub HasMatrix : Job → Type 0
HasMatrix job = IsMatrix job.values job.rows job.cols

pub area_lt : (rows cols : ℕ) → rows < 2 ^ 32 → cols < 2 ^ 32 → rows * cols < size_mod
area_lt rows cols r c = let step : rows * cols ≤ 4294967295 * cols = grind arith in omega arith

module _ (host : Host) where
  read_values-length :
      (payload : List ℕ) (offset rounds : ℕ) (values : List ℤ)
      → read_values host payload offset rounds ≡ some values
      → length values ≡ rounds
  unfolding read_values
  read_values-length payload offset zero values e = ap length (sym (eq_of_some [] values e))
  read_values-length payload offset (suc rounds) values e =
      let ((v, after), q, f) = >>=-eq-some (read_i32 host payload offset) _ e in
      let (vs, q', g) = >>=-eq-some (read_values host payload after rounds) _ f in
      sym (ap length (eq_of_some (v ∷ vs) values g))
      ∙ ap suc (read_values-length payload after rounds vs q')

  pub read_sizes-lt :
      (payload : List ℕ) (s : Sizes)
      → read_sizes host payload ≡ some s
      → (s.rows < 2 ^ 32) × (s.cols < 2 ^ 32)
  unfolding read_sizes
  read_sizes-lt payload s e =
      let ((rows, o), q, f) = >>=-eq-some (read_u32 host payload 0) _ e in
      let ((cols, o'), q', g) = >>=-eq-some (read_u32 host payload o) _ f in
      let ((n, o2), q2, h) = >>=-eq-some (read_u32 host payload o') _ g in
      let same = eq_of_some _ s h in
      (
        subst (λ (s : Sizes). s.rows < 2 ^ 32) same (read_u32-lt host payload 0 rows o q),
        subst (λ (s : Sizes). s.cols < 2 ^ 32) same (read_u32-lt host payload o cols o' q'),
      )

  module _ (can_allocate : ℕ → Bool) where
    -- A payload that is parsed is a matrix.
    abbrev job_of : Sizes → List ℤ → Job
    job_of s values = record {
      values = values;
      rows = s.rows;
      cols = s.cols;
      num_threads = s.num_threads;
    }

    parse_values-HasMatrix :
        (payload : List ℕ) (s : Sizes)
        → s.rows < 2 ^ 32
        → s.cols < 2 ^ 32
        → (job : Job) → parse_values host can_allocate payload s ≡ parsed job
        → HasMatrix job
    unfolding parse_values
    parse_values-HasMatrix payload s r c job e =
        let total = mul_size s.rows s.cols in
        elim (Bool-cases (s.rows == 0 || s.cols == 0)) [
          | inl z ↦ absurd (ground arith)
          | inr z ↦ elim (Bool-cases (length payload == add_size 12 (mul_size total 4))) [
            | inr z' ↦ absurd (ground arith)
            | inl z' ↦ elim (Bool-cases (can_allocate total)) [
              | inr z2 ↦ absurd (ground arith)
              | inl z2 ↦ elim (Option-cases (read_values host payload s.offset total)) [
                | inl z3 ↦ absurd (ground arith)
                | inr (values, z3) ↦
                    let same : job_of s values ≡ job = ground arith in
                    let counted = read_values-length payload s.offset total values z3 in
                    subst HasMatrix same (record {
                      has_row = ground arith;
                      has_col = ground arith;
                      area = omega (arith, counted, area_lt s.rows s.cols r c);
                      fits = omega (arith, counted);
                    })
              ]
            ]
          ]
        ]

    pub parse_data-HasMatrix :
        (payload : List ℕ) (job : Job)
        → parse_data host can_allocate payload ≡ parsed job
        → HasMatrix job
    unfolding parse_data
    parse_data-HasMatrix payload job e = elim (Option-cases (read_sizes host payload)) [
      | inl z ↦ absurd (ground arith)
      | inr (s, z) ↦
          let (r, c) = read_sizes-lt payload s z in
          parse_values-HasMatrix payload s r c job (ground arith)
    ]
