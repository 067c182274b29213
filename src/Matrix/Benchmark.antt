-- ===== src/Matrix/Benchmark.antt =====
-- lab_1/main.cpp, `main`: the sequential and the parallel search on random matrices, and the comparison
-- of their results; and `Matrix::generateRandom` of lab_1/matrix.h.
use multithreading_labs.Base.{
  ℕ, zero, suc, ◌+◌, ◌*◌, ◌<◌, ◌≡◌, ◌≢◌, refl, ap, subst, Option, some, Bool, true, ◌&&◌, List, [],
  ◌∷◌, ◌++◌, ◌>>=◌, arith, ℤ, ◌==ℤ◌, length, All, size_mod, length-append,
}
use multithreading_labs.Fork.{IsJoined}
use multithreading_labs.MinMax.Extrema.{MinMax}
use multithreading_labs.Random.{draw_values, length-draw_values}
use multithreading_labs.Matrix.{Matrix, find_min_max, find_min_max_parallel, thread_configs}
use multithreading_labs.Matrix.Cells.{IsShaped}
use multithreading_labs.Matrix.Extremes.{
  find_min_max_parallel-find_min_max, find_min_max-IsExtremaOf,
}

-- The loops of `generateRandom`, from draw `i` on.
unfoldable pub random_rows : (ℕ → ℤ) → ℕ → ℕ → ℕ → List (List ℤ)
random_rows draws i zero cols = []
random_rows draws i (suc rounds) cols =
    draw_values draws i cols ∷ random_rows draws (i + cols) rounds cols

unfoldable pub generate_random : (ℕ → ℤ) → ℕ → ℕ → Matrix
unfolding random_rows
generate_random draws rows cols = record {
  rows = rows;
  cols = cols;
  arr = random_rows draws 0 rows cols;
}

abbrev pub data_sizes : List (ℕ × ℕ)
data_sizes = (100, 10) ∷ (100, 100) ∷ (1000, 100) ∷ (1000, 1000) ∷ (1000, 10000) ∷ []

-- "[OK]"
unfoldable pub is_ok : MinMax → MinMax → Bool
is_ok par_result seq_result =
    par_result.min_value ==ℤ seq_result.min_value && par_result.max_value ==ℤ seq_result.max_value

-- The loop over the numbers of threads, from the `k`-th one on; `orders k n` is the order in which
-- the `n` threads of this round finish.
unfoldable pub try_threads : Matrix → MinMax → (ℕ → ℕ → List ℕ) → ℕ → List ℕ → Option (List Bool)
unfolding is_ok
try_threads test seq_result orders k [] = some []
try_threads test seq_result orders k (num_threads ∷ configs) =
    find_min_max_parallel test num_threads (orders k num_threads) >>= λ par_result.
    try_threads test seq_result orders (suc k) configs >>= λ verdicts.
    some (is_ok par_result seq_result ∷ verdicts)

-- A round of the main loop.
unfoldable pub try_size : ℕ → (ℕ → ℤ) → (ℕ → ℕ → List ℕ) → ℕ × ℕ → Option (List Bool)
unfolding try_threads generate_random
try_size hardware_concurrency draws orders (rows, cols) =
    let test = generate_random draws rows cols in
    find_min_max test >>= λ seq_result.
    try_threads test seq_result orders 0 (thread_configs hardware_concurrency)

-- The main loop, from the `s`-th size on: the verdicts in the order in which they are printed.
unfoldable pub try_sizes :
    ℕ → (ℕ → ℕ → ℤ) → (ℕ → ℕ → ℕ → List ℕ) → ℕ → List (ℕ × ℕ) → Option (List Bool)
unfolding try_size
try_sizes hardware_concurrency draws orders s [] = some []
try_sizes hardware_concurrency draws orders s (size ∷ sizes) =
    try_size hardware_concurrency (draws s) (orders s) size >>= λ verdicts.
    try_sizes hardware_concurrency draws orders (suc s) sizes >>= λ others.
    some (verdicts ++ others)

random_rows-widths :
    (draws : ℕ → ℤ) (i rounds cols : ℕ)
    → (length (random_rows draws i rounds cols) ≡ rounds)
      × All (λ (row : List ℤ). length row ≡ cols) (random_rows draws i rounds cols)
unfolding random_rows
random_rows-widths draws i zero cols = (refl, tt)
random_rows-widths draws i (suc rounds) cols =
    let (height, widths) = random_rows-widths draws (i + cols) rounds cols in
    (ap suc height, (length-draw_values draws i cols, widths))

-- A random matrix has the shape that was asked for.
generate_random-IsShaped :
    (draws : ℕ → ℤ) (rows cols : ℕ)
    → 0 < rows
    → 0 < cols
    → rows < size_mod
    → IsShaped (generate_random draws rows cols)
unfolding generate_random
generate_random-IsShaped draws rows cols has_row has_col fits =
    let (height, widths) = random_rows-widths draws 0 rows cols in
    record { has_row = has_row; has_col = has_col; height = height; widths = widths; fits = fits }

is_ok-same : (r : MinMax) → is_ok r r ≡ true
unfolding is_ok
is_ok-same r = ground arith

abbrev pub AllOk : List Bool → Type 0
AllOk = All (λ (verdict : Bool). verdict ≡ true)

try_threads-AllOk :
    (test : Matrix) (seq_result : MinMax) (orders : ℕ → ℕ → List ℕ) (k : ℕ) (configs : List ℕ)
    → IsShaped test
    → find_min_max test ≡ some seq_result
    → ((k n : ℕ) → IsJoined n (orders k n))
    → All (λ n. 0 < n) configs
    → (verdicts : List Bool) × (try_threads test seq_result orders k configs ≡ some verdicts)
      × AllOk verdicts
      × (length verdicts ≡ length configs)
unfolding try_threads
try_threads-AllOk test seq_result orders k [] shaped seq joined some_thread = ([], refl, tt, refl)
try_threads-AllOk test seq_result orders k (n ∷ configs) shaped seq joined some_thread =
    let (par_result, run, run', extrema) =
      find_min_max_parallel-find_min_max test n (orders k n) shaped some_thread.0 (joined k n) in
    let same : par_result ≡ seq_result = cc in
    let (verdicts, later, ok, count) =
      try_threads-AllOk test seq_result orders (suc k) configs shaped seq joined some_thread.1 in
    let first : is_ok par_result seq_result ≡ true =
      subst (λ r. is_ok par_result r ≡ true) same (is_ok-same par_result) in
    (is_ok par_result seq_result ∷ verdicts, rw (run, later) refl, (first, ok), ap suc count)

thread_configs-positive :
    (hardware : ℕ) → hardware ≢ 2 → hardware ≢ 3 → All (λ n. 0 < n) (thread_configs hardware)
unfolding thread_configs
thread_configs-positive hardware two three = ground arith

-- At least one row and one column, and a number of rows below 2 ^ 64.
abbrev pub HasCells : ℕ × ℕ → Type 0
HasCells (rows, cols) = (0 < rows) × (0 < cols) × (rows < size_mod)

try_size-AllOk :
    (hardware : ℕ) (draws : ℕ → ℤ) (orders : ℕ → ℕ → List ℕ) (size : ℕ × ℕ)
    → hardware ≢ 2
    → hardware ≢ 3
    → ((k n : ℕ) → IsJoined n (orders k n))
    → HasCells size
    → (verdicts : List Bool) × (try_size hardware draws orders size ≡ some verdicts)
      × AllOk verdicts
      × (length verdicts ≡ 7)
unfolding try_size thread_configs
try_size-AllOk hardware draws orders (rows, cols) two three joined cells =
    let shaped = generate_random-IsShaped draws rows cols cells.0 cells.1 cells.2 in
    let (seq_result, seq, extrema) =
      find_min_max-IsExtremaOf (generate_random draws rows cols) shaped in
    let (verdicts, run, ok, count) =
      try_threads-AllOk (generate_random draws rows cols) seq_result orders 0
        (thread_configs hardware) shaped seq joined (thread_configs-positive hardware two three) in
    (verdicts, rw (try_size, seq, run) refl, ok, count)

All-append : (xs ys : List Bool) → AllOk xs → AllOk ys → AllOk (xs ++ ys)
All-append [] ys a b = b
All-append (x ∷ xs) ys a b = (a.0, All-append xs ys a.1 b)

-- On a machine for which `hardware_concurrency` returns neither 2 nor 3, with random matrices of any
-- sizes that have cells, and in whatever order the threads of each search finish: no search reads out
-- of range or divides by zero, and `main` prints seven verdicts for each size, all of them "[OK]".
pub try_sizes-AllOk :
    (hardware : ℕ) (draws : ℕ → ℕ → ℤ) (orders : ℕ → ℕ → ℕ → List ℕ) (s : ℕ) (sizes : List (ℕ × ℕ))
    → hardware ≢ 2
    → hardware ≢ 3
    → ((s k n : ℕ) → IsJoined n (orders s k n))
    → All HasCells sizes
    → (verdicts : List Bool) × (try_sizes hardware draws orders s sizes ≡ some verdicts)
      × AllOk verdicts
      × (length verdicts ≡ 7 * length sizes)
unfolding try_sizes
try_sizes-AllOk hardware draws orders s [] two three joined cells = ([], refl, tt, refl)
try_sizes-AllOk hardware draws orders s (size ∷ sizes) two three joined cells =
    let (verdicts, run, ok, count) =
      try_size-AllOk hardware (draws s) (orders s) size two three (joined s) cells.0 in
    let (others, later, fine, more) =
      try_sizes-AllOk hardware draws orders (suc s) sizes two three joined cells.1 in
    (
      verdicts ++ others,
      rw (run, later) refl,
      All-append verdicts others ok fine,
      omega (arith, length-append verdicts others, count, more),
    )
