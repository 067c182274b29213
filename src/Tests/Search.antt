-- ===== src/Tests/Search.antt =====
-- Minimum and maximum of small matrices.
use multithreading_labs.Base.{
  zero, suc, ◌≤◌, ◌<◌, ◌*◌, All, Bool, inl, inr, length, ℕ_discrete, ℕ, ◌≡◌, ◌↔◌, ◌⊎◌, refl, arith,
  none, some, List, [], ◌∷◌, ℤ, pos, negsuc, Has,
}
use multithreading_labs.Blocks.{blocks}
use multithreading_labs.MinMax.Extrema.{MinMax, absorb, merge}
use multithreading_labs.MinMax.Sequential
use multithreading_labs.MinMax.Parallel.{IsMatrix, find_min_max_parallel-IsExtremaOf}
use multithreading_labs.MinMax
use multithreading_labs.Fork.{IsJoined}
use multithreading_labs.Matrix.Benchmark.{data_sizes, try_sizes, AllOk, try_sizes-AllOk}
use multithreading_labs.Matrix.Cells.{IsShaped}
use multithreading_labs.Matrix.Extremes.{find_min_max_parallel-find_min_max, thread_configs-zero}
use multithreading_labs.Matrix.Extremes
use multithreading_labs.Matrix.{Matrix, thread_configs, find_min_max}
use multithreading_labs.Matrix
use multithreading_labs.Tests.{IsJoined-two}

-- Three rows of two columns.
abbrev six_values : List ℤ
six_values = pos 3 ∷ negsuc 0 ∷ pos 4 ∷ pos 1 ∷ negsuc 4 ∷ pos 9 ∷ []

six_values-IsMatrix : IsMatrix six_values 3 2
six_values-IsMatrix = record {
  has_row = omega arith;
  has_col = omega arith;
  area = refl;
  fits = omega arith;
}

find_min_max_parallel-IsExtremaOf_example :
    (r : MinMax) × (MinMax.find_min_max_parallel six_values 3 2 2 (1 ∷ 0 ∷ []) ≡ some r)
    × (MinMax.find_min_max_sequential six_values ≡ some r)
    × Sequential.IsExtremaOf six_values r
unfolding MinMax.effective_threads
find_min_max_parallel-IsExtremaOf_example =
    find_min_max_parallel-IsExtremaOf six_values 3 2 2 (1 ∷ 0 ∷ []) six_values-IsMatrix IsJoined-two

-- The worker of thread 0 gets one row, that of thread 1 the other two.
shared_search :
    MinMax.find_min_max_parallel six_values 3 2 2 (1 ∷ 0 ∷ [])
    ≡ some (record { min_value = negsuc 4; max_value = pos 9 })
unfolding MinMax.find_min_max_parallel blocks absorb merge
shared_search = refl

abbrev three_rows : Matrix
three_rows = record {
  rows = 3;
  cols = 2;
  arr = (pos 3 ∷ negsuc 0 ∷ []) ∷ (pos 4 ∷ pos 1 ∷ []) ∷ (negsuc 4 ∷ pos 9 ∷ []) ∷ [];
}

three_rows-IsShaped : IsShaped three_rows
three_rows-IsShaped = record {
  has_row = omega arith;
  has_col = omega arith;
  height = refl;
  widths = (refl, (refl, (refl, tt)));
  fits = omega arith;
}

find_min_max_parallel-find_min_max_example :
    (r : MinMax) × (Matrix.find_min_max_parallel three_rows 2 (1 ∷ 0 ∷ []) ≡ some r)
    × (find_min_max three_rows ≡ some r)
    × Extremes.IsExtremaOf three_rows r
find_min_max_parallel-find_min_max_example =
    find_min_max_parallel-find_min_max three_rows 2 (1 ∷ 0 ∷ []) three_rows-IsShaped (omega arith)
      IsJoined-two

abbrev two_cores : ℕ
two_cores = 2

thread_configs-zero_example :
    (Matrix.find_min_max_parallel three_rows 0 [] ≡ none)
    × (Has 0 (thread_configs two_cores) ↔ (two_cores ≡ 2) ⊎ (two_cores ≡ 3))
thread_configs-zero_example = thread_configs-zero three_rows [] two_cores

-- The last thread finishes first.
abbrev pub down_from : ℕ → List ℕ
down_from zero = []
down_from (suc n) = n ∷ down_from n

down_from-known : (n m : ℕ) → n ≤ m → All (λ i. i < m) (down_from n)
down_from-known zero m h = tt
down_from-known (suc n) m h = (h, down_from-known n m (omega (arith, h)))

down_from-joined : (n i : ℕ) → i < n → Has i (down_from n)
down_from-joined zero i h = absurd (omega (arith, h))
down_from-joined (suc n) i h = elim (ℕ_discrete i n) [
  | yes last ↦ inl last
  | no other ↦ inr (down_from-joined n i (ground (arith, h, other)))
]

pub down_from-IsJoined : (n : ℕ) → IsJoined n (down_from n)
down_from-IsJoined n = record {
  known = down_from-known n n (omega arith);
  joined = down_from-joined n;
}

try_sizes-AllOk_example :
    (verdicts : List Bool) × (try_sizes 12 (λ s i. pos i) (λ s k n. down_from n) 0 data_sizes
      ≡ some verdicts)
    × AllOk verdicts
    × (length verdicts ≡ 7 * length data_sizes)
try_sizes-AllOk_example =
    try_sizes-AllOk 12 (λ s i. pos i) (λ s k n. down_from n) 0 data_sizes (λ e. cc) (λ e. cc)
      (λ s k n. down_from-IsJoined n) (omega arith)
