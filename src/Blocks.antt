-- ===== src/Blocks.antt =====
-- The loop that divides `size` rows or elements among `threads` threads, as written in
-- lab_1/main.cpp, lab_2/main.cpp and lab_4/cpp/include/minmax.h.
pub mod Tiling
pub mod Slices
use multithreading_labs.Base.{ℕ, zero, suc, ◌/◌, ◌%◌, List, [], ◌∷◌, ltb, add_size, if◌then◌else◌}

-- One thread's half-open range of rows or elements.
pub record Block : Type 0 where
  pub start : ℕ
  pub stop : ℕ

-- The blocks of threads `i`, `i + 1`, … (`rounds` of them), the first one starting at `current`.
unfoldable pub blocks_from : ℕ → ℕ → ℕ → ℕ → ℕ → List Block
blocks_from per_thread remainder zero i current = []
blocks_from per_thread remainder (suc rounds) i current =
    let stop = add_size (add_size current per_thread) (if ltb i remainder then 1 else 0) in
    record { start = current; stop = stop } ∷ blocks_from per_thread remainder rounds (suc i) stop

-- For `threads` not zero: the source divides by it.
unfoldable pub blocks : ℕ → ℕ → List Block
unfolding blocks_from
blocks size threads = blocks_from (size / threads) (size % threads) threads 0 0
