-- ===== src/Base/Size.antt =====
-- `std::size_t` on the 64-bit targets that the project builds for.
use Prim.Native.Nat.{ℕ, ◌+◌, ◌-◌, ◌*◌, ◌%◌, ◌^◌}

abbrev pub size_mod : ℕ
size_mod = 2 ^ 64

abbrev pub add_size : ℕ → ℕ → ℕ
add_size a b = (a + b) % size_mod

abbrev pub mul_size : ℕ → ℕ → ℕ
mul_size a b = (a * b) % size_mod

-- For operands below `size_mod`.
abbrev pub sub_size : ℕ → ℕ → ℕ
sub_size a b = (a + size_mod - b) % size_mod
