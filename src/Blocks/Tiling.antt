-- ===== src/Blocks/Tiling.antt =====
-- The blocks of one division: they tile the range, and their lengths differ by at most one.
use multithreading_labs.Base.{
  ℕ, zero, suc, ◌+◌, ◌-◌, ◌*◌, ◌/◌, ◌%◌, ◌≤◌, ◌<◌, ◌≡◌, refl, ap, List, [], ◌∷◌, arith, ltb,
  if◌then◌else◌, length, All, size_mod, add_size, get_elem?, some, dec_lt,
}
use multithreading_labs.Blocks.{Block, blocks_from, blocks}

-- The blocks follow one another with no gap and no overlap, from `lo` to `hi`.
abbrev pub Tiles : ℕ → ℕ → List Block → Type 0
Tiles lo hi [] = lo ≡ hi
Tiles lo hi (b ∷ bs) = (b.start ≡ lo) × (lo ≤ b.stop) × Tiles b.stop hi bs

-- A block of `n` or of `n + 1` items.
abbrev pub IsEven : ℕ → Block → Type 0
IsEven n b = (b.start + n ≤ b.stop) × (b.stop ≤ b.start + n + 1)

blocks_from-Tiles :
    (q r n i lo hi : ℕ)
    → lo + n * q + (r - i) ≡ hi
    → r ≤ i + n
    → hi < size_mod
    → Tiles lo hi (blocks_from q r n i lo)
unfolding blocks_from
blocks_from-Tiles q r zero i lo hi e h s = omega arith
blocks_from-Tiles q r (suc n) i lo hi e h s = ground (
  arith,
  blocks_from-Tiles q r n (suc i) (add_size (add_size lo q) (if ltb i r then 1 else 0)) hi,
)

blocks_from-IsEven :
    (q r n i lo hi : ℕ)
    → lo + n * q + (r - i) ≡ hi
    → r ≤ i + n
    → hi < size_mod
    → All (IsEven q) (blocks_from q r n i lo)
unfolding blocks_from
blocks_from-IsEven q r zero i lo hi e h s = tt
blocks_from-IsEven q r (suc n) i lo hi e h s = ground (
  arith,
  blocks_from-IsEven q r n (suc i) (add_size (add_size lo q) (if ltb i r then 1 else 0)) hi,
)

length-blocks_from : (q r n i lo : ℕ) → length (blocks_from q r n i lo) ≡ n
unfolding blocks_from
length-blocks_from q r zero i lo = refl
length-blocks_from q r (suc n) i lo = ap suc (length-blocks_from q r n (suc i) _)

pub length-blocks : (size threads : ℕ) → length (blocks size threads) ≡ threads
unfolding blocks
length-blocks size threads = length-blocks_from (size / threads) (size % threads) threads 0 0

module _ (size threads : ℕ) (some_thread : 0 < threads) (fits : size < size_mod) where
  -- The blocks of `threads` threads, at least one, cover each of `size` items exactly once, in
  -- order.
  pub blocks-Tiles : Tiles 0 size (blocks size threads)
  unfolding blocks
  blocks-Tiles =
      blocks_from-Tiles (size / threads) (size % threads) threads 0 0 size (grind arith)
        (omega arith) fits

  -- No thread has two items more than another.
  pub blocks-IsEven : All (IsEven (size / threads)) (blocks size threads)
  unfolding blocks
  blocks-IsEven =
      blocks_from-IsEven (size / threads) (size % threads) threads 0 0 size (grind arith)
        (omega arith) fits

Tiles-lo-le-hi : (lo hi : ℕ) (bs : List Block) → Tiles lo hi bs → lo ≤ hi
Tiles-lo-le-hi lo hi [] t = omega arith
Tiles-lo-le-hi lo hi (b ∷ bs) t = omega (arith, Tiles-lo-le-hi b.stop hi bs t.2)

pub Tiles-within :
    (lo hi : ℕ) (bs : List Block) (i : ℕ) (b : Block)
    → Tiles lo hi bs
    → get_elem? bs i ≡ some b
    → (lo ≤ b.start) × (b.stop ≤ hi)
Tiles-within lo hi [] i b t e = cc
Tiles-within lo hi (c ∷ bs) zero b t e = ground (arith, Tiles-lo-le-hi c.stop hi bs t.2)
Tiles-within lo hi (c ∷ bs) (suc i) b t e =
    omega (arith, Tiles-within c.stop hi bs i b t.2 e, t.0, t.1)

-- Every item is in a block.
pub Tiles-cover :
    (lo hi : ℕ) (bs : List Block) (k : ℕ)
    → Tiles lo hi bs
    → lo ≤ k
    → k < hi
    → (i : ℕ) × (b : Block) × (get_elem? bs i ≡ some b) × (b.start ≤ k) × (k < b.stop)
Tiles-cover lo hi [] k t above below = absurd (omega arith)
Tiles-cover lo hi (c ∷ bs) k t above below = elim (dec_lt k c.stop) [
  | yes p ↦ (0, c, refl, omega (arith, t.0), p)
  | no p ↦
      let (i, b, e, h, h') = Tiles-cover c.stop hi bs k t.2 (omega arith) below in
      (suc i, b, e, h, h')
]

pub IsEven-get_elem? :
    (n : ℕ) (bs : List Block) (i : ℕ) (b : Block)
    → All (IsEven n) bs
    → get_elem? bs i ≡ some b
    → IsEven n b
IsEven-get_elem? n [] i b h e = cc
IsEven-get_elem? n (c ∷ bs) zero b h e = ground arith
IsEven-get_elem? n (c ∷ bs) (suc i) b h e = IsEven-get_elem? n bs i b h.1 e
