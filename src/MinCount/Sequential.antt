-- ===== src/MinCount/Sequential.antt =====
-- `findMinAndCount` against an independent count.
use multithreading_labs.Base.{
  ℕ, ◌+◌, ◌<◌, ◌≡◌, List, [], ◌∷◌, arith, ℤ, ◌==ℤ◌, ◌≤ℤ◌, All, fold, size_mod, length,
  if◌then◌else◌,
}
use multithreading_labs.MinCount.{MinResult, absorb, find_min_and_count}

-- How often `v` occurs.
abbrev pub occurrences : ℤ → List ℤ → ℕ
occurrences v [] = 0
occurrences v (w ∷ ws) = (if v ==ℤ w then 1 else 0) + occurrences v ws

fold-counts :
    (r : MinResult) (vs : List ℤ)
    → r.count + length vs < size_mod
    → let s = fold absorb r vs in
      (s.min_value ≤ℤ r.min_value)
      × All (λ v. s.min_value ≤ℤ v) vs
      × (s.count
          ≡ (if s.min_value ==ℤ r.min_value then r.count else 0) + occurrences s.min_value vs)
unfolding absorb
fold-counts r [] fits = (omega arith, tt, ground arith)
fold-counts r (v ∷ vs) fits =
    let (a, b, c) = fold-counts (absorb r v) vs (ground arith) in
    (ground (arith, a), (ground (arith, a), b), ground (arith, a, c))

fold-positive :
    (r : MinResult) (vs : List ℤ)
    → 0 < r.count
    → r.count + length vs < size_mod
    → 0 < (fold absorb r vs).count
unfolding absorb
fold-positive r [] h fits = h
fold-positive r (v ∷ vs) h fits = fold-positive (absorb r v) vs (ground arith) (ground arith)

-- On an array that is not empty, `findMinAndCount` returns the least value and the number of times
-- that it occurs, at least once.
pub find_min_and_count-counts :
    (v : ℤ) (vs : List ℤ)
    → length (v ∷ vs) < size_mod
    → let s = find_min_and_count (v ∷ vs) in
      All (λ w. s.min_value ≤ℤ w) (v ∷ vs)
      × (s.count ≡ occurrences s.min_value (v ∷ vs))
      × (0 < s.count)
unfolding find_min_and_count
find_min_and_count-counts v vs fits =
    let (a, b, c) = fold-counts (record { min_value = v; count = 1 }) vs (omega arith) in
    ((a, b), c, fold-positive (record { min_value = v; count = 1 }) vs (omega arith) (omega arith))
