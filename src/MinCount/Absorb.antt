-- ===== src/MinCount/Absorb.antt =====
-- The order in which values are absorbed does not matter.
use multithreading_labs.Base.{◌≡◌, ap, List, ◌∷◌, arith, ℤ, eq_of_parts, ◌≤ℤ◌, fold}
use multithreading_labs.MinCount.{MinResult, absorb, find_min_and_count, int_max}

pub absorb_comm : (r : MinResult) (v w : ℤ) → absorb (absorb r v) w ≡ absorb (absorb r w) v
unfolding absorb
absorb_comm r v w =
    ground (arith, eq_of_parts v w, eq_of_parts v r.min_value, eq_of_parts w r.min_value)

-- Starting from `INT_MAX` and a count of zero comes to the same as starting from the first value.
pub fold-find_min_and_count :
    (v : ℤ) (vs : List ℤ)
    → v ≤ℤ int_max
    → fold absorb (record { min_value = int_max; count = 0 }) (v ∷ vs) ≡ find_min_and_count (v ∷ vs)
unfolding absorb find_min_and_count
fold-find_min_and_count v vs h = ap (λ s. fold absorb s vs) (ground (arith, eq_of_parts v int_max))
