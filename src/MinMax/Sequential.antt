-- ===== src/MinMax/Sequential.antt =====
-- `findMinMaxSequential`.
use multithreading_labs.Base.{◌-◌, ◌<◌, ◌≡◌, some, List, arith, length, get_elem?-in_range, ℤ}
use multithreading_labs.MinMax.Extrema.{MinMax, IsMinMax}
use multithreading_labs.MinMax.Scan.{Range, of_value-Range, scan-Range}
use multithreading_labs.MinMax.{find_min_max_sequential}

-- `r` holds the least and the greatest value of the vector.
abbrev pub IsExtremaOf : List ℤ → MinMax → Type 0
IsExtremaOf values r = IsMinMax (Range values 0 (length values)) r

-- On a vector that is not empty, `findMinMaxSequential` reads no element out of range and returns
-- the least and the greatest value.
pub find_min_max_sequential-IsExtremaOf :
    (values : List ℤ)
    → 0 < length values
    → (r : MinMax) × (find_min_max_sequential values ≡ some r) × IsExtremaOf values r
unfolding find_min_max_sequential
find_min_max_sequential-IsExtremaOf values h =
    let (v, q) = get_elem?-in_range values 0 h in
    let (r, run, p) =
      scan-Range values 0 (length values - 1) 1 (length values) (omega arith) (omega arith)
        (omega arith) (of_value-Range values 0 v q) in
    (r, rw q run, p)
