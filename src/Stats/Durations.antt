-- ===== src/Stats/Durations.antt =====
-- The minimum, maximum and total of the recorded full periods.
use multithreading_labs.Base.{
  ℕ, ◌+◌, ◌≤◌, ◌<◌, ◌≡◌, refl, ◌∙◌, ◌⊎◌, inl, inr, List, [], ◌∷◌, arith, pos, All, Has,
}
use multithreading_labs.Stats.{Floats, Stats, create, record_queue_full}

abbrev pub sum : List ℕ → ℕ
sum [] = 0
sum (d ∷ ds) = d + sum ds

All-both :
    (lo hi : ℕ) (ds : List ℕ)
    → All (λ d. lo ≤ d) ds
    → All (λ d. d ≤ hi) ds
    → All (λ d. (lo ≤ d) × (d ≤ hi)) ds
All-both lo hi [] a b = tt
All-both lo hi (d ∷ ds) a b = ((a.0, b.0), All-both lo hi ds a.1 b.1)

module _ (F : Floats) where
  unfoldable pub record_all : Stats F → List ℕ → Stats F
  record_all s [] = s
  record_all s (d ∷ ds) = record_all (record_queue_full F s (pos d)) ds

  -- The total is exact.
  full_queue_time-record_all :
      (s : Stats F) (ds : List ℕ) → (record_all s ds).full_queue_time ≡ s.full_queue_time + sum ds
  unfolding record_all record_queue_full
  full_queue_time-record_all s [] = omega arith
  full_queue_time-record_all s (d ∷ ds) =
      omega (arith, full_queue_time-record_all (record_queue_full F s (pos d)) ds)

  full_queue_max-record_all :
      (s : Stats F) (ds : List ℕ)
      → let m = (record_all s ds).full_queue_max in
        (s.full_queue_max ≤ m) × All (λ d. d ≤ m) ds × ((m ≡ s.full_queue_max) ⊎ Has m ds)
  unfolding record_all record_queue_full
  full_queue_max-record_all s [] = (omega arith, tt, inl refl)
  full_queue_max-record_all s (d ∷ ds) =
      let (a, b, c) = full_queue_max-record_all (record_queue_full F s (pos d)) ds in
      (ground (arith, a), (ground (arith, a), b), ground (arith, c))

  -- From a minimum that is set.
  full_queue_min-record_all :
      (s : Stats F) (ds : List ℕ)
      → 0 < s.full_queue_min
      → All (λ d. 0 < d) ds
      → let m = (record_all s ds).full_queue_min in
        (m ≤ s.full_queue_min) × All (λ d. m ≤ d) ds × (0 < m) × ((m ≡ s.full_queue_min) ⊎ Has m ds)
  unfolding record_all record_queue_full
  full_queue_min-record_all s [] h ps = (omega arith, tt, h, inl refl)
  full_queue_min-record_all s (d ∷ ds) h ps =
      let (a, b, p, c) =
        full_queue_min-record_all (record_queue_full F s (pos d)) ds (ground arith) ps.1 in
      (ground (arith, a), (ground (arith, a), b), p, ground (arith, c))

  -- After the periods `d`, then `ds`, all of positive length, a new tracker reports their total, the
  -- shortest and the longest.
  pub record_all-summary :
      (d : ℕ) (ds : List ℕ)
      → All (λ e. 0 < e) (d ∷ ds)
      → let s = record_all (create F).stats (d ∷ ds) in
        (s.full_queue_time ≡ sum (d ∷ ds))
        × All (λ e. (s.full_queue_min ≤ e) × (e ≤ s.full_queue_max)) (d ∷ ds)
        × Has s.full_queue_min (d ∷ ds)
        × Has s.full_queue_max (d ∷ ds)
  unfolding record_all record_queue_full create
  record_all-summary d ds ps =
      let first = record_queue_full F (create F).stats (pos d) in
      let time = full_queue_time-record_all first ds in
      let (top, maxima, max_has) = full_queue_max-record_all first ds in
      let (bottom, minima, positive, min_has) =
        full_queue_min-record_all first ds (omega (arith, ps.0)) ps.1 in
      let longest : first.full_queue_max ≡ d = ground (arith, ps.0) in
      (
        omega arith,
        ((omega arith, omega arith), All-both _ _ ds minima maxima),
        elim min_has [ inl e ↦ inl e | inr h ↦ inr h ],
        elim max_has [ inl e ↦ inl (e ∙ longest) | inr h ↦ inr h ],
      )

  -- A period of no length is forgotten: it leaves the minimum unset, and the next period of positive
  -- length becomes the minimum, whatever came before. So the reported minimum is not the shortest.
  pub record_queue_full-forgets_zero :
      (s : Stats F) (d : ℕ)
      → 0 < d
      → let s' = record_queue_full F (record_queue_full F s (pos 0)) (pos d) in
        (s'.full_queue_min ≡ d) × (0 < s'.full_queue_min)
  unfolding record_queue_full
  record_queue_full-forgets_zero s d h = ground arith
