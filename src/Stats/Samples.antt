-- ===== src/Stats/Samples.antt =====
-- The average waiting time is a running mean over single samples.
use multithreading_labs.Base.{ℕ, zero, suc, ◌+◌, ◌≡◌, refl, sym, ap, ◌∙◌, arith, ℤ}
use multithreading_labs.Stats.{Floats, Stats, Tracker, add_sample, add_samples, record_wait_time}

module _ (F : Floats) where
  open F use {Double, of_duration}

  add_samples-add :
      (d : Double) (m n : ℕ) (s : Stats F)
      → add_samples F d (m + n) s ≡ add_samples F d n (add_samples F d m s)
  unfolding add_samples
  add_samples-add d zero n s = let e : zero + n ≡ n = omega arith in rw e
  add_samples-add d (suc m) n s =
      let e : suc m + n ≡ suc (m + n) = omega arith in
      rw e (add_samples-add d m n (add_sample F d s))

  record_wait_time-samples :
      (t : Tracker F) (duration : ℤ) (n : ℕ)
      → record_wait_time F t duration n
        ≡ record t { stats = add_samples F (of_duration duration) n t.stats }
  unfolding record_wait_time add_samples
  record_wait_time-samples t duration zero = refl
  record_wait_time-samples t duration (suc n) = ground arith

  -- Recording a waiting time as `m + n` samples at once is recording it as `m` and then as `n`
  -- samples, whatever the arithmetic of `double`.
  pub record_wait_time-add :
      (t : Tracker F) (duration : ℤ) (m n : ℕ)
      → record_wait_time F t duration (m + n)
        ≡ record_wait_time F (record_wait_time F t duration m) duration n
  record_wait_time-add t duration m n =
      let d = of_duration duration in
      record_wait_time-samples t duration (m + n)
      ∙ ap (λ (s : Stats F). record t { stats = s }) (add_samples-add d m n t.stats)
      ∙ sym (record_wait_time-samples (record t { stats = add_samples F d m t.stats }) duration n)
      ∙ ap (λ (u : Tracker F). record_wait_time F u duration n)
          (sym (record_wait_time-samples t duration m))
