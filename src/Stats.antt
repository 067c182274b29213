-- ===== src/Stats.antt =====
-- lab_3/stats_tracker.h and lab_3/stats_tracker.cpp, class `StatsTracker`. Every method works under
-- the tracker's mutex. A time point is a number of nanoseconds of the steady clock. A span of time
-- stays far below the 292 years at which its 64-bit count would overflow.
pub mod Durations
pub mod Periods
pub mod Samples
use multithreading_labs.Base.{
  ℕ, zero, suc, ◌+◌, ◌-◌, Bool, true, false, not, ◌&&◌, ◌||◌, ℤ, pos, negsuc, add_size, leb, ltb,
  ◌==◌, if◌then◌else◌,
}

-- What the tracker uses of `double`: the operations, and the conversions from a count and from a
-- duration (to milliseconds).
pub record Floats : Type 1 where
  pub Double : Type 0
  pub zero_ms : Double
  pub plus : Double → Double → Double
  pub minus : Double → Double → Double
  pub divided : Double → Double → Double
  pub of_size : ℕ → Double
  pub of_duration : ℤ → Double

module _ (F : Floats) where
  open F use {Double, zero_ms, plus, minus, divided, of_size, of_duration}

  pub record Stats : Type 0 where
    pub created_threads : ℕ
    pub dropped_tasks : ℕ
    pub average_wait_ms : Double
    pub wait_samples : ℕ
    pub full_queue_time : ℕ
    pub full_queue_min : ℕ
    pub full_queue_max : ℕ

  pub record Tracker : Type 0 where
    pub stats : Stats
    pub queue_was_full : Bool
    pub queue_full_start : ℕ

  unfoldable pub create : Tracker
  create = record {
    stats = record {
      created_threads = 0;
      dropped_tasks = 0;
      average_wait_ms = zero_ms;
      wait_samples = 0;
      full_queue_time = 0;
      full_queue_min = 0;
      full_queue_max = 0;
    };
    queue_was_full = false;
    queue_full_start = 0;
  }

  unfoldable pub set_created_threads : Tracker → ℕ → Tracker
  set_created_threads t count = record t { stats = record t.stats { created_threads = count } }

  -- One round of the loop in `recordWaitTime`.
  unfoldable pub add_sample : Double → Stats → Stats
  add_sample duration_ms s =
      let samples = add_size s.wait_samples 1 in
      let delta = minus duration_ms s.average_wait_ms in
      record s {
        wait_samples = samples;
        average_wait_ms = plus s.average_wait_ms (divided delta (of_size samples));
      }

  unfoldable pub add_samples : Double → ℕ → Stats → Stats
  add_samples duration_ms zero s = s
  add_samples duration_ms (suc rounds) s = add_samples duration_ms rounds (add_sample duration_ms s)

  unfoldable pub record_wait_time : Tracker → ℤ → ℕ → Tracker
  unfolding add_samples
  record_wait_time t duration samples =
      if samples == 0
      then t
      else record t { stats = add_samples (of_duration duration) samples t.stats }

  unfoldable pub record_dropped_task : Tracker → Tracker
  record_dropped_task t = record t {
    stats = record t.stats { dropped_tasks = add_size t.stats.dropped_tasks 1 };
  }

  -- A negative duration counts as zero.
  abbrev pub clamp : ℤ → ℕ
  clamp (pos n) = n
  clamp (negsuc n) = 0

  unfoldable pub record_queue_full : Stats → ℤ → Stats
  record_queue_full s duration =
      let d = clamp duration in
      record s {
        full_queue_time = s.full_queue_time + d;
        full_queue_min =
            if s.full_queue_min == 0 || ltb d s.full_queue_min then d else s.full_queue_min;
        full_queue_max = if ltb s.full_queue_max d then d else s.full_queue_max;
      }

  -- `now - start`
  abbrev pub elapsed : ℕ → ℕ → ℤ
  elapsed now start = if leb start now then pos (now - start) else negsuc (start - now - 1)

  unfoldable pub note_queue_full_if_needed : Tracker → ℕ → ℕ → ℕ → Tracker
  note_queue_full_if_needed t size capacity now =
      if capacity == 0
      then t
      else if leb capacity size && not t.queue_was_full
      then record t { queue_was_full = true; queue_full_start = now }
      else t

  -- Both ends of a full period: `recordQueueFull(now - queueFullStart); queueWasFull = false;`
  unfoldable pub end_period : Tracker → ℕ → Tracker
  unfolding record_queue_full
  end_period t now = record t {
    stats = record_queue_full t.stats (elapsed now t.queue_full_start);
    queue_was_full = false;
  }

  unfoldable pub note_queue_not_full_if_needed : Tracker → ℕ → ℕ → ℕ → Tracker
  unfolding end_period
  note_queue_not_full_if_needed t size capacity now =
      if capacity == 0
      then t
      else if t.queue_was_full && ltb size capacity
      then end_period t now
      else t

  unfoldable pub finalize_queue_full_if_needed : Tracker → ℕ → Tracker
  unfolding end_period
  finalize_queue_full_if_needed t now = if t.queue_was_full then end_period t now else t

  unfoldable pub get_snapshot : Tracker → Stats
  get_snapshot t = t.stats
