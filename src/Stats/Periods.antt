-- ===== src/Stats/Periods.antt =====
-- Full periods as they are noted while time passes.
use multithreading_labs.Base.{ℕ, ◌+◌, ◌-◌, ◌≤◌, ◌≡◌, true, List, [], ◌∷◌, arith, if◌then◌else◌}
use multithreading_labs.Stats.{
  Floats, Tracker, create, note_queue_full_if_needed, note_queue_not_full_if_needed,
  finalize_queue_full_if_needed,
}

-- The calls that the pool makes, each with its time: a note after a push, one after a pop, and the
-- last one at a shutdown.
pub data Note : Type 0 where
  after_push : (size now : ℕ) → Note
  after_pop : (size now : ℕ) → Note
  at_shutdown : (now : ℕ) → Note

abbrev pub time_of : Note → ℕ
time_of (after_push size now) = now
time_of (after_pop size now) = now
time_of (at_shutdown now) = now

module _ (F : Floats) (capacity : ℕ) where
  unfoldable pub note : Tracker F → Note → Tracker F
  note t (after_push size now) = note_queue_full_if_needed F t size capacity now
  note t (after_pop size now) = note_queue_not_full_if_needed F t size capacity now
  note t (at_shutdown now) = finalize_queue_full_if_needed F t now

  unfoldable pub note_all : Tracker F → List Note → Tracker F
  unfolding note
  note_all t [] = t
  note_all t (n ∷ ns) = note_all (note t n) ns

  -- No note is older than the one before it, and none lies outside `lo` to `hi`.
  abbrev pub Between : ℕ → ℕ → List Note → Type 0
  Between lo hi [] = lo ≤ hi
  Between lo hi (n ∷ ns) = (lo ≤ time_of n) × Between (time_of n) hi ns

  -- The full periods noted so far, the one that is open included.
  abbrev pub full_until : Tracker F → ℕ → ℕ
  full_until t now =
      t.stats.full_queue_time + (if t.queue_was_full then now - t.queue_full_start else 0)

  abbrev pub Started : Tracker F → ℕ → Type 0
  Started t now = t.queue_was_full ≡ true → t.queue_full_start ≤ now

  note-full_until :
      (t : Tracker F) (n : Note) (lo : ℕ)
      → Started t lo
      → lo ≤ time_of n
      → (full_until (note t n) (time_of n) ≤ full_until t lo + (time_of n - lo))
        × Started (note t n) (time_of n)
  unfolding note note_queue_full_if_needed note_queue_not_full_if_needed
      finalize_queue_full_if_needed
  note-full_until t (after_push size now) lo s le = (ground (arith, s), λ h. ground (arith, s))
  note-full_until t (after_pop size now) lo s le = (ground (arith, s), λ h. ground (arith, s))
  note-full_until t (at_shutdown now) lo s le = (ground (arith, s), λ h. ground (arith, s))

  Between-le : (lo hi : ℕ) (ns : List Note) → Between lo hi ns → lo ≤ hi
  Between-le lo hi [] b = b
  Between-le lo hi (n ∷ ns) b = omega (arith, b.0, Between-le (time_of n) hi ns b.1)

  note_all-full_until :
      (t : Tracker F) (ns : List Note) (lo hi : ℕ)
      → Started t lo
      → Between lo hi ns
      → full_until (note_all t ns) hi ≤ full_until t lo + (hi - lo)
  unfolding note_all
  note_all-full_until t [] lo hi s b = ground (arith, s)
  note_all-full_until t (n ∷ ns) lo hi s b =
      let (bound, s') = note-full_until t n lo s b.0 in
      omega (
        arith,
        note_all-full_until (note t n) ns (time_of n) hi s' b.1,
        Between-le (time_of n) hi ns b.1,
      )

  -- If the notes come in the order of their times, all between `lo` and `hi`, the total full time
  -- that a new tracker reports is at most the time that has passed.
  pub note_all-le-elapsed :
      (ns : List Note) (lo hi : ℕ)
      → Between lo hi ns
      → (note_all (create F) ns).stats.full_queue_time ≤ hi - lo
  unfolding create
  note_all-le-elapsed ns lo hi b =
      omega (arith, note_all-full_until (create F) ns lo hi (λ h. cc) b)
