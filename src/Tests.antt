-- ===== src/Tests.antt =====
-- The components on small inputs.
pub mod Disk
pub mod Web
pub mod Atomic
pub mod Crew
pub mod Search
pub mod Show
pub mod Talk
pub mod Listening
pub mod Queue
pub mod Counting
pub mod Machine
pub mod Network
pub mod Service
use multithreading_labs.Base.{inl, inr, refl, arith, ◌∷◌, []}
use multithreading_labs.Fork.{IsJoined}

-- Thread 1 finishes before thread 0.
pub IsJoined-two : IsJoined 2 (1 ∷ 0 ∷ [])
IsJoined-two = record { known = (omega arith, (omega arith, tt)); joined = λ i h. ground arith }
