-- ===== src/Tests.antt =====
-- A machine on which the development's hypotheses hold, and the theorems at concrete inputs.
pub mod Machine
pub mod Copies
pub mod Plan
pub mod Records
pub mod Mounted
pub mod Renames
pub mod Jobs
pub mod Program
pub mod Threads
pub mod Lifetime
pub mod Room
pub mod Sessions
