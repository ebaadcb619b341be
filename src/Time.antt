-- ===== src/Time.antt =====
-- system/time: durations, the deadlines computed from them, and the two clocks.
pub mod Unit
pub mod Deadline
pub mod Clock
mod Tests
