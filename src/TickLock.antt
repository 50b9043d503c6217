-- ===== src/TickLock.antt =====
-- hermes_pipeline/tick.py: the lock directory that ticks contend for.
pub mod Acquire
pub mod Exclusion
mod Tests
