-- ===== src/Circuit.antt =====
-- hermes_pipeline/circuit.py: alerts on ticks that make no progress.
pub mod Breaker
pub mod Counting
pub mod Alerts
mod Tests
