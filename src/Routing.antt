-- ===== src/Routing.antt =====
-- hermes_pipeline/phase_recovery.py: what a tick does for a phase whose card is missing or not done.
pub mod Types
pub mod Cards
pub mod Route
pub mod Retiring
pub mod Ends
pub mod Reissue
pub mod Tally
pub mod Tallying
pub mod Unblocks
mod Samples
mod Tests
