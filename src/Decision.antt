-- ===== src/Decision.antt =====
-- The selection of a TODO (decision/): the gate for the agent's answer, and the files of the decisions.
pub mod Types
pub mod Store
pub mod Pick
pub mod Selection
pub mod Kept
pub mod Rotated
pub mod Recorded
pub mod Trusted
pub mod Ticks
mod Tests
