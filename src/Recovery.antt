-- ===== src/Recovery.antt =====
-- hermes_pipeline/agent_recovery.py: approvals of a retry, by an operator or by the pipeline's tick.
pub mod Types
pub mod Evidence
pub mod Intents
pub mod Operator
pub mod Auto
pub mod Reading
pub mod Outcomes
pub mod Policy
pub mod Locks
pub mod Single
pub mod Approved
pub mod Previews
pub mod Budget
pub mod Bounded
pub mod Pending
pub mod Samples
mod Tests
