-- ===== src/Execution.antt =====
-- hermes_pipeline/agent_execution.py: durable execution records and fail-closed launch admission.
pub mod Types
pub mod Text
pub mod Cgroup
pub mod Env
pub mod Validate
pub mod Store
pub mod Admission
pub mod Update
pub mod Keeps
pub mod Loading
pub mod Numbering
pub mod History
pub mod Transitions
pub mod Journal
pub mod Exclusive
pub mod Registering
pub mod Runs
pub mod Atomic
pub mod Immutable
pub mod Samples
mod Tests
