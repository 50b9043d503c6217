-- ===== src/WorkerResult.antt =====
-- hermes_pipeline/result_contract.py: the result that a worker reports, and the template for it.
pub mod Text
pub mod Types
pub mod Values
pub mod Runs
pub mod Sections
pub mod Parse
pub mod Evidence
pub mod Delivered
pub mod Reported
pub mod Success
pub mod Final
pub mod Sound
pub mod Template
pub mod Written
pub mod Filling
pub mod Filled
pub mod Git
pub mod CommitFacts
pub mod SingleCommit
mod GitTests
mod Tests
