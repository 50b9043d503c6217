-- ===== src/Backlog.antt =====
-- hermes_pipeline/github_issues.py: which TODO issues may be selected.
pub mod Types
pub mod Source
pub mod Compile
pub mod Eligible
pub mod Candidates
pub mod Accounted
mod Tests
