-- ===== src/Plan.antt =====
-- hermes_pipeline/plan_manifest.py: the manifest in a Plan document.
pub mod Manifest
pub mod Fence
pub mod Document
pub mod Valid
pub mod Sound
pub mod Written
pub mod Complete
mod Tests
