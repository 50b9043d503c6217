-- ===== src/Reconcile.antt =====
-- `reconcile_schedule` of hermes_pipeline/phase_schedule.py: one tick's pass over the phases of a run.
pub mod Types
pub mod Visit
pub mod Linked
pub mod Admitted
pub mod Visits
pub mod Schedule
pub mod Reaches
pub mod Holding
pub mod Anchor
mod Tests
