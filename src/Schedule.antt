-- ===== src/Schedule.antt =====
-- hermes_pipeline/phase_schedule.py: the ordered phases of a run, their roles and their keys.
pub mod Phases
pub mod Order
pub mod Roles
pub mod Names
mod Tests
