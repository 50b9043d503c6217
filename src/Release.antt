-- ===== src/Release.antt =====
-- scripts/release_changesets.py: from pending changesets to the next version.
pub mod Apply
pub mod Advance
mod Tests
