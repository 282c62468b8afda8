-- ===== src/Runner.antt =====
-- internal/runner: one update at a time, from a trigger to the files on disk.
pub mod Queue
pub mod Update
pub mod Schedule
pub mod Poll
pub mod Status
pub mod Rollback
