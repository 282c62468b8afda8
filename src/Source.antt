-- ===== src/Source.antt =====
-- internal/source: snapshots of the configuration repository.
pub mod Archive
pub mod GitHub
pub mod Store
pub mod Snapshot
