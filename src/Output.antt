-- ===== src/Output.antt =====
-- internal/output: what node-box remembers, and the files that it writes.
pub mod Dirs
pub mod State
pub mod Target
pub mod Write
