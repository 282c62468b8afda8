-- ===== src/Build.antt =====
-- internal/build: the modules of one output are merged, selectors are filled in, the nodes that
-- they need are inserted, and the result is validated.
pub mod Errors
pub mod Injector
pub mod Detours
pub mod Apply
pub mod Assemble
pub mod Generate
pub mod Validate
