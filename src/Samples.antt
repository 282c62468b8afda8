-- ===== src/Samples.antt =====
-- Runs of the program's parts on small inputs, and the theorems at them.
mod Names
mod Hook
mod Sources
mod Build
mod Pipeline
mod Model
mod Dirs
mod Host
mod Update
