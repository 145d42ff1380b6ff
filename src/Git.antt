-- ===== src/Git.antt =====
-- crates/tethys-git.
pub mod Hunks
pub mod Cache
pub mod Error
pub mod Checkpoints
mod Examples
