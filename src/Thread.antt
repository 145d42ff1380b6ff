-- ===== src/Thread.antt =====
-- crates/tethys-thread: the thread's materialized entries and its state machine.
pub mod Entries
pub mod Machine
mod Examples
