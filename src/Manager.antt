-- ===== src/Manager.antt =====
-- The manager, written in Go: the statuses of its workers and tasks, and the variables that its pages edit.
pub mod TimeOfDay
pub mod Sleep
pub mod Worker
pub mod Tasks
pub mod Variables
