-- ===== src/Plan.antt =====
-- extensions/plan/plan.go: a plan of steps with their states.
pub mod Steps
pub mod Operations
pub mod Invariant
pub mod Keeps
pub mod Runs
pub mod Undo
pub mod Examples
