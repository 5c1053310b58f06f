-- ===== src/Shell.antt =====
-- shell/: the shell between a frontend and the agent: its input queue, the repair of interrupted tool calls,
-- the submission of input, and what it does with the agent's events.
pub mod Queue
pub mod Repair
pub mod DrainOne
pub mod Answered
pub mod Completed
pub mod Repaired
pub mod Slash
pub mod State
pub mod Submit
pub mod Process
pub mod Input
pub mod Idle
pub mod Bound
pub mod BoundEvents
pub mod Runs
pub mod Examples
