-- ===== src/Pipeline.antt =====
-- extensions/pipeline/: pipelines of shell commands.
pub mod Texts
pub mod Types
pub mod Loops
pub mod Product
pub mod Iterated
pub mod Template
pub mod Cuts
pub mod Expansion
pub mod Pieces
pub mod Execute
pub mod Retried
pub mod Finishes
pub mod Run
pub mod Trace
pub mod Walks
pub mod Reported
pub mod DryRun
pub mod Examples
