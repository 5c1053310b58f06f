-- ===== src/Session.antt =====
-- The session package: one conversation as a tree of entries, kept as an append-only JSONL file.
pub mod Types
pub mod Payload
pub mod Store
pub mod Tree
pub mod Append
pub mod Replay
pub mod Settle
pub mod Invariant
pub mod Branch
pub mod Effects
pub mod Failure
pub mod Stored
pub mod ReplayNode
pub mod Reopen
pub mod History
pub mod Fork
pub mod Forked
pub mod Hazards
mod Examples
