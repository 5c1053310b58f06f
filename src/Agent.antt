-- ===== src/Agent.antt =====
-- core/agent.go, core/stream.go, core/tool_executor.go and core/compact.go: the agent's loop, with what it
-- does to its messages, and what it keeps.
pub mod State
pub mod History
pub mod Stream
pub mod Tools
pub mod Turns
pub mod Cap
pub mod Compaction
pub mod Delay
pub mod Retry
pub mod Requests
pub mod Collect
pub mod ToolResults
pub mod ToolsEnd
pub mod TurnEnd
pub mod MaxTurns
pub mod Returns
pub mod Samples
pub mod Examples
