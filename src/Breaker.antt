-- ===== src/Breaker.antt =====
-- extensions/toolbreaker/: the circuit breaker of the tools.
pub mod Tracker
pub mod Latch
pub mod Examples
