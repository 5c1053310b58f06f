-- ===== src/Core.antt =====
-- The core package: its message types and their JSON form (core/types.go).
pub mod Json
pub mod Types
pub mod Codec
pub mod RoundTrip
