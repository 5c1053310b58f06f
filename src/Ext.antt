-- ===== src/Ext.antt =====
-- ext/ and ext/external/: the registry of extensions, the chain of interceptors, and the supervisor.
mod App
mod Interceptors
mod Chain
mod Refused
mod Bridge
mod Bridged
mod Removed
mod Restored
mod Supervisor
mod Restarts
mod Sorting
mod Examples
