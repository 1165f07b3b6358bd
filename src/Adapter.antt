-- ===== src/Adapter.antt =====
-- The receive adapter: cmd/receive-adapter.
pub mod Config
pub mod Mode
pub mod Event
pub mod Sink
pub mod Poll
pub mod Stream
pub mod Run
pub mod Process
