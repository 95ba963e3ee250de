-- ===== src/Dispatch.antt =====
-- server/internal/dispatch/dispatcher.go: the delivery engine.
pub mod State
pub mod Send
pub mod Inbound
pub mod Reaper
pub mod Invariant
pub mod Lifecycle
pub mod Keeps
mod Tests
