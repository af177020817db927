-- ===== src/Events.antt =====
-- backend/app/events: the transport of events, behind an interface.
pub mod Wire
pub mod Stream
pub mod Memory
pub mod Samples
pub mod Redis
