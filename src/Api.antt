-- ===== src/Api.antt =====
-- backend/app/api: the HTTP side.
pub mod Sse
pub mod Logs
pub mod Summary
pub mod Frames
pub mod Providers
pub mod Conversations
pub mod Chat
pub mod Health
