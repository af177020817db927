-- ===== src/Db.antt =====
-- backend/app/db: the tables, the unit of work, and the repositories over them.
pub mod Texts
pub mod Tables
pub mod Session
pub mod Conversations
pub mod InferenceLogs
pub mod RawEvents
pub mod Metrics
pub mod Migrations
