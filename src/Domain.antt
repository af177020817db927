-- ===== src/Domain.antt =====
-- backend/app/domain: the vocabulary that every other part shares.
pub mod Enums
pub mod Json
pub mod Uuid
pub mod Event
