-- ===== src/Core.antt =====
-- backend/app/core: the error taxonomy and the configuration.
pub mod Errors
pub mod Config
