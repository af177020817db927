-- ===== src/Instrumentation.antt =====
-- backend/app/instrumentation: the wrapper that logs every call, and the redaction of previews.
pub mod Redaction
pub mod Wrapper
pub mod InFlight
