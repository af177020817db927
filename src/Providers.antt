-- ===== src/Providers.antt =====
-- backend/app/providers: one vendor API to this program's vocabulary.
pub mod Base
pub mod Registry
pub mod Candidates
pub mod Tests
pub mod Vendor
pub mod Mock
