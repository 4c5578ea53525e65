-- ===== src/Retention.antt =====
-- The retention cleanup of processing-svc: backend/processing-svc/src/retention.rs.
pub mod Types
pub mod Cleanup
pub mod Safety
pub mod Run
pub mod Survival
mod Tests
