-- ===== src/Discovery.antt =====
-- The catalogue search of ingest-svc: backend/ingest-svc/src/cmr.rs.
pub mod Entry
pub mod Search
pub mod Paging
mod Tests
