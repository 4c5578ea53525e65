-- ===== src/Message.antt =====
-- The processing message that ingest-svc sends to processing-svc:
-- backend/shared/src/processing_message.rs and backend/ingest-svc/src/models.rs.
pub mod Product
pub mod Tile
pub mod Validate
pub mod Granule
mod Tests
