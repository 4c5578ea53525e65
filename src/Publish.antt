-- ===== src/Publish.antt =====
-- The publication of a tile set: backend/processing-svc/src/publish.rs, with the two statements of
-- db.rs that it uses and the paths of manifest.rs.
pub mod Types
pub mod Steps
pub mod Triple
pub mod Stored
pub mod Uploads
pub mod Promotion
pub mod Order
mod Tests
