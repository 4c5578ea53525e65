-- ===== src/Process.antt =====
-- backend/processing-svc/src/process/message.rs: the processing of one message, from the row of
-- `processing_log` to the published tile set.
pub mod Log
pub mod TileSetId
pub mod Types
pub mod Gate
pub mod Message
pub mod Quiet
pub mod Rows
pub mod Started
pub mod Accepted
pub mod Done
mod Tests
