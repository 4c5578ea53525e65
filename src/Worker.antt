-- ===== src/Worker.antt =====
-- The queue worker of processing-svc: backend/processing-svc/src/process/queue_worker.rs, failure.rs
-- and dispatch.rs.
pub mod Services
pub mod Poll
pub mod Laws
pub mod Kept
pub mod Loss
pub mod Handled
mod Tests
