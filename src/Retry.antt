-- ===== src/Retry.antt =====
-- backend/shared/src/http_retry.rs: the delay before a retry, and the two retry loops.
pub mod Delay
pub mod History
pub mod Send
pub mod Operation
mod Tests
