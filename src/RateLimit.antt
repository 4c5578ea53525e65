-- ===== src/RateLimit.antt =====
-- The request limiter of the gateway: backend/api-gateway/src/rate_limit.rs.
pub mod Policy
pub mod Store
pub mod Window
pub mod Limiter
pub mod Refusal
mod Tests
