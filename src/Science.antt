-- ===== src/Science.antt =====
-- The science rules of processing-svc: backend/processing-svc/src/science and
-- backend/shared/src/dark_sky.rs.
pub mod Mapping
pub mod Pixel
pub mod Summary
pub mod DarkSky
mod Tests
