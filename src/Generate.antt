-- ===== src/Generate.antt =====
-- backend/processing-svc/src/generate: planning the tiles of a granule, their raster windows and
-- the jobs that render them.
pub mod Types
pub mod Planning
pub mod Window
pub mod Jobs
pub mod Enumeration
pub mod JoinSet
pub mod Sorting
pub mod Completion
pub mod InOrder
pub mod JoinFailure
pub mod Parallel
pub mod Render
pub mod Samples
pub mod Images
pub mod Manifest
pub mod TileSet
pub mod Complete
pub mod Over
pub mod InFlight
mod Tests
mod SetTests
