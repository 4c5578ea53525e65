-- ===== src/Tiles.antt =====
-- backend/shared/src/slippy_tiles.rs: map tiles, their blob paths and the ranges that cover an area.
pub mod Coord
pub mod Paths
pub mod Range
pub mod Bounds
mod Tests
