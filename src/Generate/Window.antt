-- ===== src/Generate/Window.antt =====
-- `raster_window_for_tile`: the part of a granule's raster that a tile shows.
use lumen_horizon.Prelude.{
  ◌>>=◌, ℕ, ◌+◌, ◌-◌, ◌≤◌, ◌<◌, ◌≡◌, arith, min, max, Option, none, some, Result, ok, err,
  bind_elim, ok_injective, refl,
}
use mathlib.Core.Path.{subst}
use lumen_horizon.Float.{Floating, clamp}
use lumen_horizon.Tiles.Coord.{TileCoord, TileMathError}
use lumen_horizon.Tiles.Range.{GeographicBounds}
use lumen_horizon.Tiles.Bounds.{tile_bounds, clip_bounds}
use lumen_horizon.Science.Mapping.{RasterShape, RasterWindow}
use lumen_horizon.Generate.Types.{GenerateError, tile_outside_source_bounds}
use lumen_horizon.Generate.Planning.{tile_error}

module _ (F : Floating) where
  open F use {Num, literal, of_nat, sub, mul, div, floor, ceil}

  unfoldable pub floor_to_raster_index : Num → ℕ → ℕ
  floor_to_raster_index fraction size =
      min (floor (mul (clamp F fraction (literal 0 0) (literal 1 0)) (of_nat size))) size

  unfoldable pub ceil_to_raster_index : Num → ℕ → ℕ
  ceil_to_raster_index fraction size =
      min (ceil (mul (clamp F fraction (literal 0 0) (literal 1 0)) (of_nat size))) size

  -- `ok_or`
  abbrev overlap_or :
      TileCoord
      → GeographicBounds Num
      → Option (GeographicBounds Num)
      → Result (GenerateError F) (GeographicBounds Num)
  overlap_or coord source none = err (tile_outside_source_bounds coord source)
  overlap_or coord source (some clipped) = ok clipped

  -- The window of a part of the source
  unfoldable pub window_of :
      GeographicBounds Num → GeographicBounds Num → RasterShape → RasterWindow
  unfolding floor_to_raster_index ceil_to_raster_index
  window_of clipped source shape =
      let source_width = sub source.east source.west in
      let source_height = sub source.north source.south in
      let x_start = div (sub clipped.west source.west) source_width in
      let x_end = div (sub clipped.east source.west) source_width in
      let y_start = div (sub source.north clipped.north) source_height in
      let y_end = div (sub source.north clipped.south) source_height in
      let x_offset = floor_to_raster_index x_start shape.width in
      let y_offset = floor_to_raster_index y_start shape.height in
      let x_last = ceil_to_raster_index x_end shape.width in
      let y_last = ceil_to_raster_index y_end shape.height in
      record {
        x_offset = x_offset;
        y_offset = y_offset;
        width = max (x_last - x_offset) 1;
        height = max (y_last - y_offset) 1;
      }

  unfoldable pub raster_window_for_tile :
      TileCoord → GeographicBounds Num → RasterShape → Result (GenerateError F) RasterWindow
  unfolding tile_bounds clip_bounds window_of
  raster_window_for_tile coord source shape = do
    bounds ← tile_error (tile_bounds F coord)
    clipped ← overlap_or coord source (clip_bounds F bounds source)
    ok (window_of clipped source shape)

-- A window of at least one column and row. Its offsets are at most the raster's size, and may be equal
-- to it where rounding takes them there; where they are less, it ends in the raster too.
pub record IsWindow (shape : RasterShape) (w : RasterWindow) : Type 0 where
  pub wide : 1 ≤ w.width
  pub high : 1 ≤ w.height
  pub column : w.x_offset ≤ shape.width
  pub row : w.y_offset ≤ shape.height
  pub last_column : w.x_offset < shape.width → w.x_offset + w.width ≤ shape.width
  pub last_row : w.y_offset < shape.height → w.y_offset + w.height ≤ shape.height

-- The tile exists, and clipping it to the source returns an area.
pub record HasClip (F : Floating) (source : GeographicBounds F.Num) (coord : TileCoord)
    : Type 0 where
  pub tile : GeographicBounds F.Num
  pub shared : GeographicBounds F.Num
  pub exists : tile_bounds F coord ≡ ok tile
  pub overlaps : clip_bounds F tile source ≡ some shared

module _ (F : Floating) (source : GeographicBounds F.Num) (shape : RasterShape) where
  window_of-IsWindow : (c : GeographicBounds F.Num) → IsWindow shape (window_of F c source shape)
  unfolding window_of floor_to_raster_index ceil_to_raster_index
  window_of-IsWindow c = record {
    wide = omega arith;
    high = omega arith;
    column = omega arith;
    row = omega arith;
    last_column = λ h. omega arith;
    last_row = λ h. omega arith;
  }

  overlap_or_elim :
      (coord : TileCoord) (o : Option (GeographicBounds F.Num)) {c : GeographicBounds F.Num}
      → overlap_or F coord source o ≡ ok c
      → o ≡ some c
  overlap_or_elim coord none h = cc
  overlap_or_elim coord (some clipped) h = cc

  tile_error_elim :
      {A : Type 0} (m : Result TileMathError A) {a : A} → tile_error {F = F} m ≡ ok a → m ≡ ok a
  tile_error_elim (ok a) h = cc
  tile_error_elim (err e) h = cc

  -- What the window of a tile shows of the returned clip.
  pub raster_window-IsWindow :
      (coord : TileCoord) {w : RasterWindow}
      → raster_window_for_tile F coord source shape ≡ ok w
      → HasClip F source coord × IsWindow shape w
  unfolding raster_window_for_tile
  raster_window-IsWindow coord {w} h =
      let (tile, e, after) = bind_elim (tile_error (tile_bounds F coord)) _ h in
      let (c, f, last) =
        bind_elim (overlap_or F coord source (clip_bounds F tile source)) _ after in
      (
        record {
          tile = tile;
          shared = c;
          exists = tile_error_elim _ e;
          overlaps = overlap_or_elim coord _ f;
        },
        subst (IsWindow shape) (ok_injective last) (window_of-IsWindow c),
      )

  pub raster_window-HasClip :
      (coord : TileCoord)
      → HasClip F source coord
      → (w : RasterWindow) × (raster_window_for_tile F coord source shape ≡ ok w)
  unfolding raster_window_for_tile
  raster_window-HasClip coord h =
      (window_of F h.shared source shape, rw (h.exists, h.overlaps) refl)
