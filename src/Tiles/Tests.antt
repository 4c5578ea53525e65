-- ===== src/Tiles/Tests.antt =====
-- Runs of the tile code, and its theorems at concrete inputs.
use lumen_horizon.Prelude.{ℕ, ◌*◌, ◌^◌, ◌≡◌, ◌↔◌, refl, some, true, ok, err, Text, codes}
use lumen_horizon.Prelude.Int.{ℤ, pos}
use lumen_horizon.Float.Fixed.{fixed, Every, fixed-IsOrdered}
use lumen_horizon.Text.{starts_with}
use lumen_horizon.Text.Decimal.{decimal}
use lumen_horizon.Tiles.Coord.{
  TileCoord, validate_tile_coord, x_out_of_range, invalid_viirs_tile, tiles_per_axis,
}
use lumen_horizon.Tiles.Paths.{
  tile_blob_path, tiles_of, validate_tile_set_id, tile_blob_path_injective,
  tile_blob_path-starts_with_iff,
}
use lumen_horizon.Tiles.Bounds.{clip_bounds, viirs_tile_bounds, IsWithin, clip_bounds-IsWithin}
use lumen_horizon.Tiles.Range.{GeographicBounds, TileRange, tile_range_for_bounds}

abbrev edge : TileCoord
edge = record { z = 3; x = 7; y = 7 }

validates_at_zoom_edge :
    (validate_tile_coord edge ≡ ok tt)
    × (validate_tile_coord (record edge { x = 8 }) ≡ err (x_out_of_range 3 8 7))
unfolding validate_tile_coord
validates_at_zoom_edge = (refl, refl)

abbrev set_id : Text
set_id = codes "2026-05-21-a1"

abbrev edge_path : Text
edge_path = codes "tiles/2026-05-21-a1/3/7/7.png"

builds_path : tile_blob_path set_id edge ≡ ok edge_path
unfolding tile_blob_path validate_tile_set_id validate_tile_coord decimal
builds_path = refl

accepts_id : validate_tile_set_id set_id ≡ ok tt
unfolding validate_tile_set_id
accepts_id = refl

tile_blob_path_injective_example : (set_id ≡ set_id) × (edge ≡ edge)
tile_blob_path_injective_example =
    tile_blob_path_injective set_id set_id edge_path edge edge builds_path builds_path

tile_blob_path-starts_with_iff_example :
    (starts_with (tiles_of (codes "2026-05-21-a")) edge_path ≡ true)
    ↔ (codes "2026-05-21-a" ≡ set_id)
unfolding validate_tile_set_id
tile_blob_path-starts_with_iff_example =
    tile_blob_path-starts_with_iff (codes "2026-05-21-a") set_id edge_path edge refl builds_path

abbrev degrees : ℕ → ℤ
degrees n = pos (n * 10 ^ 8)

abbrev area : GeographicBounds ℤ
area = record { west = degrees 10; south = degrees 20; east = degrees 30; north = degrees 40 }

abbrev covering : TileRange
covering = record { z = 3; min_x = 4; max_x = 4; min_y = 0; max_y = 0 }

covers : tile_range_for_bounds fixed area 3 ≡ ok covering
unfolding tile_range_for_bounds tiles_per_axis
covers = refl

abbrev neighbour : GeographicBounds ℤ
neighbour = record { west = degrees 25; south = degrees 10; east = degrees 50; north = degrees 30 }

abbrev common : GeographicBounds ℤ
common = record { west = degrees 25; south = degrees 20; east = degrees 30; north = degrees 30 }

clips : clip_bounds fixed area neighbour ≡ some common
unfolding clip_bounds
clips = refl

clip_bounds-IsWithin_example :
    IsWithin fixed common area
    × IsWithin fixed common neighbour
    × (fixed.lt common.west common.east ≡ true)
    × (fixed.lt common.south common.north ≡ true)
clip_bounds-IsWithin_example =
    clip_bounds-IsWithin fixed Every fixed-IsOrdered area neighbour common (tt, tt, tt, tt)
      (tt, tt, tt, tt) clips

viirs_world_corner :
    viirs_tile_bounds fixed (pos 36) (pos 0) ≡ err (invalid_viirs_tile (pos 36) (pos 0))
unfolding viirs_tile_bounds
viirs_world_corner = refl
