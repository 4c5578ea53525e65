-- ===== src/Tiles/Coord.antt =====
-- `TileCoord`, `tiles_per_axis` and `validate_tile_coord`.
use lumen_horizon.Prelude.{
  ◌>>=◌, ℕ, ◌-◌, ◌^◌, ◌≤◌, ◌<◌, ◌≡◌, ◌↔◌, arith, ltb, if◌then◌else◌, Result, ok, err,
}
use lumen_horizon.Prelude.Int.{ℤ}
use native.Mathlib.Nat.{one-le-pow, pow-le-pow_right}

-- The width of the types is the caller's: `z` is a u8, `x` and `y` are u32.
pub record TileCoord : Type 0 where
  pub z : ℕ
  pub x : ℕ
  pub y : ℕ

pub data TileMathError : Type 0 where
  invalid_bounds : TileMathError
  invalid_viirs_tile : ℤ → ℤ → TileMathError
  invalid_tile_set_id : TileMathError
  x_out_of_range : ℕ → ℕ → ℕ → TileMathError
  y_out_of_range : ℕ → ℕ → ℕ → TileMathError
  zoom_too_large : ℕ → TileMathError

abbrev pub max_supported_zoom : ℕ
max_supported_zoom = 22

-- `1_u32 << z`, which does not overflow at `z ≤ 22`.
unfoldable pub tiles_per_axis : ℕ → Result TileMathError ℕ
tiles_per_axis z = if ltb max_supported_zoom z then err (zoom_too_large z) else ok (2 ^ z)

unfoldable pub validate_tile_coord : TileCoord → Result TileMathError (Unit {0})
unfolding tiles_per_axis
validate_tile_coord coord = do
  tiles ← tiles_per_axis coord.z
  let max = tiles - 1
  if ltb max coord.x
      then err (x_out_of_range coord.z coord.x max)
      else if ltb max coord.y
      then err (y_out_of_range coord.z coord.y max)
      else ok tt

-- A tile of the map at its zoom.
pub record IsTile (c : TileCoord) : Type 0 where
  pub zoom : c.z ≤ max_supported_zoom
  pub column : c.x < 2 ^ c.z
  pub row : c.y < 2 ^ c.z

pub tiles_per_axis_bounds :
    (z n : ℕ)
    → tiles_per_axis z ≡ ok n
    → (z ≤ max_supported_zoom) × (n ≡ 2 ^ z) × (1 ≤ n) × (n < 2 ^ 32)
unfolding tiles_per_axis
tiles_per_axis_bounds z n h =
    let z_small : z ≤ 22 = ground arith in
    let e : n ≡ 2 ^ z = ground arith in
    let low : 1 ≤ 2 ^ z = one-le-pow z 2 (omega arith) in
    let high : 2 ^ z ≤ 2 ^ 22 = pow-le-pow_right {n = 2} (omega arith) {j = 22} z_small in
    (z_small, e, omega arith, omega arith)

validate_sound : (c : TileCoord) → validate_tile_coord c ≡ ok tt → IsTile c
unfolding validate_tile_coord
validate_sound c h = let low : 1 ≤ 2 ^ c.z = one-le-pow c.z 2 (omega arith) in ground arith

validate_complete : (c : TileCoord) → IsTile c → validate_tile_coord c ≡ ok tt
unfolding validate_tile_coord
validate_complete c t = ground arith

-- A coordinate is accepted exactly when its zoom is supported and its column and row exist there.
pub validate_tile_coord_iff : (c : TileCoord) → (validate_tile_coord c ≡ ok tt) ↔ IsTile c
validate_tile_coord_iff c = (validate_sound c, validate_complete c)
