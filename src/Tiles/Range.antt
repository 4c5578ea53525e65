-- ===== src/Tiles/Range.antt =====
-- `tile_range_for_bounds`: the tiles of one zoom that cover an area.
use lumen_horizon.Prelude.{
  ◌>>=◌, ◌>>◌, ℕ, ◌-◌, ◌^◌, ◌≤◌, ◌<◌, ◌≡◌, arith, min, max, ◌&&◌, Bool, if◌then◌else◌, Result, ok,
  err, bind_elim, ok_injective, sym, ap, ◌∙◌,
}
use mathlib.Core.Path.{subst}
use lumen_horizon.Float.{Floating, clamp}
use lumen_horizon.Tiles.Coord.{
  TileMathError, invalid_bounds, tiles_per_axis, tiles_per_axis_bounds, max_supported_zoom,
}

pub record GeographicBounds (Num : Type 0) : Type 0 where
  pub west : Num
  pub south : Num
  pub east : Num
  pub north : Num

pub record TileRange : Type 0 where
  pub z : ℕ
  pub min_x : ℕ
  pub max_x : ℕ
  pub min_y : ℕ
  pub max_y : ℕ

module _ (F : Floating) where
  open F use {
    Num, literal, of_nat, lt, le, add, sub, mul, div, neg, floor, to_radians, tan, cos, ln, pi,
  }

  abbrev pub web_mercator_latitude_limit : Num
  web_mercator_latitude_limit = literal 8_505_112_878 8

  -- `(low..=high).contains(&x)`
  abbrev within : Num → Num → Num → Bool
  within low high x = le low x && le x high

  unfoldable pub validate_bounds : GeographicBounds Num → Result TileMathError (Unit {0})
  validate_bounds b =
      let half = literal 180 0 in
      let limit = web_mercator_latitude_limit in
      let valid_longitude = within (neg half) half b.west && within (neg half) half b.east in
      let valid_latitude = within (neg limit) limit b.south && within (neg limit) limit b.north in
      if valid_longitude && valid_latitude && lt b.west b.east && lt b.south b.north
      then ok tt
      else err invalid_bounds

  unfoldable pub longitude_to_tile_x : Num → ℕ → ℕ
  longitude_to_tile_x longitude tiles =
      let normalized =
        clamp F (div (add longitude (literal 180 0)) (literal 360 0)) (literal 0 0) (literal 1 0) in
      min (floor (mul normalized (of_nat tiles))) (tiles - 1)

  unfoldable pub latitude_to_tile_y : Num → ℕ → ℕ
  latitude_to_tile_y latitude tiles =
      let limit = web_mercator_latitude_limit in
      let radians = to_radians (clamp F latitude (neg limit) limit) in
      let one = literal 1 0 in
      let normalized =
        div (sub one (div (ln (add (tan radians) (div one (cos radians)))) pi)) (literal 2 0) in
      min (floor (mul normalized (of_nat tiles))) (tiles - 1)

  -- The range at a zoom of so many tiles to an axis.
  unfoldable pub range_at : GeographicBounds Num → ℕ → ℕ → TileRange
  unfolding longitude_to_tile_x latitude_to_tile_y
  range_at b z tiles =
      let x₀ = longitude_to_tile_x b.west tiles in
      let x₁ = longitude_to_tile_x b.east tiles in
      let y₀ = latitude_to_tile_y b.north tiles in
      let y₁ = latitude_to_tile_y b.south tiles in
      record { z = z; min_x = min x₀ x₁; max_x = max x₀ x₁; min_y = min y₀ y₁; max_y = max y₀ y₁ }

  unfoldable pub tile_range_for_bounds : GeographicBounds Num → ℕ → Result TileMathError TileRange
  unfolding validate_bounds range_at
  tile_range_for_bounds b z = do
    validate_bounds b
    tiles ← tiles_per_axis z
    ok (range_at b z tiles)

-- A range of tiles that exist.
pub record IsRange (z : ℕ) (r : TileRange) : Type 0 where
  pub same_zoom : r.z ≡ z
  pub zoom : z ≤ max_supported_zoom
  pub columns : r.min_x ≤ r.max_x
  pub rows : r.min_y ≤ r.max_y
  pub last_column : r.max_x < 2 ^ z
  pub last_row : r.max_y < 2 ^ z

abbrev pub IsBetween : ℕ → ℕ → ℕ → Type 0
IsBetween low high n = (low ≤ n) × (n ≤ high)

abbrev pub distance : ℕ → ℕ → ℕ
distance m n = max m n - min m n

-- The columns of the western and the eastern edge and the rows of the northern and the southern one
-- lie in the range, which begins and ends with one of them.
pub record IsCover (F : Floating) (b : GeographicBounds F.Num) (r : TileRange) : Type 0 where
  pub west : IsBetween r.min_x r.max_x (longitude_to_tile_x F b.west (2 ^ r.z))
  pub east : IsBetween r.min_x r.max_x (longitude_to_tile_x F b.east (2 ^ r.z))
  pub north : IsBetween r.min_y r.max_y (latitude_to_tile_y F b.north (2 ^ r.z))
  pub south : IsBetween r.min_y r.max_y (latitude_to_tile_y F b.south (2 ^ r.z))
  pub columns :
      r.max_x - r.min_x
      ≤ distance (longitude_to_tile_x F b.west (2 ^ r.z)) (longitude_to_tile_x F b.east (2 ^ r.z))
  pub rows :
      r.max_y - r.min_y
      ≤ distance (latitude_to_tile_y F b.north (2 ^ r.z)) (latitude_to_tile_y F b.south (2 ^ r.z))

module _ (F : Floating) where
  range_at-IsCover : (b : GeographicBounds F.Num) (z : ℕ) → IsCover F b (range_at F b z (2 ^ z))
  unfolding range_at
  range_at-IsCover b z = record {
    west = (omega arith, omega arith);
    east = (omega arith, omega arith);
    north = (omega arith, omega arith);
    south = (omega arith, omega arith);
    columns = omega arith;
    rows = omega arith;
  }

  -- A range that is returned covers the area.
  pub tile_range_for_bounds-IsCover :
      (b : GeographicBounds F.Num) (z : ℕ) {r : TileRange}
      → tile_range_for_bounds F b z ≡ ok r
      → IsCover F b r
  unfolding tile_range_for_bounds
  tile_range_for_bounds-IsCover b z {r} h =
      let (_, _, after) = bind_elim (validate_bounds F b) _ h in
      let (tiles, counted, e) = bind_elim (tiles_per_axis z) _ after in
      let (_, exact, _, _) = tiles_per_axis_bounds z tiles counted in
      subst (IsCover F b) (ap (range_at F b z) (sym exact) ∙ ok_injective e) (range_at-IsCover b z)

module _ (F : Floating) where
  module _ (b : GeographicBounds F.Num) (z tiles : ℕ) (zoom : z ≤ max_supported_zoom)
      (exact : tiles ≡ 2 ^ z) (pos : 1 ≤ tiles) where
    columns-lt : (l : F.Num) → longitude_to_tile_x F l tiles < 2 ^ z
    unfolding longitude_to_tile_x
    columns-lt l = omega arith

    rows-lt : (l : F.Num) → latitude_to_tile_y F l tiles < 2 ^ z
    unfolding latitude_to_tile_y
    rows-lt l = omega arith

    IsRange-at : (r : TileRange) → range_at F b z tiles ≡ r → IsRange z r
    unfolding range_at
    IsRange-at r e =
        ground (arith, columns-lt b.west, columns-lt b.east, rows-lt b.north, rows-lt b.south)

  -- Whatever the arithmetic of floats does, rounding and NaN included: a range that is returned
  -- is in order and holds tiles of the zoom that was asked for, and of no other.
  pub tile_range_for_bounds-IsRange :
      (b : GeographicBounds F.Num) (z : ℕ) {r : TileRange}
      → tile_range_for_bounds F b z ≡ ok r
      → IsRange z r
  unfolding tile_range_for_bounds
  tile_range_for_bounds-IsRange b z {r} h =
      let (_, _, after) = bind_elim (validate_bounds F b) _ h in
      let (tiles, counted, e) = bind_elim (tiles_per_axis z) _ after in
      let (zoom, exact, pos, _) = tiles_per_axis_bounds z tiles counted in
      IsRange-at b z tiles zoom exact pos r (ok_injective e)
