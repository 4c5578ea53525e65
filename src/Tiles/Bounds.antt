-- ===== src/Tiles/Bounds.antt =====
-- `tile_bounds`, `clip_bounds` and `viirs_tile_bounds`: the area of a tile, and what two areas share.
use lumen_horizon.Prelude.{
  ◌>>=◌, ◌>>◌, ℕ, ◌+◌, ◌≡◌, ◌&&◌, ◌||◌, not, Bool, true, false, if◌then◌else◌, Option, none, some,
  Result, ok, err, refl, inl, inr,
}
use mathlib.Core.Path.{subst}
use lumen_horizon.Prelude.Int.{ℤ, pos, pos_part, ltb_ℤ}
use lumen_horizon.Float.{Floating, IsOrdered}
use lumen_horizon.Tiles.Coord.{
  TileCoord, TileMathError, invalid_viirs_tile, tiles_per_axis, validate_tile_coord,
}
use lumen_horizon.Tiles.Range.{GeographicBounds, web_mercator_latitude_limit}

module _ (F : Floating) where
  open F use {
    Num, literal, of_nat, lt, le, add, sub, mul, div, neg, max, min, to_degrees, sinh, atan, pi,
  }

  unfoldable pub tile_y_to_latitude : ℕ → Num → Num
  tile_y_to_latitude y tiles =
      let mercator = mul pi (sub (literal 1 0) (div (mul (literal 2 0) (of_nat y)) tiles)) in
      to_degrees (atan (sinh mercator))

  -- A column's western edge
  abbrev tile_x_to_longitude : ℕ → Num → Num
  tile_x_to_longitude x tiles = sub (mul (div (of_nat x) tiles) (literal 360 0)) (literal 180 0)

  unfoldable pub tile_bounds : TileCoord → Result TileMathError (GeographicBounds Num)
  unfolding tile_y_to_latitude validate_tile_coord tiles_per_axis
  tile_bounds coord = do
    validate_tile_coord coord
    count ← tiles_per_axis coord.z
    let tiles = of_nat count
    ok (record {
      west = tile_x_to_longitude coord.x tiles;
      south = tile_y_to_latitude (coord.y + 1) tiles;
      east = tile_x_to_longitude (coord.x + 1) tiles;
      north = tile_y_to_latitude coord.y tiles;
    })

  abbrev clipped : GeographicBounds Num → GeographicBounds Num → GeographicBounds Num
  clipped bounds clip_to = record {
    west = max bounds.west clip_to.west;
    south = max bounds.south clip_to.south;
    east = min bounds.east clip_to.east;
    north = min bounds.north clip_to.north;
  }

  unfoldable pub clip_bounds :
      GeographicBounds Num → GeographicBounds Num → Option (GeographicBounds Num)
  clip_bounds bounds clip_to =
      let c = clipped bounds clip_to in
      if lt c.west c.east && lt c.south c.north then some c else none

  abbrev in_range : ℤ → ℕ → Bool
  in_range n last = not (ltb_ℤ n (pos 0)) && not (ltb_ℤ (pos last) n)

  -- `f64::from` of the column and the row behind the guard, where they are not negative
  unfoldable pub viirs_tile_bounds : ℤ → ℤ → Result TileMathError (GeographicBounds Num)
  viirs_tile_bounds tile_h tile_v =
      let ten = literal 10 0 in
      let limit = web_mercator_latitude_limit F in
      let west = add (neg (literal 180 0)) (mul (of_nat (pos_part tile_h)) ten) in
      let raw_north = sub (literal 90 0) (mul (of_nat (pos_part tile_v)) ten) in
      let raw_south = sub raw_north ten in
      if not (in_range tile_h 35) || not (in_range tile_v 17)
      then err (invalid_viirs_tile tile_h tile_v)
      else ok (record {
        west = west;
        south = max raw_south (neg limit);
        east = add west ten;
        north = min raw_north limit;
      })

-- Both coordinates of the area lie between the other's.
pub record IsWithin (F : Floating) (inner outer : GeographicBounds F.Num) : Type 0 where
  pub west : F.le outer.west inner.west ≡ true
  pub south : F.le outer.south inner.south ≡ true
  pub east : F.le inner.east outer.east ≡ true
  pub north : F.le inner.north outer.north ≡ true

-- Some area that is not empty lies in both.
pub record Overlaps (F : Floating) (b c : GeographicBounds F.Num) : Type 0 where
  pub shared : GeographicBounds F.Num
  pub first : IsWithin F shared b
  pub second : IsWithin F shared c
  pub wide : F.lt shared.west shared.east ≡ true
  pub high : F.lt shared.south shared.north ≡ true

abbrev pub AreNumbers : {Num : Type 0} → (Num → Type 0) → GeographicBounds Num → Type 0
AreNumbers P b = P b.west × P b.south × P b.east × P b.north

module _ (F : Floating) (IsNumber : F.Num → Type 0) (o : IsOrdered F IsNumber) where
  -- Both tests of an area that is returned
  shared_elim :
      {A : Type 0} (wide high : Bool) (c k : A)
      → (if wide && high then some c else none) ≡ some k
      → (wide ≡ true) × (high ≡ true) × (c ≡ k)
  shared_elim true true c k h = (refl, refl, cc)
  shared_elim true false c k h = cc
  shared_elim false high c k h = cc

  -- What clipping returns is an area that is not empty, and it lies in both of the areas.
  pub clip_bounds-IsWithin :
      (b c k : GeographicBounds F.Num)
      → AreNumbers IsNumber b
      → AreNumbers IsNumber c
      → clip_bounds F b c ≡ some k
      → IsWithin F k b
        × IsWithin F k c
        × (F.lt k.west k.east ≡ true)
        × (F.lt k.south k.north ≡ true)
  unfolding clip_bounds
  clip_bounds-IsWithin b c k (bw, bs, be, bn) (cw, cs, ce, cn) h =
      let (wide, high, e) = shared_elim _ _ _ _ h in
      subst
        (λ (k : GeographicBounds F.Num).
          IsWithin F k b
          × IsWithin F k c
          × (F.lt k.west k.east ≡ true)
          × (F.lt k.south k.north ≡ true))
        e
        (
          record {
            west = o.le-max_left b.west c.west bw cw;
            south = o.le-max_left b.south c.south bs cs;
            east = o.min-le_left b.east c.east be ce;
            north = o.min-le_left b.north c.north bn cn;
          },
          record {
            west = o.le-max_right b.west c.west bw cw;
            south = o.le-max_right b.south c.south bs cs;
            east = o.min-le_right b.east c.east be ce;
            north = o.min-le_right b.north c.north bn cn;
          },
          wide,
          high,
        )

  wide_lt :
      (b c : GeographicBounds F.Num) (k : GeographicBounds F.Num)
      → IsWithin F k b
      → IsWithin F k c
      → F.lt k.west k.east ≡ true
      → F.lt (F.max b.west c.west) (F.min b.east c.east) ≡ true
  wide_lt b c k p q wide =
      let low : F.lt (F.max b.west c.west) k.east ≡ true = elim (o.max_pick b.west c.west) [
        | inl e ↦ rw e (o.le_lt_trans b.west k.west k.east p.west wide)
        | inr e ↦ rw e (o.le_lt_trans c.west k.west k.east q.west wide)
      ] in
      elim (o.min_pick b.east c.east) [
        | inl e ↦ rw e (o.lt_le_trans (F.max b.west c.west) k.east b.east low p.east)
        | inr e ↦ rw e (o.lt_le_trans (F.max b.west c.west) k.east c.east low q.east)
      ]

  high_lt :
      (b c : GeographicBounds F.Num) (k : GeographicBounds F.Num)
      → IsWithin F k b
      → IsWithin F k c
      → F.lt k.south k.north ≡ true
      → F.lt (F.max b.south c.south) (F.min b.north c.north) ≡ true
  high_lt b c k p q high =
      let low : F.lt (F.max b.south c.south) k.north ≡ true = elim (o.max_pick b.south c.south) [
        | inl e ↦ rw e (o.le_lt_trans b.south k.south k.north p.south high)
        | inr e ↦ rw e (o.le_lt_trans c.south k.south k.north q.south high)
      ] in
      elim (o.min_pick b.north c.north) [
        | inl e ↦ rw e (o.lt_le_trans (F.max b.south c.south) k.north b.north low p.north)
        | inr e ↦ rw e (o.lt_le_trans (F.max b.south c.south) k.north c.north low q.north)
      ]

  -- Two areas that overlap have a clip.
  pub clip_bounds-Overlaps :
      (b c : GeographicBounds F.Num)
      → Overlaps F b c
      → (k : GeographicBounds F.Num) × (clip_bounds F b c ≡ some k)
  unfolding clip_bounds
  clip_bounds-Overlaps b c x = (
    clipped F b c,
    rw (wide_lt b c x.shared x.first x.second x.wide, high_lt b c x.shared x.first x.second x.high)
        refl,
  )

  -- A clip shows that the areas overlap.
  pub Overlaps-clip_bounds :
      (b c k : GeographicBounds F.Num)
      → AreNumbers IsNumber b
      → AreNumbers IsNumber c
      → clip_bounds F b c ≡ some k
      → Overlaps F b c
  Overlaps-clip_bounds b c k bn cn h =
      let (p, q, wide, high) = clip_bounds-IsWithin b c k bn cn h in
      record { shared = k; first = p; second = q; wide = wide; high = high }

  -- Areas that meet at an edge only do not overlap.
  pub Overlaps-touching : (b c : GeographicBounds F.Num) → b.west ≡ c.east → Overlaps F b c → ⊥
  Overlaps-touching b c touch x =
      let k = x.shared in
      let west = o.le_lt_trans b.west k.west k.east x.first.west x.wide in
      let east = o.lt_le_trans b.west k.east c.east west x.second.east in
      cc (o.lt_irrefl c.east, east, touch)
