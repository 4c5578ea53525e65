-- ===== src/Generate/Tests.antt =====
-- Runs of the planning code, and its theorems at concrete inputs.
use lumen_horizon.Prelude.{ℕ, ◌*◌, ◌^◌, ◌+◌, ◌-◌, ◌<◌, ◌≡◌, refl, [], ◌∷◌, ok, length}
use lumen_horizon.Prelude.Int.{ℤ, pos}
use lumen_horizon.Float.Fixed.{fixed}
use lumen_horizon.Tiles.Coord.{tiles_per_axis}
use lumen_horizon.Tiles.Range.{GeographicBounds, tile_range_for_bounds}
use lumen_horizon.Generate.Types.{TileGenerationPlan}
use lumen_horizon.Generate.Planning.{
  plan_tile_generation_for_bounds, tile_range_tile_count, IsPlanned, areas, plan-IsPlanned,
}

abbrev degrees : ℕ → ℤ
degrees n = pos (n * 10 ^ 8)

abbrev bounds : GeographicBounds ℤ
bounds = record { west = degrees 10; south = degrees 20; east = degrees 30; north = degrees 40 }

abbrev plan : TileGenerationPlan
plan = record {
  ranges =
      record { z = 3; min_x = 4; max_x = 4; min_y = 0; max_y = 0 }
      ∷ record { z = 4; min_x = 8; max_x = 9; min_y = 0; max_y = 0 }
      ∷ [];
  tile_count = 3;
}

plans_two_zooms : plan_tile_generation_for_bounds fixed bounds 3 4 ≡ ok plan
unfolding plan_tile_generation_for_bounds tile_range_for_bounds tiles_per_axis tile_range_tile_count
plans_two_zooms = refl

plan-IsPlanned_example :
    IsPlanned fixed bounds 3 plan.ranges
    × (length plan.ranges ≡ 4 + 1 - 3)
    × (plan.tile_count ≡ areas plan.ranges)
    × (plan.tile_count < 2 ^ 32)
plan-IsPlanned_example = plan-IsPlanned fixed bounds 3 4 plan plans_two_zooms
