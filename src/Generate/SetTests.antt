-- ===== src/Generate/SetTests.antt =====
-- A tile set generated from two tiles, and the theorems on rendering at concrete inputs.
use lumen_horizon.Prelude.{
  ℕ, ◌*◌, ◌^◌, ◌≤◌, ◌≡◌, ◌↔◌, refl, List, [], ◌∷◌, length, Text, codes, Option, some, Result, ok,
  err, All,
}
use lumen_horizon.Prelude.Int.{ℤ, pos, negsuc}
use lumen_horizon.Float.Fixed.{fixed, Every, fixed-IsOrdered}
use lumen_horizon.Tiles.Coord.{TileCoord, validate_tile_coord, tiles_per_axis}
use lumen_horizon.Tiles.Paths.{manifest_blob_path, validate_tile_set_id}
use lumen_horizon.Tiles.Range.{GeographicBounds, tile_range_for_bounds}
use lumen_horizon.Tiles.Bounds.{clip_bounds, tile_bounds, Overlaps}
use lumen_horizon.Message.Product.{vnp46a2}
use lumen_horizon.Science.Mapping.{daily_mapping, RasterShape, RasterWindow, sample_value_as_u16}
use lumen_horizon.Science.Pixel.{
  classify_pixel_sample, optional_u16, is_renderable_sample, classify_radiance,
  classify_daily_quality, is_cloud_contaminated,
}
use lumen_horizon.Science.DarkSky.{dark_sky_classes}
use lumen_horizon.Publish.Types.{TileManifest}
use lumen_horizon.Generate.Types.{GenerateError, TileGenerationPlan}
use lumen_horizon.Generate.Planning.{plan_tile_generation_for_bounds, tile_range_tile_count}
use lumen_horizon.Generate.Jobs.{Job, tile_render_jobs, planned_tiles}
use lumen_horizon.Generate.Window.{raster_window_for_tile}
use lumen_horizon.Generate.Enumeration.{HasOverlap, tile_render_jobs_iff}
use lumen_horizon.Generate.JoinSet.{Joined, finished, render_jobs, LoopState, round, spawn_jobs}
use lumen_horizon.Generate.Parallel.{in_order, IsResult, render_jobs-IsResult}
use lumen_horizon.Generate.InFlight.{Reachable, start, next, in_flight_bounded}
use lumen_horizon.Generate.Samples.{RasterSample, render_tile_window_from_granule}
use lumen_horizon.Generate.Images.{IsTileResult, render_tile_window_from_granule-IsTileResult}
use lumen_horizon.Generate.Manifest.{AppConfig, ManifestFields}
use lumen_horizon.Generate.TileSet.{
  GeneratedTileSet, TileSetBuildRequest, generate_tile_set_for_granule_with_manifest,
}
use lumen_horizon.Generate.Complete.{IsComplete, granule_tile_set-IsComplete}

-- In tenths of a degree
abbrev east_of : ℕ → ℤ
east_of n = pos (n * 10 ^ 7)

abbrev source : GeographicBounds ℤ
source = record {
  west = negsuc 999_999_999;
  south = east_of 1;
  east = east_of 100;
  north = east_of 5;
}

abbrev shape : RasterShape
shape = record { width = 100; height = 100 }

abbrev job : ℕ → Job
job n = record {
  index = n;
  coord = record { z = 2; x = n; y = 0 };
  window = record { x_offset = 0; y_offset = 0; width = 1; height = 1 };
}

abbrev three_jobs : List Job
three_jobs = job 0 ∷ job 1 ∷ job 2 ∷ []

abbrev draw : Job → Joined fixed
draw j = finished (ok (record { coord = j.coord; png_bytes = j.index ∷ [] }))

-- The last task that runs is the first to end.
render_jobs-IsResult_example :
    IsResult fixed draw three_jobs
      (in_order fixed draw three_jobs)
      (render_jobs fixed draw (λ k. 5) 2 three_jobs)
render_jobs-IsResult_example =
    render_jobs-IsResult fixed draw (λ k. 5) 2 three_jobs (refl, (refl, (refl, tt)))

abbrev after_one : LoopState fixed
after_one = record {
  jobs = job 2 ∷ [];
  running = job 0 ∷ [];
  tiles = (1, record { coord = record { z = 2; x = 1; y = 0 }; png_bytes = 1 ∷ [] }) ∷ [];
}

one_round : Reachable fixed draw (λ k. 5) 2 three_jobs after_one
unfolding round spawn_jobs
one_round = next start refl refl

in_flight_bounded_example : length (spawn_jobs fixed 2 after_one.jobs after_one.running).1 ≤ 2
in_flight_bounded_example = in_flight_bounded fixed draw (λ k. 5) 2 three_jobs one_round

abbrev root : TileCoord
root = record { z = 0; x = 0; y = 0 }

-- The east of the source is the west of the second column at zoom 1, whose tile is planned.
abbrev western : GeographicBounds ℤ
western = record source { east = pos 0 }

abbrev western_plan : TileGenerationPlan
western_plan = record {
  ranges = record { z = 1; min_x = 0; max_x = 1; min_y = 0; max_y = 0 } ∷ [];
  tile_count = 2;
}

plans_touching_tile : plan_tile_generation_for_bounds fixed western 1 1 ≡ ok western_plan
unfolding plan_tile_generation_for_bounds tile_range_for_bounds tiles_per_axis tile_range_tile_count
plans_touching_tile = refl

fails_for_touching_tile :
    tile_render_jobs fixed western shape western_plan
    ≡ err (GenerateError.tile_outside_source_bounds (record { z = 1; x = 1; y = 0 }) western)
unfolding tile_render_jobs raster_window_for_tile tile_bounds clip_bounds validate_tile_coord
    tiles_per_axis
fails_for_touching_tile = refl

tile_render_jobs_iff_example :
    (((jobs : List Job) × (tile_render_jobs fixed western shape western_plan ≡ ok jobs))
      ↔ All (HasOverlap fixed western) (planned_tiles western_plan.ranges))
    × ((tile : GeographicBounds ℤ) → tile.west ≡ western.east → Overlaps fixed tile western → ⊥)
tile_render_jobs_iff_example =
    tile_render_jobs_iff fixed Every fixed-IsOrdered (λ coord tile h. (tt, tt, tt, tt)) western
      (tt, tt, tt, tt) shape western_plan

abbrev one_sample : Text → RasterWindow → ℕ × ℕ → Result Text (List (RasterSample fixed))
one_sample name window size = ok (record { x = pos 0; y = pos 0; value = pos 0 } ∷ [])

abbrev as_is : List ℕ → ℕ → ℕ → Option (List ℕ)
as_is rgba width height = some rgba

abbrev window : RasterWindow
window = record { x_offset = 0; y_offset = 0; width = 1; height = 1 }

render_tile_window_from_granule-IsTileResult_example : IsTileResult fixed as_is root 1 (
    render_tile_window_from_granule fixed as_is one_sample
      (daily_mapping fixed vnp46a2)
      root
      window
      1)
render_tile_window_from_granule-IsTileResult_example =
    render_tile_window_from_granule-IsTileResult fixed as_is one_sample
      (daily_mapping fixed vnp46a2) root window 1

abbrev config : AppConfig fixed
config = record {
  processing_max_parallelism = 2;
  tile_min_zoom = 0;
  tile_max_native_zoom = 0;
  tile_max_display_zoom = 2;
  tile_size = 1;
  tile_format = codes "png";
  tile_classification_version = codes "v1";
  tile_render_version = codes "r1";
  tile_cdn_base_url = codes "https://t/";
  tile_bounds = record {
    west = negsuc 999_999_999;
    south = east_of 1;
    east = east_of 50;
    north = east_of 5;
  };
}

abbrev request : TileSetBuildRequest fixed
request = record {
  tile_set_id = codes "2026-05-21-a1";
  dataset_date = 20260521;
  generated_at = 7;
  processor_version = codes "p";
  generation_bounds = source;
  source_bounds = source;
  raster_shape = shape;
  source_granules = [];
}

abbrev json_of : TileManifest (ManifestFields fixed) → Result Text Text
json_of m = ok m.tile_set_id

abbrev no_hash : Text → Text
no_hash s = s

abbrev expected_set : GeneratedTileSet fixed
expected_set = record {
  plan = record {
    ranges = record { z = 0; min_x = 0; max_x = 0; min_y = 0; max_y = 0 } ∷ [];
    tile_count = 1;
  };
  tiles = record { coord = root; png_bytes = 5 ∷ 7 ∷ 13 ∷ 255 ∷ [] } ∷ [];
  manifest = record {
    tile_set_id = codes "2026-05-21-a1";
    tile_count = 1;
    manifest_sha256 = codes "2026-05-21-a1";
    rest = record {
      dataset_date = 20260521;
      generated_at = 7;
      classification_version = codes "v1";
      render_version = codes "r1";
      processor_version = codes "p";
      format = codes "png";
      tile_size = 1;
      min_zoom = 0;
      max_native_zoom = 0;
      max_display_zoom = 2;
      bounds = config.tile_bounds;
      tile_url_template = codes "https://t/tiles/2026-05-21-a1/{z}/{x}/{y}.png";
      source_granules = [];
    };
  };
}

generates_one_tile :
    generate_tile_set_for_granule_with_manifest fixed json_of no_hash
      (λ k. 0)
      as_is
      one_sample
      config
      (daily_mapping fixed vnp46a2)
      request
    ≡ some (ok expected_set)
unfolding generate_tile_set_for_granule_with_manifest tile_range_for_bounds tiles_per_axis
    tile_range_tile_count raster_window_for_tile classify_pixel_sample sample_value_as_u16
    optional_u16 is_renderable_sample classify_radiance classify_daily_quality is_cloud_contaminated
    dark_sky_classes manifest_blob_path validate_tile_set_id
generates_one_tile = refl

granule_tile_set-IsComplete_example :
    (bounds : GeographicBounds ℤ) × (clip_bounds fixed request.source_bounds config.tile_bounds
      ≡ some bounds)
    × IsComplete fixed json_of no_hash config
        (record request { generation_bounds = bounds })
        expected_set
granule_tile_set-IsComplete_example =
    granule_tile_set-IsComplete fixed json_of no_hash as_is one_sample (λ k. 0) config
      (daily_mapping fixed vnp46a2) request expected_set generates_one_tile
