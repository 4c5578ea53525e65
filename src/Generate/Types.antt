-- ===== src/Generate/Types.antt =====
-- The errors of the generation, and its plan.
use lumen_horizon.Prelude.{ℕ, List, Text, Option, Result, ok, err}
use lumen_horizon.Float.{Floating}
use lumen_horizon.Tiles.Coord.{TileCoord, TileMathError}
use lumen_horizon.Tiles.Range.{GeographicBounds, TileRange}
use lumen_horizon.Science.Mapping.{ScienceError}

pub data RenderError : Type 0 where
  encode_png : RenderError
  invalid_class_color : Text → RenderError
  invalid_tile_size : RenderError
  pixel_count_mismatch : ℕ → ℕ → ℕ → RenderError

pub data ManifestError : Type 0 where
  serialize_manifest : Text → ManifestError
  manifest_tile_math : TileMathError → ManifestError

module _ (F : Floating) where
  -- An error of GDAL's tools and of a panicked task is its text.
  pub data GenerateError : Type 0 where
    configured_bounds_outside_source :
        GeographicBounds F.Num → GeographicBounds F.Num → GenerateError
    hdf_cli : Text → GenerateError
    manifest_error : ManifestError → GenerateError
    render_tile_error : TileCoord → RenderError → GenerateError
    sample_count_mismatch : ℕ → ℕ → Option ℕ → Option ℕ → GenerateError
    render_worker : Text → GenerateError
    science_error : ScienceError F → GenerateError
    tile_count_overflow : ℕ → GenerateError
    tile_math : TileMathError → GenerateError
    tile_outside_source_bounds : TileCoord → GeographicBounds F.Num → GenerateError

-- `?` with `From`
abbrev pub map_error : {D E A : Type 0} → (D → E) → Result D A → Result E A
map_error f (ok a) = ok a
map_error f (err e) = err (f e)

pub record TileGenerationPlan : Type 0 where
  pub ranges : List TileRange
  pub tile_count : ℕ
