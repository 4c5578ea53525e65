-- ===== src/Generate/Over.antt =====
-- A generation comes to its end.
use lumen_horizon.Prelude.{
  ℕ, Text, List, Option, some, Result, ok, err, ◌≡◌, refl, Result-cases, inl, inr,
}
use lumen_horizon.Float.{Floating}
use lumen_horizon.Tiles.Range.{GeographicBounds}
use lumen_horizon.Science.Mapping.{RasterShape}
use lumen_horizon.Publish.Types.{TileManifest, RenderedTile}
use lumen_horizon.Generate.Types.{GenerateError, TileGenerationPlan}
use lumen_horizon.Generate.Planning.{plan_tile_generation_for_bounds}
use lumen_horizon.Generate.Jobs.{Job, tile_render_jobs}
use lumen_horizon.Generate.Enumeration.{tile_render_jobs-IsEnumeration}
use lumen_horizon.Generate.JoinSet.{Joined, generate_tiles_for_plan_with_renderer}
use lumen_horizon.Generate.Parallel.{in_order, IsResult, render_jobs-IsResult}
use lumen_horizon.Generate.Manifest.{AppConfig, ManifestFields}
use lumen_horizon.Generate.TileSet.{
  GeneratedTileSet, TileSetBuildRequest, generate_tile_set_with_renderer,
}

module _ (F : Floating) (render_tile : Job → Joined F) (schedule : ℕ → ℕ) where
  result-over :
      (jobs : List Job) (r : Result (GenerateError F) (List RenderedTile))
      (o : Option (Result (GenerateError F) (List RenderedTile)))
      → IsResult F render_tile jobs r o
      → (t : Result (GenerateError F) (List RenderedTile)) × (o ≡ some t)
  result-over jobs (ok tiles) o h = (ok tiles, h)
  result-over jobs (err x) o (e, _, _, _, h) = (err e, h)

  tiles-over :
      (source : GeographicBounds F.Num) (shape : RasterShape) (plan : TileGenerationPlan) (n : ℕ)
      → (t : Result (GenerateError F) (List RenderedTile)) × (generate_tiles_for_plan_with_renderer
            F render_tile schedule source shape plan n
          ≡ some t)
  unfolding generate_tiles_for_plan_with_renderer
  tiles-over source shape plan n = elim (Result-cases (tile_render_jobs F source shape plan)) [
    | inl (e, f) ↦ rw (f, generate_tiles_for_plan_with_renderer) (err e, refl)
    | inr (jobs, f) ↦
        let numbered = (tile_render_jobs-IsEnumeration F source shape plan jobs f).numbered in
        rw (f, generate_tiles_for_plan_with_renderer)
          (result-over jobs (in_order F render_tile jobs) _
            (render_jobs-IsResult F render_tile schedule n jobs numbered))
  ]

  -- Whatever the renderer does and whichever task ends next, the generation returns a result.
  pub generate_tile_set_with_renderer-over :
      (to_string : TileManifest (ManifestFields F) → Result Text Text) (sha256_hex : Text → Text)
      (config : AppConfig F) (request : TileSetBuildRequest F)
      → (r : Result (GenerateError F) (GeneratedTileSet F)) × (generate_tile_set_with_renderer F
            to_string sha256_hex schedule config request render_tile
          ≡ some r)
  unfolding generate_tile_set_with_renderer
  generate_tile_set_with_renderer-over to_string sha256_hex config request =
      elim (Result-cases (
        plan_tile_generation_for_bounds F request.generation_bounds config.tile_min_zoom
          config.tile_max_native_zoom)) [
            | inl (e, f) ↦ rw (f, generate_tile_set_with_renderer) (err e, refl)
            | inr (plan, f) ↦
                let (t, g) =
                  tiles-over request.source_bounds request.raster_shape plan
                    config.processing_max_parallelism in
                rw (f, g, generate_tile_set_with_renderer) (_, refl)
          ]
