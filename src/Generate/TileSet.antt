-- ===== src/Generate/TileSet.antt =====
-- `generate_tile_set_with_renderer` and `generate_tile_set_for_granule_with_manifest`: the plan, the
-- tiles and the manifest of one granule.
use lumen_horizon.Prelude.{
  ◌>>=◌, ℕ, ◌^◌, ◌%◌, ◌≡◌, List, [], ◌∷◌, length, map, Text, codes, Option, none, some, Result, ok,
  err, bind_elim, ok_injective, refl, ap, sym,
}
use lumen_horizon.Float.{Floating}
use lumen_horizon.Tiles.Range.{GeographicBounds}
use lumen_horizon.Tiles.Bounds.{clip_bounds}
use lumen_horizon.Science.Mapping.{DatasetMapping, RasterShape, RasterWindow}
use lumen_horizon.Publish.Types.{TileManifest, RenderedTile}
use lumen_horizon.Generate.Types.{
  GenerateError, configured_bounds_outside_source, manifest_error, TileGenerationPlan, map_error,
}
use lumen_horizon.Generate.Planning.{plan_tile_generation_for_bounds}
use lumen_horizon.Generate.Jobs.{Job}
use lumen_horizon.Generate.JoinSet.{
  Joined, finished, panicked, generate_tiles_for_plan_with_renderer,
}
use lumen_horizon.Generate.Completion.{task}
use lumen_horizon.Generate.Parallel.{in_order}
use lumen_horizon.Generate.Samples.{RasterSample, render_tile_window_from_granule}
use lumen_horizon.Generate.Manifest.{
  AppConfig, ManifestFields, SourceGranule, TileManifestInput, from_config,
}

module _ (F : Floating) where
  pub record GeneratedTileSet : Type 0 where
    pub plan : TileGenerationPlan
    pub tiles : List RenderedTile
    pub manifest : TileManifest (ManifestFields F)

  pub record TileSetBuildRequest : Type 0 where
    pub tile_set_id : Text
    pub dataset_date : ℕ
    pub generated_at : ℕ
    pub processor_version : Text
    pub generation_bounds : GeographicBounds F.Num
    pub source_bounds : GeographicBounds F.Num
    pub raster_shape : RasterShape
    pub source_granules : List SourceGranule

  -- serde's JSON of a manifest, SHA-256, and the order in which tasks end
  module _ (to_string : TileManifest (ManifestFields F) → Result Text Text)
      (sha256_hex : Text → Text) (schedule : ℕ → ℕ) where
    abbrev pub manifest_input : TileSetBuildRequest → List RenderedTile → TileManifestInput F
    manifest_input request tiles = record {
      tile_set_id = request.tile_set_id;
      dataset_date = request.dataset_date;
      generated_at = request.generated_at;
      processor_version = request.processor_version;
      bounds = request.generation_bounds;
      tile_count = length tiles % 2 ^ 32;
      source_granules = request.source_granules;
    }

    abbrev pub with_manifest :
        AppConfig F
        → TileSetBuildRequest
        → TileGenerationPlan
        → List RenderedTile
        → Result (GenerateError F) GeneratedTileSet
    with_manifest config request plan tiles = do
      manifest ←
          map_error manifest_error
            (from_config F to_string sha256_hex config (manifest_input request tiles))
      ok (record { plan = plan; tiles = tiles; manifest = manifest })

    -- `None` is a run that is not over.
    unfoldable pub generate_tile_set_with_renderer :
        AppConfig F
        → TileSetBuildRequest
        → (Job → Joined F)
        → Option (Result (GenerateError F) GeneratedTileSet)
    unfolding plan_tile_generation_for_bounds generate_tiles_for_plan_with_renderer from_config
    generate_tile_set_with_renderer config request render_tile =
        elim (plan_tile_generation_for_bounds F request.generation_bounds config.tile_min_zoom
          config.tile_max_native_zoom) [
            | err e ↦ some (err e)
            | ok plan ↦
                elim (generate_tiles_for_plan_with_renderer F render_tile schedule
                  request.source_bounds request.raster_shape plan
                  config.processing_max_parallelism) [
                    | none ↦ none
                    | some tiles ↦ some (do tiles ← tiles; with_manifest config request plan tiles)
                  ]
          ]

    -- A panic of the blocking task, or its result
    abbrev pub joined_of : Option (Result (GenerateError F) RenderedTile) → Joined F
    joined_of none = panicked (codes "panic")
    joined_of (some r) = finished r

    module _ (write_image : List ℕ → ℕ → ℕ → Option (List ℕ))
        (resized : Text → RasterWindow → ℕ × ℕ → Result Text (List (RasterSample F))) where
      -- The renderer of a granule's tiles
      abbrev pub granule_renderer : DatasetMapping F → ℕ → Job → Joined F
      granule_renderer mapping tile_size job = joined_of (
          render_tile_window_from_granule F write_image resized mapping job.coord job.window
            tile_size)

      abbrev pub clipped_request :
          TileSetBuildRequest → GeographicBounds F.Num → TileSetBuildRequest
      clipped_request request generation_bounds = record request {
        generation_bounds = generation_bounds;
      }

      -- The request's generation bounds are what the configured bounds leave of the source.
      unfoldable pub generate_tile_set_for_granule_with_manifest :
          AppConfig F
          → DatasetMapping F
          → TileSetBuildRequest
          → Option (Result (GenerateError F) GeneratedTileSet)
      unfolding clip_bounds generate_tile_set_with_renderer render_tile_window_from_granule
      generate_tile_set_for_granule_with_manifest config mapping request =
          elim (clip_bounds F request.source_bounds config.tile_bounds) [
            | none ↦
                some
                  (err (configured_bounds_outside_source request.source_bounds config.tile_bounds))
            | some generation_bounds ↦
                generate_tile_set_with_renderer config (clipped_request request generation_bounds)
                  (granule_renderer mapping config.tile_size)
          ]

  -- A renderer that renders the tile it is given
  abbrev pub KeepsCoord : (Job → Joined F) → Type 0
  KeepsCoord render_tile =
      (job : Job) (t : RenderedTile) → task F render_tile job ≡ ok t → t.coord ≡ job.coord

  pub in_order-coords :
      (render_tile : Job → Joined F)
      → KeepsCoord render_tile
      → (jobs : List Job) (tiles : List RenderedTile) → in_order F render_tile jobs ≡ ok tiles
      → map (λ (t : RenderedTile). t.coord) tiles ≡ map (λ (job : Job). job.coord) jobs
  in_order-coords render_tile keep [] tiles h =
      ap (map (λ (t : RenderedTile). t.coord)) (sym (ok_injective h))
  in_order-coords render_tile keep (job ∷ jobs) tiles h =
      let (t, e, after) = bind_elim (task F render_tile job) _ h in
      let (ts, f, last) = bind_elim (in_order F render_tile jobs) _ after in
      rw (← ok_injective last) (rw (keep job t e, in_order-coords render_tile keep jobs ts f) refl)
