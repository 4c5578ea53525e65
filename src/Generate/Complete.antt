-- ===== src/Generate/Complete.antt =====
-- What a generated tile set is, whatever the order in which its tiles were rendered.
use lumen_horizon.Prelude.{
  ℕ, ◌≡◌, arith, List, length, map, Text, Option, none, some, Result, ok, err, bind_elim,
  ok_injective, refl, ap, sym, ◌∙◌, Result-cases, Option-cases, inl, inr, suc, [], ◌∷◌,
}
use mathlib.Core.Path.{subst}
use lumen_horizon.Float.{Floating}
use lumen_horizon.Tiles.Range.{GeographicBounds}
use lumen_horizon.Tiles.Bounds.{clip_bounds}
use lumen_horizon.Science.Mapping.{DatasetMapping, RasterShape, RasterWindow}
use lumen_horizon.Publish.Types.{TileManifest, RenderedTile}
use lumen_horizon.Generate.Types.{GenerateError, TileGenerationPlan, map_error}
use lumen_horizon.Generate.Planning.{plan_tile_generation_for_bounds, plan-IsPlanned}
use lumen_horizon.Generate.Jobs.{Job, tile_render_jobs, planned_tiles, IsNumbered}
use lumen_horizon.Generate.Enumeration.{planned_jobs-IsEnumeration, length-map}
use lumen_horizon.Generate.JoinSet.{Joined, render_jobs, generate_tiles_for_plan_with_renderer}
use lumen_horizon.Generate.Completion.{task}
use lumen_horizon.Generate.Parallel.{in_order, IsResult, render_jobs-IsResult}
use lumen_horizon.Generate.Samples.{RasterSample, render_tile_window_from_granule}
use lumen_horizon.Generate.Images.{render_tile_window_from_granule-IsTileResult, IsTileResult}
use lumen_horizon.Generate.Manifest.{
  AppConfig, ManifestFields, from_config, from_config-checksum, compute_manifest_sha256,
}
use lumen_horizon.Generate.TileSet.{
  GeneratedTileSet, TileSetBuildRequest, manifest_input, with_manifest,
  generate_tile_set_with_renderer, generate_tile_set_for_granule_with_manifest, granule_renderer,
  joined_of, KeepsCoord, in_order-coords,
}

some_injective : {A : Type 0} {a b : A} → (let o : Option A = some a in o) ≡ some b → a ≡ b
some_injective h = cc

length-coords :
    (tiles : List RenderedTile) → length (map (λ (t : RenderedTile). t.coord) tiles) ≡ length tiles
length-coords [] = refl
length-coords (t ∷ tiles) = ap suc (length-coords tiles)

module _ (F : Floating) where
  -- A loop that has returned tiles has returned those of the jobs in their order.
  in_order-of :
      (render_tile : Job → Joined F) (schedule : ℕ → ℕ) (n : ℕ) (jobs : List Job)
      {tiles : List RenderedTile}
      → IsNumbered 0 jobs
      → render_jobs F render_tile schedule n jobs ≡ some (ok tiles)
      → in_order F render_tile jobs ≡ ok tiles
  in_order-of render_tile schedule n jobs {tiles} numbered h =
      known (in_order F render_tile jobs) refl
        (render_jobs-IsResult F render_tile schedule n jobs numbered)
    where
      known :
          (r : Result (GenerateError F) (List RenderedTile))
          → in_order F render_tile jobs ≡ r
          → IsResult F render_tile jobs r (render_jobs F render_tile schedule n jobs)
          → in_order F render_tile jobs ≡ ok tiles
      known (ok ts) e g = cc
      known (err x) e (x', job, m, f, g) = cc

  module _ (source : GeographicBounds F.Num) (shape : RasterShape) (render_tile : Job → Joined F)
      (schedule : ℕ → ℕ) (plan : TileGenerationPlan) (n : ℕ) where
    abbrev generated : Option (Result (GenerateError F) (List RenderedTile))
    generated = generate_tiles_for_plan_with_renderer F render_tile schedule source shape plan n

    -- The jobs that tiles come from
    tiles-jobs :
        {tiles : List RenderedTile}
        → generated ≡ some (ok tiles)
        → (jobs : List Job) × (tile_render_jobs F source shape plan ≡ ok jobs)
          × (render_jobs F render_tile schedule n jobs ≡ some (ok tiles))
    unfolding generate_tiles_for_plan_with_renderer
    tiles-jobs h = elim (Result-cases (tile_render_jobs F source shape plan)) [
      | inl (e, f) ↦ cc (rw (f, generate_tiles_for_plan_with_renderer) at h)
      | inr (jobs, f) ↦ (jobs, f, rw (f, generate_tiles_for_plan_with_renderer) at h)
    ]

  module _ (to_string : TileManifest (ManifestFields F) → Result Text Text)
      (sha256_hex : Text → Text) where
    -- The plan is the one of the bounds, the tiles are the plan's in its order and as many as it
    -- counts, and the manifest has that count, the id of the request and the right checksum.
    pub record IsComplete (config : AppConfig F) (request : TileSetBuildRequest F)
        (set : GeneratedTileSet F) : Type 0 where
      pub planned :
          plan_tile_generation_for_bounds F request.generation_bounds config.tile_min_zoom
            config.tile_max_native_zoom
          ≡ ok set.plan
      pub shown : map (λ (t : RenderedTile). t.coord) set.tiles ≡ planned_tiles set.plan.ranges
      pub counted : length set.tiles ≡ set.plan.tile_count
      pub manifest_count : set.manifest.tile_count ≡ set.plan.tile_count
      pub manifest_id : set.manifest.tile_set_id ≡ request.tile_set_id
      pub checksum :
          compute_manifest_sha256 F to_string sha256_hex set.manifest
          ≡ ok set.manifest.manifest_sha256

    module _ (schedule : ℕ → ℕ) (config : AppConfig F) (request : TileSetBuildRequest F)
        (render_tile : Job → Joined F) where
      -- The steps of a generation that has returned a set
      record Steps (set : GeneratedTileSet F) : Type 0 where
        planned :
            plan_tile_generation_for_bounds F request.generation_bounds config.tile_min_zoom
              config.tile_max_native_zoom
            ≡ ok set.plan
        rendered :
            generated request.source_bounds request.raster_shape render_tile schedule set.plan
              config.processing_max_parallelism
            ≡ some (ok set.tiles)
        signed :
            from_config F to_string sha256_hex config
              (manifest_input F to_string sha256_hex schedule request set.tiles)
            ≡ ok set.manifest

      map_error_elim :
          {D E A : Type 0} (f : D → E) (r : Result D A) {a : A} → map_error f r ≡ ok a → r ≡ ok a
      map_error_elim f (ok a) h = cc
      map_error_elim f (err e) h = cc

      manifest-Steps :
          (plan : TileGenerationPlan) (tiles : List RenderedTile) (set : GeneratedTileSet F)
          → plan_tile_generation_for_bounds F request.generation_bounds config.tile_min_zoom
              config.tile_max_native_zoom
            ≡ ok plan
          → generated request.source_bounds request.raster_shape render_tile schedule plan
              config.processing_max_parallelism
            ≡ some (ok tiles)
          → with_manifest F to_string sha256_hex schedule config request plan tiles ≡ ok set
          → Steps set
      manifest-Steps plan tiles set p g h =
          let (manifest, e, last) =
            bind_elim
              (map_error GenerateError.manifest_error (
                from_config F to_string sha256_hex config
                  (manifest_input F to_string sha256_hex schedule request tiles)))
              _ h in
          subst Steps (ok_injective last)
            (record { planned = p; rendered = g; signed = map_error_elim _ _ e })

      tile_set-Steps :
          (set : GeneratedTileSet F)
          → generate_tile_set_with_renderer F to_string sha256_hex schedule config request
              render_tile
            ≡ some (ok set)
          → Steps set
      unfolding generate_tile_set_with_renderer
      tile_set-Steps set h =
          elim (Result-cases (
            plan_tile_generation_for_bounds F request.generation_bounds config.tile_min_zoom
              config.tile_max_native_zoom)) [
                | inl (e, f) ↦ cc (rw (f, generate_tile_set_with_renderer) at h)
                | inr (plan, p) ↦
                    let rest = rw (p, generate_tile_set_with_renderer) at h in
                    elim (Option-cases (
                      generated request.source_bounds request.raster_shape render_tile schedule plan
                        config.processing_max_parallelism)) [
                          | inl over ↦ cc (rw over at rest)
                          | inr (tiles, g) ↦ elim (Result-cases tiles) [
                            | inl (e, f) ↦ cc (rw (g, f) at rest)
                            | inr (tiles, f) ↦
                                manifest-Steps plan tiles set p (rw f at g)
                                  (some_injective (rw (g, f) at rest))
                          ]
                        ]
              ]

      Steps-IsComplete :
          KeepsCoord F render_tile
          → (set : GeneratedTileSet F) → Steps set
          → IsComplete config request set
      Steps-IsComplete keep set s =
          let (jobs, listed, r) =
            tiles-jobs request.source_bounds request.raster_shape render_tile schedule set.plan
              config.processing_max_parallelism s.rendered in
          let (count, e) =
            planned_jobs-IsEnumeration F request.source_bounds request.raster_shape
              request.generation_bounds config.tile_min_zoom config.tile_max_native_zoom set.plan
              jobs s.planned listed in
          let tiles = in_order-of render_tile schedule _ jobs e.numbered r in
          let shown = in_order-coords F render_tile keep jobs set.tiles tiles ∙ e.shown in
          let counted : length set.tiles ≡ set.plan.tile_count =
            sym (length-coords set.tiles)
            ∙ ap length (in_order-coords F render_tile keep jobs set.tiles tiles)
            ∙ length-map jobs
            ∙ count in
          let (_, _, _, fits) =
            plan-IsPlanned F request.generation_bounds config.tile_min_zoom
              config.tile_max_native_zoom set.plan s.planned in
          let (checksum, id, manifest_count) =
            from_config-checksum F to_string sha256_hex config _ set.manifest s.signed in
          record {
            planned = s.planned;
            shown = shown;
            counted = counted;
            manifest_count = manifest_count ∙ omega arith;
            manifest_id = id;
            checksum = checksum;
          }

      -- A generation that returns a set has rendered the whole plan.
      tile_set-IsComplete :
          KeepsCoord F render_tile
          → (set : GeneratedTileSet F)
          → generate_tile_set_with_renderer F to_string sha256_hex schedule config request
              render_tile
            ≡ some (ok set)
          → IsComplete config request set
      tile_set-IsComplete keep set h = Steps-IsComplete keep set (tile_set-Steps set h)

    module _ (write_image : List ℕ → ℕ → ℕ → Option (List ℕ))
        (resized : Text → RasterWindow → ℕ × ℕ → Result Text (List (RasterSample F))) where
      granule_renderer-KeepsCoord :
          (schedule : ℕ → ℕ) (mapping : DatasetMapping F) (tile_size : ℕ)
          → KeepsCoord F (
              granule_renderer F to_string sha256_hex schedule write_image resized mapping
                tile_size)
      granule_renderer-KeepsCoord schedule mapping tile_size job t h =
          known
            (render_tile_window_from_granule F write_image resized mapping job.coord job.window
              tile_size)
            h
            (render_tile_window_from_granule-IsTileResult F write_image resized mapping job.coord
              job.window tile_size)
        where
          known :
              (r : Option (Result (GenerateError F) RenderedTile))
              → task F (λ job. joined_of F to_string sha256_hex schedule r) job ≡ ok t
              → IsTileResult F write_image job.coord tile_size r
              → t.coord ≡ job.coord
          known none e g = absurd g
          known (some (err x)) e g = cc
          known (some (ok t')) e (g, _) =
              ap (λ (t : RenderedTile). t.coord) (sym (ok_injective e)) ∙ g

      -- For whatever order the tasks end in and whatever GDAL's tools return: a set that is returned
      -- for a granule holds the tiles of the plan of the bounds that the configuration leaves of the
      -- source, all of them, in the plan's order; its manifest counts them, has the id that was
      -- asked for, and carries the checksum that computing it again gives.
      pub granule_tile_set-IsComplete :
          (schedule : ℕ → ℕ) (config : AppConfig F) (mapping : DatasetMapping F)
          (request : TileSetBuildRequest F) (set : GeneratedTileSet F)
          → generate_tile_set_for_granule_with_manifest F to_string sha256_hex schedule write_image
              resized config mapping request
            ≡ some (ok set)
          → (bounds : GeographicBounds F.Num) × (clip_bounds F request.source_bounds
                config.tile_bounds
              ≡ some bounds)
            × IsComplete config (record request { generation_bounds = bounds }) set
      unfolding generate_tile_set_for_granule_with_manifest
      granule_tile_set-IsComplete schedule config mapping request set h =
          elim (Option-cases (clip_bounds F request.source_bounds config.tile_bounds)) [
            | inl outside ↦ cc (rw (outside, generate_tile_set_for_granule_with_manifest) at h)
            | inr (bounds, e) ↦ (
              bounds,
              e,
              tile_set-IsComplete schedule config (record request { generation_bounds = bounds })
                  (granule_renderer F to_string sha256_hex schedule write_image resized mapping
                    config.tile_size)
                  (granule_renderer-KeepsCoord schedule mapping config.tile_size) set
                  (rw (e, generate_tile_set_for_granule_with_manifest) at h),
            )
          ]
