-- ===== src/Process/Message.antt =====
-- `process_parsed_message`, step by step. Logging and progress are left out.
use lumen_horizon.Prelude.{ℕ, Text, codes, [], ◌∷◌, ◌++◌, Option, none, some, Result, err}
use lumen_horizon.Float.{Floating}
use lumen_horizon.Action.{lift, ◌>>=◌, ◌>>◌}
use lumen_horizon.Message.Validate.{ProcessingMessage, product_kind}
use lumen_horizon.Tiles.Bounds.{viirs_tile_bounds}
use lumen_horizon.Tiles.Range.{GeographicBounds}
use lumen_horizon.Science.Mapping.{DatasetMapping, dataset_mapping_for_product, RasterShape}
use lumen_horizon.Science.Summary.{cloud_rejection_reason}
use lumen_horizon.Publish.Types.{LatestManifestPointer, Outside}
use lumen_horizon.Publish.Steps.{publish_tile_set}
use lumen_horizon.Generate.Types.{GenerateError, tile_math, render_worker, map_error}
use lumen_horizon.Generate.Manifest.{ManifestFields, SourceGranule}
use lumen_horizon.Generate.TileSet.{
  GeneratedTileSet, TileSetBuildRequest, generate_tile_set_for_granule_with_manifest,
}
use lumen_horizon.Process.Log.{
  update_processing_log, update_processing_metadata, mark_processing_rejected,
  mark_processing_processed_with_tile_set,
}
use lumen_horizon.Process.TileSetId.{tile_set_id_for_message}
use lumen_horizon.Process.Types.{
  ServiceError, generate, hdf_error, message_error, publish, storage, Config, Tools, World,
}
use lumen_horizon.Process.Gate.{
  Process, call, ask, execute, start_processing, check_shapes, sample_quality,
}

module _ (F : Floating) {T S : Type 0} (tools : Tools F T) (o : Outside S (ManifestFields F)) where
  abbrev processor_version : Text
  processor_version = codes "processing-svc:" ++ tools.cargo_version

  abbrev source_granule_for_message : ProcessingMessage ℕ ℕ → SourceGranule
  source_granule_for_message m = record {
    ingest_id = m.ingest_id;
    product = m.product;
    blob_path = m.blob_path;
  }

  abbrev pub tile_set_id_of : Config F → ProcessingMessage ℕ ℕ → ℕ → Text
  tile_set_id_of config m attempt =
      tile_set_id_for_message (λ d. tools.date_text (tools.date_naive d)) tools.simple
        config.app.tile_classification_version m attempt

  abbrev pub build_request :
      Config F
      → ProcessingMessage ℕ ℕ
      → ℕ
      → RasterShape
      → GeographicBounds F.Num
      → ℕ
      → TileSetBuildRequest F
  build_request config m attempt shape source generated_at = record {
    tile_set_id = tile_set_id_of config m attempt;
    dataset_date = tools.date_naive m.granule_date;
    generated_at = generated_at;
    processor_version = processor_version;
    generation_bounds = source;
    source_bounds = source;
    raster_shape = shape;
    source_granules = source_granule_for_message m ∷ [];
  }

  -- The generation always ends: `none` does not occur.
  abbrev pub ended :
      Option (Result (GenerateError F) (GeneratedTileSet F))
      → Result (ServiceError F) (GeneratedTileSet F)
  ended none = err (generate (render_worker []))
  ended (some r) = map_error generate r

  abbrev pub generation :
      Config F
      → DatasetMapping F
      → TileSetBuildRequest F
      → T
      → Option (Result (GenerateError F) (GeneratedTileSet F))
  generation config mapping request t =
      generate_tile_set_for_granule_with_manifest F tools.to_string tools.sha256_hex
        (tools.schedule t) tools.write_image (tools.resized t) config.app mapping request

  unfoldable pub generate_set :
      Config F
      → DatasetMapping F
      → ProcessingMessage ℕ ℕ
      → ℕ
      → RasterShape
      → Process F tools o (GeneratedTileSet F)
  unfolding viirs_tile_bounds tile_set_id_for_message generate_tile_set_for_granule_with_manifest
  generate_set config mapping m attempt shape = do
    source ← lift (map_error (λ e. generate (tile_math e)) (viirs_tile_bounds F m.tile_h m.tile_v))
    generated_at ← ask F tools o tools.now
    result ←
        ask F tools o
          (generation config mapping (build_request config m attempt shape source generated_at))
    lift (ended result)

  -- `publish_generated_tile_set` with the clock's time
  unfoldable pub publish_generated_tile_set :
      GeneratedTileSet F → Process F tools o LatestManifestPointer
  unfolding publish_tile_set
  publish_generated_tile_set set w =
      let (reply, tiles) = publish_tile_set o set.manifest set.tiles (tools.now w.outer) w.tiles in
      (
        map_error publish reply,
        record { log = w.log; ingest_ids = w.ingest_ids; outer = w.outer; tiles = tiles },
      )

  -- An accepted granule, behind the quality gate
  unfoldable pub publish_granule :
      Config F
      → DatasetMapping F
      → ProcessingMessage ℕ ℕ
      → ℕ
      → RasterShape
      → Process F tools o (Unit {0})
  unfolding generate_set publish_generated_tile_set mark_processing_processed_with_tile_set
  publish_granule config mapping m attempt shape = do
    set ← generate_set config mapping m attempt shape
    publish_generated_tile_set set
    execute F tools o update_processing_log
        (mark_processing_processed_with_tile_set F m.ingest_id set.manifest.tile_set_id)

  unfoldable pub reject_granule : ProcessingMessage ℕ ℕ → Text → Process F tools o (Unit {0})
  unfolding mark_processing_rejected
  reject_granule m reason =
      execute F tools o update_processing_log (mark_processing_rejected F m.ingest_id reason)

  abbrev pub rejected_or :
      Option Text
      → (Text → Process F tools o (Unit {0}))
      → Process F tools o (Unit {0})
      → Process F tools o (Unit {0})
  rejected_or none reject accept = accept
  rejected_or (some reason) reject accept = reject reason

  unfoldable pub process_parsed_message_with_workspace :
      Config F → ProcessingMessage ℕ ℕ → Process F tools o (Unit {0})
  unfolding start_processing check_shapes sample_quality update_processing_metadata publish_granule
      reject_granule
  process_parsed_message_with_workspace config m = do
    (id, attempts) ← start_processing F tools o m
    product ← lift (map_error message_error (product_kind m))
    let mapping = dataset_mapping_for_product F product
    call F tools o hdf_error tools.verify_gdalinfo_available
    call F tools o storage tools.create_dir_all
    call F tools o storage tools.new_blob_client
    call F tools o storage (tools.download_raw_blob_to_path m.blob_path)
    shape ← check_shapes F tools o mapping
    metadata ← sample_quality F tools o config mapping
    execute F tools o update_processing_log (update_processing_metadata F id metadata)
    rejected_or (cloud_rejection_reason F metadata.quality_summary config.max_cloud_fraction)
        (reject_granule m) (publish_granule config mapping m attempts shape)

  abbrev pub cleaned :
      Result (ServiceError F) (Unit {0}) × World F T S
      → Result (ServiceError F) (Unit {0}) × World F T S
  cleaned (result, w) = (
    result,
    record {
      log = w.log;
      ingest_ids = w.ingest_ids;
      outer = tools.remove_dir_all w.outer;
      tiles = w.tiles;
    },
  )

  -- The workspace is removed whatever the result, which stays.
  unfoldable pub process_parsed_message :
      Config F → ProcessingMessage ℕ ℕ → Process F tools o (Unit {0})
  unfolding process_parsed_message_with_workspace
  process_parsed_message config m w = cleaned (process_parsed_message_with_workspace config m w)
