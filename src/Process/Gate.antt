-- ===== src/Process/Gate.antt =====
-- The start of a processing, its checks and its quality gate. Logging and progress are left out.
use lumen_horizon.Prelude.{ℕ, suc, Text, List, [], ◌∷◌, length, Option, none, some, Result, ok, err}
use lumen_horizon.Float.{Floating}
use lumen_horizon.Action.{Action, return, lift, ◌>>=◌, ◌>>◌}
use lumen_horizon.Message.Validate.{ProcessingMessage}
use lumen_horizon.Science.Mapping.{
  DatasetMapping, RasterShape, RasterWindow, ScienceError, validate_matching_shape,
  validate_sample_count,
}
use lumen_horizon.Science.Pixel.{PixelSampleClassification, classify_pixel_sample}
use lumen_horizon.Science.Summary.{summarize_quality, exceeds_max_cloud_fraction}
use lumen_horizon.Science.DarkSky.{DarkSkyClass, classify_dark_sky}
use lumen_horizon.Publish.Types.{Outside}
use lumen_horizon.Generate.Types.{map_error}
use lumen_horizon.Generate.Samples.{RasterSample, get_elem?, value_at}
use lumen_horizon.Generate.Manifest.{ManifestFields}
use lumen_horizon.Process.Log.{
  QualityMetadata, DbError, connect_error, upsert_processing_log, missing_ingest_log, Statement,
  answered, upsert_processing_started,
}
use lumen_horizon.Process.Types.{
  ServiceError, database, hdf_error, science, storage, index_out_of_bounds, Config, Tools, World,
}

module _ (F : Floating) {T S : Type 0} (tools : Tools F T) (o : Outside S (ManifestFields F)) where
  abbrev pub Process : Type 0 → Type 0
  Process A = Action (World F T S) (ServiceError F) A

  -- A call that touches neither a row nor a published blob
  abbrev pub call : {A : Type 0} → (Text → ServiceError F) → (T → Result Text A × T) → Process A
  call f action w =
      let (reply, outer) = action w.outer in
      (
        map_error f reply,
        record { log = w.log; ingest_ids = w.ingest_ids; outer = outer; tiles = w.tiles },
      )

  -- What the code reads of the outside
  abbrev pub ask : {A : Type 0} → (T → A) → Process A
  ask f w = (ok (f w.outer), w)

  abbrev pub execute : {A : Type 0} → (Text → DbError F) → Statement F A → Process A
  execute f st w =
      let (fate, outer) = tools.statement w.outer in
      let (reply, log) = answered F w.log (st w.log) fate in
      (
        map_error (λ e. database (f e)) reply,
        record { log = log; ingest_ids = w.ingest_ids; outer = outer; tiles = w.tiles },
      )

  abbrev pub record_or_missing : ℕ → Option (ℕ × ℕ) → Result (ServiceError F) (ℕ × ℕ)
  record_or_missing ingest_id none = err (database (missing_ingest_log ingest_id))
  record_or_missing ingest_id (some r) = ok r

  -- `db::connect` and the upsert, with a new id: the row's id and its attempts
  unfoldable pub start_processing : ProcessingMessage ℕ ℕ → Process (ℕ × ℕ)
  unfolding upsert_processing_started
  start_processing m = do
    call (λ e. database (connect_error e)) tools.connect
    id ← call storage (λ t. let (id, t') = tools.new_v4 t in (ok id, t'))
    found ← (λ w. execute upsert_processing_log (upsert_processing_started F w.ingest_ids id m) w)
    lift (record_or_missing m.ingest_id found)

  -- `match dataset { Some(dataset) => Some(f(dataset)?), None => None }`
  abbrev pub optional : {A : Type 0} → Option Text → (Text → Process A) → Process (Option A)
  optional none action = return none
  optional (some name) action = do a ← action name; return (some a)

  -- `if let (Some(value), Some(dataset))`
  abbrev pub check_optional :
      {A : Type 0}
      → Option A
      → Option Text
      → (Text → A → Result (ScienceError F) (Unit {0}))
      → Process (Unit {0})
  check_optional (some a) (some name) check = lift (map_error science (check name a))
  check_optional (some a) none check = return tt
  check_optional none name check = return tt

  abbrev pub shape_of : Text → Process RasterShape
  shape_of name = call hdf_error (tools.dataset_shape name)

  abbrev pub same_shape :
      DatasetMapping F → RasterShape → Text → RasterShape → Result (ScienceError F) (Unit {0})
  same_shape mapping radiance name shape =
      validate_matching_shape F mapping.radiance_dataset radiance name shape

  unfoldable pub check_shapes : DatasetMapping F → Process RasterShape
  unfolding validate_matching_shape
  check_shapes mapping = do
    radiance ← shape_of mapping.radiance_dataset
    quality ← shape_of mapping.quality_dataset
    cloud ← optional mapping.cloud_dataset shape_of
    counts ← optional mapping.observation_count_dataset shape_of
    lift (map_error science (same_shape mapping radiance mapping.quality_dataset quality))
    check_optional cloud mapping.cloud_dataset (same_shape mapping radiance)
    check_optional counts mapping.observation_count_dataset (same_shape mapping radiance)
    return radiance

  abbrev pub sample_window : RasterWindow
  sample_window = record { x_offset = 0; y_offset = 0; width = 2; height = 2 }

  abbrev pub classified :
      DatasetMapping F
      → F.Num
      → Option (RasterSample F)
      → Option F.Num
      → Option F.Num
      → Result (ServiceError F) PixelSampleClassification
  classified mapping radiance none cloud counts = err index_out_of_bounds
  classified mapping radiance (some quality) cloud counts =
      map_error science (classify_pixel_sample F mapping radiance quality.value cloud counts)

  -- The loop over the samples, from an index on
  unfoldable pub classify_from :
      DatasetMapping F
      → List (RasterSample F)
      → Option (List (RasterSample F))
      → Option (List (RasterSample F))
      → ℕ
      → List (RasterSample F)
      → Process (List PixelSampleClassification)
  classify_from mapping quality cloud counts index [] = return []
  classify_from mapping quality cloud counts index (sample ∷ samples) = do
    c ← lift (
        classified mapping sample.value (get_elem? quality index) (value_at F cloud index)
          (value_at F counts index))
    cs ← classify_from mapping quality cloud counts (suc index) samples
    return (c ∷ cs)

  abbrev first_class : List (RasterSample F) → Option (DarkSkyClass F)
  first_class [] = none
  first_class (sample ∷ samples) = classify_dark_sky F sample.value

  abbrev pub samples_of : Text → Process (List (RasterSample F))
  samples_of name = call hdf_error (tools.dataset_window_samples name sample_window)

  abbrev pub full_window : Text → List (RasterSample F) → Result (ScienceError F) (Unit {0})
  full_window name samples = validate_sample_count F name sample_window (length samples)

  -- The quality gate on the sample window: what is written of it
  unfoldable pub sample_quality : Config F → DatasetMapping F → Process (QualityMetadata F)
  unfolding validate_sample_count classify_from
  sample_quality config mapping = do
    radiance ← samples_of mapping.radiance_dataset
    quality ← samples_of mapping.quality_dataset
    cloud ← optional mapping.cloud_dataset samples_of
    counts ← optional mapping.observation_count_dataset samples_of
    lift (map_error science (full_window mapping.radiance_dataset radiance))
    lift (map_error science (full_window mapping.quality_dataset quality))
    check_optional cloud mapping.cloud_dataset full_window
    check_optional counts mapping.observation_count_dataset full_window
    classes ← classify_from mapping quality cloud counts 0 radiance
    let summary = summarize_quality F classes
    return (record {
      sample_window = sample_window;
      quality_summary = summary;
      max_cloud_fraction = config.max_cloud_fraction;
      exceeds_max_cloud_fraction = exceeds_max_cloud_fraction F summary config.max_cloud_fraction;
      first_sample = first_class radiance;
    })
