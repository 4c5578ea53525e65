-- ===== src/Process/Types.antt =====
-- The world of a message's processing, its errors, and what it calls: the file system, GDAL, the
-- download of the raw blob and the clock, as parameters.
use lumen_horizon.Prelude.{ℕ, Text, List, Option, Result}
use lumen_horizon.Float.{Floating}
use lumen_horizon.Message.Validate.{ValidationError}
use lumen_horizon.Science.Mapping.{RasterShape, RasterWindow, ScienceError}
use lumen_horizon.Ingest.World.{Fate}
use lumen_horizon.Publish.Types.{TileManifest, PublishError}
use lumen_horizon.Publish.Types as Publish
use lumen_horizon.Generate.Types.{GenerateError}
use lumen_horizon.Generate.Samples.{RasterSample}
use lumen_horizon.Generate.Manifest.{AppConfig, ManifestFields}
use lumen_horizon.Process.Log.{LogRow, DbError}

module _ (F : Floating) where
  -- `index_out_of_bounds` is a panic.
  pub data ServiceError : Type 0 where
    database : DbError F → ServiceError
    generate : GenerateError F → ServiceError
    hdf_error : Text → ServiceError
    message_error : ValidationError → ServiceError
    publish : PublishError → ServiceError
    science : ScienceError F → ServiceError
    storage : Text → ServiceError
    index_out_of_bounds : ServiceError

  pub record Config : Type 0 where
    pub app : AppConfig F
    pub max_cloud_fraction : F.Num

  -- Over the state `T` of all that is neither a row nor a published blob. A call of the storage or of
  -- GDAL fails with a text.
  pub record Tools (T : Type 0) : Type 0 where
    pub connect : T → Result Text (Unit {0}) × T
    pub statement : T → Fate × T
    pub new_v4 : T → ℕ × T
    pub now : T → ℕ
    pub verify_gdalinfo_available : T → Result Text (Unit {0}) × T
    pub create_dir_all : T → Result Text (Unit {0}) × T
    pub new_blob_client : T → Result Text (Unit {0}) × T
    pub download_raw_blob_to_path : Text → T → Result Text (Unit {0}) × T
    pub dataset_shape : Text → T → Result Text RasterShape × T
    pub dataset_window_samples : Text → RasterWindow → T → Result Text (List (RasterSample F)) × T
    pub resized : T → Text → RasterWindow → ℕ × ℕ → Result Text (List (RasterSample F))
    pub schedule : T → ℕ → ℕ
    pub remove_dir_all : T → T
    pub write_image : List ℕ → ℕ → ℕ → Option (List ℕ)
    pub to_string : TileManifest (ManifestFields F) → Result Text Text
    pub sha256_hex : Text → Text
    pub date_naive : ℕ → ℕ
    pub date_text : ℕ → Text
    pub simple : ℕ → Text
    pub cargo_version : Text

  pub record World (T S : Type 0) : Type 0 where
    pub log : List (LogRow F)
    pub ingest_ids : List ℕ
    pub outer : T
    pub tiles : Publish.World S
