-- ===== src/Retention/Types.antt =====
-- The cleanup's data, and the database and the blob store that it calls.
use lumen_horizon.Prelude.{ℕ, Text, codes, Bool, List, Option}
use lumen_horizon.Action.{Action}
use lumen_horizon.Tiles.Coord.{TileMathError}

pub record RawBlobRetentionCandidate (Time : Type 0) : Type 0 where
  pub blob_path : Text
  pub oldest_created_at : Time
  pub record_count : ℕ

pub record TileSetRetentionCandidate (Time : Type 0) : Type 0 where
  pub tile_set_id : Text
  pub classification_version : Text
  pub manifest_blob_path : Text
  pub created_at : Time
  pub tile_count : ℕ

pub data RetentionEventMode : Type 0 where
  dry_run execute : RetentionEventMode

pub data RetentionTargetKind : Type 0 where
  raw_blob processed_tile processed_manifest tile_set : RetentionTargetKind

pub data RetentionEventAction : Type 0 where
  selected deleted missing skipped : RetentionEventAction

pub record RetentionEvent (Uuid : Type 0) : Type 0 where
  pub cleanup_run_id : Uuid
  pub mode : RetentionEventMode
  pub target_kind : RetentionTargetKind
  pub target_identifier : Text
  pub blob_container : Option Text
  pub blob_path : Option Text
  pub action : RetentionEventAction
  pub reason : Text

pub data DeleteBlobOutcome : Type 0 where
  blob_deleted blob_missing : DeleteBlobOutcome

pub record BlobListPage : Type 0 where
  pub blob_paths : List Text
  pub has_more : Bool

pub data TileSetCleanupOutcome : Type 0 where
  cleanup_deleted cleanup_skipped : TileSetCleanupOutcome

-- `service` is an error of the database or of the blob store, with its text.
pub data RetentionError : Type 0 where
  service : Text → RetentionError
  latest_manifest_selected : Text → RetentionError
  manifest_path_mismatch : Text → Text → Text → RetentionError
  tile_math : TileMathError → RetentionError

-- The fields of `AppConfig` that the cleanup reads.
pub record RetentionConfig : Type 0 where
  pub raw_viirs_container : Text
  pub processed_tiles_container : Text
  pub raw_granule_retention_days : ℕ
  pub processed_tile_set_retention_days : ℕ
  pub retention_protected_prior_tile_sets : ℕ
  pub retention_batch_limit : ℕ
  pub retention_tile_blob_limit : ℕ

pub record RetentionServices (W Uuid Time : Type 0) : Type 0 where
  pub connect : Action W RetentionError (Unit {0})
  pub new_blob_client : Action W RetentionError (Unit {0})
  pub select_raw : ℕ → ℕ → Action W RetentionError (List (RawBlobRetentionCandidate Time))
  pub select_tile_sets : ℕ → ℕ → ℕ → Action W RetentionError (List (TileSetRetentionCandidate Time))
  pub record_event : RetentionEvent Uuid → Action W RetentionError (Unit {0})
  pub delete_blob : Text → Text → Action W RetentionError DeleteBlobOutcome
  pub list_blobs : Text → Text → ℕ → Action W RetentionError BlobListPage
  pub mark_deleted : Text → Text → Action W RetentionError (Unit {0})

abbrev pub raw_reason : Text
raw_reason = codes "raw granule exceeds retention policy and requires re-ingest after deletion"

abbrev pub tile_set_reason : Text
tile_set_reason =
    codes "processed tile set exceeds retention policy and is outside latest/prior protection"

abbrev pub too_many_reason : Text
too_many_reason =
    codes "tile set has more blobs than RETENTION_TILE_BLOB_LIMIT or requires paged deletion"
