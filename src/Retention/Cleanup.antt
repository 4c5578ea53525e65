-- ===== src/Retention/Cleanup.antt =====
-- One run of the cleanup.
use lumen_horizon.Prelude.{
  Text, Bool, none, some, Result, ok, err, if◌then◌else◌, ltb, length, ◌||◌, not,
}
use lumen_horizon.Text.{text_eq}
use lumen_horizon.Action.{Action, return, lift, for_each, ◌>>=◌, ◌>>◌}
use lumen_horizon.Tiles.Paths.{manifest_blob_path, latest_manifest_blob_path, tiles_of}
use lumen_horizon.Tiles.Coord.{TileMathError}
use lumen_horizon.Retention.Types.{
  RawBlobRetentionCandidate, TileSetRetentionCandidate, RetentionEventMode, dry_run, execute,
  RetentionTargetKind, raw_blob, processed_tile, processed_manifest, tile_set, RetentionEventAction,
  selected, deleted, missing, skipped, RetentionEvent, DeleteBlobOutcome, blob_deleted,
  blob_missing, BlobListPage, TileSetCleanupOutcome, cleanup_deleted, cleanup_skipped,
  RetentionError, latest_manifest_selected, manifest_path_mismatch, tile_math, RetentionConfig,
  RetentionServices, raw_reason, tile_set_reason, too_many_reason,
}

-- `?` on an error of the tile arithmetic
abbrev pub from_tile_math : Result TileMathError Text → Result RetentionError Text
from_tile_math (ok path) = ok path
from_tile_math (err e) = err (tile_math e)

abbrev pub action_of : DeleteBlobOutcome → RetentionEventAction
action_of blob_deleted = deleted
action_of blob_missing = missing

module _ {Time : Type 0} where
  abbrev expect_path :
      TileSetRetentionCandidate Time → Result RetentionError Text → Result RetentionError (Unit {0})
  expect_path c (err e) = err e
  expect_path c (ok expected) =
      if not (text_eq c.manifest_blob_path expected)
      then err (manifest_path_mismatch c.tile_set_id expected c.manifest_blob_path)
      else ok tt

  unfoldable pub validate_manifest_path :
      TileSetRetentionCandidate Time → Result RetentionError (Unit {0})
  unfolding latest_manifest_blob_path
  validate_manifest_path c =
      if text_eq c.manifest_blob_path latest_manifest_blob_path
      then err (latest_manifest_selected c.tile_set_id)
      else expect_path c (from_tile_math (manifest_blob_path c.tile_set_id))

abbrev prefix_behind : Text → Result RetentionError Text → Result RetentionError Text
prefix_behind id (err e) = err e
prefix_behind id (ok _) = ok (tiles_of id)

unfoldable pub tile_set_prefix : Text → Result RetentionError Text
tile_set_prefix id = prefix_behind id (from_tile_math (manifest_blob_path id))

module _ {W Uuid Time : Type 0} (config : RetentionConfig)
    (services : RetentionServices W Uuid Time) (run_id : Uuid) where
  abbrev pub raw_event :
      RetentionEventMode
      → RawBlobRetentionCandidate Time
      → RetentionEventAction
      → RetentionEvent Uuid
  raw_event mode c action = record {
    cleanup_run_id = run_id;
    mode = mode;
    target_kind = raw_blob;
    target_identifier = c.blob_path;
    blob_container = some config.raw_viirs_container;
    blob_path = some c.blob_path;
    action = action;
    reason = raw_reason;
  }

  abbrev pub tile_set_event :
      RetentionEventMode
      → TileSetRetentionCandidate Time
      → RetentionEventAction
      → Text
      → RetentionEvent Uuid
  tile_set_event mode c action reason = record {
    cleanup_run_id = run_id;
    mode = mode;
    target_kind = tile_set;
    target_identifier = c.tile_set_id;
    blob_container = none;
    blob_path = none;
    action = action;
    reason = reason;
  }

  unfoldable pub delete_processed_blob :
      RetentionEventMode → Text → RetentionTargetKind → Text → Action W RetentionError (Unit {0})
  delete_processed_blob mode id kind path = do
    outcome ← services.delete_blob config.processed_tiles_container path
    services.record_event (record {
      cleanup_run_id = run_id;
      mode = mode;
      target_kind = kind;
      target_identifier = id;
      blob_container = some config.processed_tiles_container;
      blob_path = some path;
      action = action_of outcome;
      reason = tile_set_reason;
    })

  unfoldable pub too_many : BlobListPage → Bool
  too_many page = page.has_more || ltb config.retention_tile_blob_limit (length page.blob_paths)

  -- The listed tiles first, then the manifest, then the row
  unfoldable pub delete_listed :
      RetentionEventMode
      → TileSetRetentionCandidate Time
      → BlobListPage
      → Action W RetentionError TileSetCleanupOutcome
  unfolding delete_processed_blob for_each
  delete_listed mode c page = do
    for_each (delete_processed_blob mode c.tile_set_id processed_tile) page.blob_paths
    delete_processed_blob mode c.tile_set_id processed_manifest c.manifest_blob_path
    services.mark_deleted c.tile_set_id tile_set_reason
    services.record_event (tile_set_event mode c deleted tile_set_reason)
    return cleanup_deleted

  unfoldable pub skip_tile_set :
      RetentionEventMode
      → TileSetRetentionCandidate Time
      → Action W RetentionError TileSetCleanupOutcome
  skip_tile_set mode c = do
    services.record_event (tile_set_event mode c skipped too_many_reason)
    return cleanup_skipped

  unfoldable pub execute_tile_set_cleanup :
      RetentionEventMode
      → TileSetRetentionCandidate Time
      → Action W RetentionError TileSetCleanupOutcome
  unfolding tile_set_prefix delete_listed skip_tile_set too_many
  execute_tile_set_cleanup mode c = do
    prefix ← lift (tile_set_prefix c.tile_set_id)
    page ←
        services.list_blobs config.processed_tiles_container prefix config.retention_tile_blob_limit
    if too_many page then skip_tile_set mode c else delete_listed mode c page

  unfoldable pub delete_raw :
      RetentionEventMode → RawBlobRetentionCandidate Time → Action W RetentionError (Unit {0})
  delete_raw mode c = do
    outcome ← services.delete_blob config.raw_viirs_container c.blob_path
    services.record_event (raw_event mode c (action_of outcome))

  unfoldable pub clean_raw :
      Bool
      → RetentionEventMode
      → RawBlobRetentionCandidate Time
      → Action W RetentionError (Unit {0})
  unfolding delete_raw
  clean_raw is_execute mode c = do
    services.record_event (raw_event mode c selected)
    if is_execute then delete_raw mode c else return tt

  unfoldable pub clean_tile_set :
      Bool
      → RetentionEventMode
      → TileSetRetentionCandidate Time
      → Action W RetentionError (Unit {0})
  unfolding validate_manifest_path execute_tile_set_cleanup
  clean_tile_set is_execute mode c = do
    lift (validate_manifest_path c)
    services.record_event (tile_set_event mode c selected tile_set_reason)
    if is_execute then (do outcome ← execute_tile_set_cleanup mode c; return tt) else return tt

  unfoldable pub run_retention_cleanup : Bool → Action W RetentionError (Unit {0})
  unfolding clean_raw clean_tile_set for_each
  run_retention_cleanup is_execute = do
    services.connect
    services.new_blob_client
    raw_candidates ←
        services.select_raw config.raw_granule_retention_days config.retention_batch_limit
    tile_set_candidates ←
        services.select_tile_sets config.processed_tile_set_retention_days
          config.retention_protected_prior_tile_sets config.retention_batch_limit
    let mode = (if is_execute then execute else dry_run)
    for_each (clean_raw is_execute mode) raw_candidates
    for_each (clean_tile_set is_execute mode) tile_set_candidates
