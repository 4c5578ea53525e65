-- ===== src/Retention/Safety.antt =====
-- What a run of the cleanup leaves alone.
use lumen_horizon.Prelude.{
  ℕ, Text, Bool, List, [], ◌∷◌, Result, ok, err, true, All, ◌≡◌, inl, inr, sym, Result-cases,
  ok_injective,
}
use lumen_horizon.Text.{starts_with}
use lumen_horizon.Action.{
  return, lift, for_each, Preserves, bind-Preserves, bind_known-Preserves, for_each-Preserves,
  branch-Preserves,
}
use mathlib.Core.Path.{subst}
use lumen_horizon.Tiles.Paths.{manifest_blob_path, tiles_of, validate_tile_set_id}
use lumen_horizon.Retention.Types.{
  RawBlobRetentionCandidate, TileSetRetentionCandidate, RetentionEventMode, RetentionTargetKind,
  processed_tile, processed_manifest, selected, deleted, skipped, RetentionEvent, BlobListPage,
  cleanup_deleted, cleanup_skipped, RetentionConfig, RetentionServices, tile_set_reason,
  too_many_reason,
}
use lumen_horizon.Retention.Cleanup.{
  validate_manifest_path, tile_set_prefix, raw_event, tile_set_event, delete_processed_blob,
  too_many, delete_listed, skip_tile_set, execute_tile_set_cleanup, delete_raw, clean_raw,
  clean_tile_set,
}

-- The calls of a dry run keep `P`: the connections, the selections and the events.
pub record IsQuiet {W Uuid Time : Type 0} (services : RetentionServices W Uuid Time)
    (P : W → Type 0) : Type 0 where
  pub connection : Preserves P services.connect
  pub client : Preserves P services.new_blob_client
  pub raw_selection : (days limit : ℕ) → Preserves P (services.select_raw days limit)
  pub tile_set_selection :
      (days prior limit : ℕ) → Preserves P (services.select_tile_sets days prior limit)
  pub event : (e : RetentionEvent Uuid) → Preserves P (services.record_event e)

-- So does every call but a deletion of a blob.
pub record IsStable {W Uuid Time : Type 0} (services : RetentionServices W Uuid Time)
    (P : W → Type 0) : Type 0 where
  pub quiet : IsQuiet services P
  pub listing :
      (container prefix : Text) (limit : ℕ)
      → Preserves P (services.list_blobs container prefix limit)
  pub mark : (id reason : Text) → Preserves P (services.mark_deleted id reason)

-- A listing by prefix holds only paths with the prefix.
abbrev pub IsListed : {W Uuid Time : Type 0} → RetentionServices W Uuid Time → Type 0
IsListed {W = W} services =
    (container prefix : Text) (limit : ℕ) (w : W) (page : BlobListPage)
    → (services.list_blobs container prefix limit w).0 ≡ ok page
    → All (λ path. starts_with prefix path ≡ true) page.blob_paths

err_ne_ok : {E T : Type 0} {e : E} {t : T} → ¬ ((let r : Result E T = err e in r) ≡ ok t)
err_ne_ok h = cc

tile_set_prefix_elim :
    (id prefix : Text)
    → tile_set_prefix id ≡ ok prefix
    → (validate_tile_set_id id ≡ ok tt) × (prefix ≡ tiles_of id)
unfolding tile_set_prefix manifest_blob_path
tile_set_prefix_elim id prefix e = elim (Result-cases (validate_tile_set_id id)) [
  | inl (reason, refused) ↦ absurd (err_ne_ok (rw refused at e))
  | inr (u, valid) ↦ (valid, sym (ok_injective (rw valid at e)))
]

module _ {W Uuid Time : Type 0} (config : RetentionConfig)
    (services : RetentionServices W Uuid Time) (run_id : Uuid) where
  module _ (P : W → Type 0) (stable : IsStable services P) (mode : RetentionEventMode) where
    module _
        (raw_kept : (path : Text)
          → Preserves P (services.delete_blob config.raw_viirs_container path)) where
      pub clean_raw-Preserves :
          (b : Bool) (c : RawBlobRetentionCandidate Time)
          → Preserves P (clean_raw config services run_id b mode c)
      unfolding clean_raw delete_raw
      clean_raw-Preserves b c =
          bind-Preserves P
            (services.record_event (raw_event config services run_id mode c selected)) _
            (stable.quiet.event _)
            (λ _.
              branch-Preserves P b (delete_raw config services run_id mode c) (return tt)
                (bind-Preserves P (services.delete_blob config.raw_viirs_container c.blob_path) _
                  (raw_kept c.blob_path) (λ outcome. stable.quiet.event _))
                (λ w p. p))

    delete_processed-Preserves :
        (id : Text) (kind : RetentionTargetKind) (path : Text)
        → Preserves P (services.delete_blob config.processed_tiles_container path)
        → Preserves P (delete_processed_blob config services run_id mode id kind path)
    unfolding delete_processed_blob
    delete_processed-Preserves id kind path kept =
        bind-Preserves P (services.delete_blob config.processed_tiles_container path) _ kept
          (λ outcome. stable.quiet.event _)

    -- What the deletions for a selected tile set must keep
    pub record Spares (c : TileSetRetentionCandidate Time) : Type 0 where
      pub listed :
          (path : Text)
          → validate_tile_set_id c.tile_set_id ≡ ok tt
          → starts_with (tiles_of c.tile_set_id) path ≡ true
          → Preserves P (services.delete_blob config.processed_tiles_container path)
      pub manifest :
          validate_manifest_path c ≡ ok tt
          → Preserves P (services.delete_blob config.processed_tiles_container c.manifest_blob_path)

    delete_listed-Preserves :
        (c : TileSetRetentionCandidate Time) (page : BlobListPage)
        → All
            (λ path. Preserves P (services.delete_blob config.processed_tiles_container path))
            page.blob_paths
        → Preserves P (services.delete_blob config.processed_tiles_container c.manifest_blob_path)
        → Preserves P (delete_listed config services run_id mode c page)
    unfolding delete_listed
    delete_listed-Preserves c page listed manifest =
        bind-Preserves P
          (for_each (delete_processed_blob config services run_id mode c.tile_set_id processed_tile)
            page.blob_paths)
          _
          (for_each-Preserves P _ _
            (λ path. delete_processed-Preserves c.tile_set_id processed_tile path) page.blob_paths
            listed)
          (λ _.
            bind-Preserves P
              (delete_processed_blob config services run_id mode c.tile_set_id processed_manifest
                c.manifest_blob_path)
              _
              (delete_processed-Preserves c.tile_set_id processed_manifest c.manifest_blob_path
                manifest)
              (λ _.
                bind-Preserves P (services.mark_deleted c.tile_set_id tile_set_reason) _
                  (stable.mark _ _)
                  (λ _.
                    bind-Preserves P
                      (services.record_event
                        (tile_set_event config services run_id mode c deleted tile_set_reason))
                      (λ _. return cleanup_deleted) (stable.quiet.event _) (λ _ w p. p))))

    skip-Preserves :
        (c : TileSetRetentionCandidate Time)
        → Preserves P (skip_tile_set config services run_id mode c)
    unfolding skip_tile_set
    skip-Preserves c =
        bind-Preserves P
          (services.record_event
            (tile_set_event config services run_id mode c skipped too_many_reason))
          (λ _. return cleanup_skipped) (stable.quiet.event _) (λ _ w p. p)

    module _ (honest : IsListed services) (c : TileSetRetentionCandidate Time)
        (spares : Spares c) where
      listed_paths :
          (paths : List Text)
          → validate_tile_set_id c.tile_set_id ≡ ok tt
          → All (λ path. starts_with (tiles_of c.tile_set_id) path ≡ true) paths
          → All
              (λ path. Preserves P (services.delete_blob config.processed_tiles_container path))
              paths
      listed_paths [] valid h = tt
      listed_paths (path ∷ paths) valid (g, h) =
          (spares.listed path valid g, listed_paths paths valid h)

      execute-Preserves :
          validate_manifest_path c ≡ ok tt
          → Preserves P (execute_tile_set_cleanup config services run_id mode c)
      unfolding execute_tile_set_cleanup
      execute-Preserves checked =
          bind_known-Preserves P (lift (tile_set_prefix c.tile_set_id)) _ (λ w p. p)
            (λ prefix w e p.
              let (valid, same) = tile_set_prefix_elim c.tile_set_id prefix e in
              bind_known-Preserves P
                (services.list_blobs config.processed_tiles_container prefix
                  config.retention_tile_blob_limit)
                _ (stable.listing _ _ _)
                (λ page v answer q.
                  branch-Preserves P (too_many config services run_id page)
                    (skip_tile_set config services run_id mode c)
                    (delete_listed config services run_id mode c page) (skip-Preserves c)
                    (delete_listed-Preserves c page
                      (listed_paths page.blob_paths valid (
                        subst (λ t. All (λ path. starts_with t path ≡ true) page.blob_paths) same
                          (honest _ prefix _ v page answer)))
                      (spares.manifest checked))
                    _ q)
                w p)

      pub clean_tile_set-Preserves :
          (b : Bool) → Preserves P (clean_tile_set config services run_id b mode c)
      unfolding clean_tile_set
      clean_tile_set-Preserves b =
          bind_known-Preserves P (lift (validate_manifest_path c)) _ (λ w p. p)
            (λ u w checked p.
              bind-Preserves P
                (services.record_event
                  (tile_set_event config services run_id mode c selected tile_set_reason))
                _ (stable.quiet.event _)
                (λ _.
                  branch-Preserves P b _ (return tt)
                    (bind-Preserves P (execute_tile_set_cleanup config services run_id mode c)
                      (λ _. return tt) (execute-Preserves checked) (λ _ w p. p))
                    (λ w p. p))
                w p)
