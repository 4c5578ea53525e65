-- ===== src/Retention/Run.antt =====
-- Which blobs survive a run of the cleanup.
use lumen_horizon.Prelude.{
  Text, Bool, List, [], ◌∷◌, ok, if◌then◌else◌, true, false, All, ◌≡◌, ◌≢◌, ◌⊎◌, inl, inr, ◌∙◌, ap,
}
use lumen_horizon.Text.{starts_with}
use lumen_horizon.Action.{
  Action, return, for_each, Preserves, bind-Preserves, bind_at-Preserves, for_each-Preserves, lift,
}
use lumen_horizon.Tiles.Paths.{tiles_of, validate_tile_set_id}
use lumen_horizon.Retention.Types.{
  RawBlobRetentionCandidate, TileSetRetentionCandidate, RetentionEventMode, dry_run, execute,
  selected, RetentionConfig, RetentionServices, RetentionError, tile_set_reason,
}
use lumen_horizon.Retention.Cleanup.{
  validate_manifest_path, raw_event, tile_set_event, clean_raw, clean_tile_set,
  run_retention_cleanup,
}
use lumen_horizon.Retention.Safety.{
  IsQuiet, IsStable, IsListed, Spares, clean_raw-Preserves, clean_tile_set-Preserves,
}

pub All-of : {A : Type 0} {P : A → Type 0} → ((a : A) → P a) → (xs : List A) → All P xs
All-of f [] = tt
All-of f (x ∷ xs) = (f x, All-of f xs)

pub All-map :
    {A : Type 0} {P Q : A → Type 0} → ((a : A) → P a → Q a) → (xs : List A) → All P xs → All Q xs
All-map f [] h = tt
All-map f (x ∷ xs) (p, h) = (f x p, All-map f xs h)

module _ {W Uuid Time : Type 0} (config : RetentionConfig)
    (services : RetentionServices W Uuid Time) (run_id : Uuid) where
  abbrev pub selection : Action W RetentionError (List (TileSetRetentionCandidate Time))
  selection =
      services.select_tile_sets config.processed_tile_set_retention_days
        config.retention_protected_prior_tile_sets config.retention_batch_limit

  -- The world in which a run from `w` makes its selection of tile sets
  abbrev pub selecting : W → W
  selecting w =
      (services.select_raw config.raw_granule_retention_days config.retention_batch_limit
        (services.new_blob_client (services.connect w).1).1).1

  run-Preserves :
      (P : W → Type 0) (b : Bool)
      → IsQuiet services P
      → ((c : RawBlobRetentionCandidate Time)
          → Preserves P (clean_raw config services run_id b (if b then execute else dry_run) c))
      → (w : W)
      → ((cs : List (TileSetRetentionCandidate Time))
          → (selection (selecting w)).0 ≡ ok cs
          → All
              (λ c.
                Preserves P
                  (clean_tile_set config services run_id b (if b then execute else dry_run) c))
              cs)
      → P w
      → P (run_retention_cleanup config services run_id b w).1
  unfolding run_retention_cleanup
  run-Preserves P b quiet raw w tiles p =
      bind_at-Preserves P services.connect _ w (quiet.connection w p) (λ _ _ p.
        bind_at-Preserves P services.new_blob_client _ _ (quiet.client _ p) (λ _ _ p.
          bind_at-Preserves P
            (services.select_raw config.raw_granule_retention_days config.retention_batch_limit) _ _
            (quiet.raw_selection _ _ _ p)
            (λ raws _ p.
              bind_at-Preserves P selection _ _ (quiet.tile_set_selection _ _ _ _ p) (λ cs answer p.
                bind-Preserves P
                  (for_each (clean_raw config services run_id b (if b then execute else dry_run))
                    raws)
                  _
                  (for_each-Preserves P
                    (λ c.
                      Preserves P
                        (clean_raw config services run_id b (if b then execute else dry_run) c))
                    _ (λ c h. h) raws (All-of raw raws))
                  (λ _.
                    for_each-Preserves P
                      (λ c. Preserves P (
                        clean_tile_set config services run_id b (if b then execute else dry_run) c))
                      _ (λ c h. h) cs (tiles cs answer))
                  _ p))))

  module _ (P : W → Type 0) (quiet : IsQuiet services P) where
    quiet_raw :
        (c : RawBlobRetentionCandidate Time)
        → Preserves P (clean_raw config services run_id false dry_run c)
    unfolding clean_raw
    quiet_raw c =
        bind-Preserves P
          (services.record_event (raw_event config services run_id dry_run c selected))
          (λ _. return tt) (quiet.event _) (λ _ w p. p)

    quiet_tile_set :
        (c : TileSetRetentionCandidate Time)
        → Preserves P (clean_tile_set config services run_id false dry_run c)
    unfolding clean_tile_set
    quiet_tile_set c =
        bind-Preserves P (lift (validate_manifest_path c)) _ (λ w p. p)
          (λ _.
            bind-Preserves P
              (services.record_event
                (tile_set_event config services run_id dry_run c selected tile_set_reason))
              (λ _. return tt) (quiet.event _) (λ _ w p. p))

    -- A dry run deletes nothing: it keeps whatever the connections, the two selections and the events keep.
    pub dry_run-Preserves : Preserves P (run_retention_cleanup config services run_id false)
    dry_run-Preserves =
        λ w. run-Preserves P false quiet quiet_raw w (λ cs answer. All-of quiet_tile_set cs)

  -- The blob store: a blob stays until it is deleted, and a listing by prefix is honest.
  pub record BlobLaws (Present : Text → Text → W → Type 0) : Type 0 where
    pub stable : (container path : Text) → IsStable services (Present container path)
    pub deletes_one :
        (container path container' path' : Text) (w : W)
        → Present container path w
        → Present container path (services.delete_blob container' path' w).1
          ⊎ ((container ≡ container') × (path ≡ path'))
    pub honest : IsListed services

  module _ (Present : Text → Text → W → Type 0) (laws : BlobLaws Present)
      (apart : config.processed_tiles_container ≢ config.raw_viirs_container) where
    raw_kept :
        (path raw : Text)
        → Preserves
            (Present config.processed_tiles_container path)
            (services.delete_blob config.raw_viirs_container raw)
    raw_kept path raw w p =
        elim (laws.deletes_one config.processed_tiles_container path config.raw_viirs_container raw
          w p) [ inl kept ↦ kept | inr (same, _) ↦ absurd (apart same) ]

    other_kept :
        (path path' : Text)
        → path ≢ path'
        → Preserves
            (Present config.processed_tiles_container path)
            (services.delete_blob config.processed_tiles_container path')
    other_kept path path' n w p =
        elim (laws.deletes_one config.processed_tiles_container path
          config.processed_tiles_container path' w p) [
            | inl kept ↦ kept
            | inr (_, same) ↦ absurd (n same)
          ]

    -- A path that no selected tile set claims
    abbrev pub IsUnclaimed : Text → TileSetRetentionCandidate Time → Type 0
    IsUnclaimed path c =
        (validate_tile_set_id c.tile_set_id ≡ ok tt
          → starts_with (tiles_of c.tile_set_id) path ≢ true)
        × (validate_manifest_path c ≡ ok tt → path ≢ c.manifest_blob_path)

    spares :
        (path : Text) (mode : RetentionEventMode) (c : TileSetRetentionCandidate Time)
        → IsUnclaimed path c
        → Spares config services run_id
            (Present config.processed_tiles_container path)
            (laws.stable config.processed_tiles_container path)
            mode
            c
    spares path mode c (free, other) = record {
      listed = λ path' valid listed.
          other_kept path path'
            (λ same. free valid (ap (starts_with (tiles_of c.tile_set_id)) same ∙ listed));
      manifest = λ checked. other_kept path c.manifest_blob_path (other checked);
    }

    pub unclaimed_kept :
        (path : Text) (b : Bool) (w : W)
        → ((cs : List (TileSetRetentionCandidate Time))
            → (selection (selecting w)).0 ≡ ok cs
            → All (IsUnclaimed path) cs)
        → Present config.processed_tiles_container path w
        → Present config.processed_tiles_container path
            (run_retention_cleanup config services run_id b w).1
    unclaimed_kept path b w free =
        let stable = laws.stable config.processed_tiles_container path in
        let mode : RetentionEventMode = if b then execute else dry_run in
        run-Preserves (Present config.processed_tiles_container path) b stable.quiet
          (clean_raw-Preserves config services run_id _ stable mode (raw_kept path) b) w
          (λ cs answer.
            All-map
              (λ c u.
                clean_tile_set-Preserves config services run_id _ stable mode laws.honest c
                  (spares path mode c u) b)
              cs (free cs answer))
