-- ===== src/Retention/Survival.antt =====
-- Tiles of sets that are not selected survive, and so does the pointer to the latest manifest.
use lumen_horizon.Prelude.{
  Text, codes, Bool, List, ◌++◌, ok, true, false, All, ◌≡◌, ◌≢◌, inl, inr, sym, ◌∙◌, arith,
  Bool-cases, Result-cases, bind_elim, ok_injective,
}
use lumen_horizon.Text.{text_eq, text_eq_iff, starts_with}
use lumen_horizon.Action.{Preserves}
use lumen_horizon.Tiles.Coord.{TileCoord}
use lumen_horizon.Tiles.Paths.{
  t_ne_m, manifest_blob_path, latest_manifest_blob_path, tiles_of, validate_tile_set_id,
  tile_blob_path, tile_blob_path_elim, tile_blob_path-starts_with_iff,
}
use lumen_horizon.Retention.Types.{TileSetRetentionCandidate, RetentionConfig, RetentionServices}
use lumen_horizon.Retention.Cleanup.{validate_manifest_path, run_retention_cleanup}
use lumen_horizon.Retention.Run.{selection, selecting, BlobLaws, unclaimed_kept, All-of, All-map}

manifest_blob_path_elim :
    (id path : Text)
    → manifest_blob_path id ≡ ok path
    → path ≡ codes "manifests/" ++ (id ++ codes ".json")
unfolding manifest_blob_path
manifest_blob_path_elim id path e =
    let (u, valid, rest) = bind_elim (validate_tile_set_id id) _ e in sym (ok_injective rest)

not_text_eq : (s t : Text) → text_eq s t ≡ false → s ≢ t
not_text_eq s t h e = ground (arith, text_eq_iff s t)

module _ {Time : Type 0} where
  -- A checked manifest stands with the manifests, and is not the pointer.
  validate_manifest_path_elim :
      (c : TileSetRetentionCandidate Time)
      → validate_manifest_path c ≡ ok tt
      → (c.manifest_blob_path ≡ codes "manifests/" ++ (c.tile_set_id ++ codes ".json"))
        × (c.manifest_blob_path ≢ latest_manifest_blob_path)
  unfolding validate_manifest_path
  validate_manifest_path_elim c h =
      elim (Bool-cases (text_eq c.manifest_blob_path latest_manifest_blob_path)) [
        | inl latest ↦ absurd (cc (rw latest at h))
        | inr other ↦ elim (Result-cases (manifest_blob_path c.tile_set_id)) [
          | inl (e, refused) ↦ absurd (cc (rw (other, refused) at h))
          | inr (expected, found) ↦ elim (Bool-cases (text_eq c.manifest_blob_path expected)) [
            | inl same ↦ (
              (text_eq_iff c.manifest_blob_path expected).0 same
                  ∙ manifest_blob_path_elim c.tile_set_id expected found,
              not_text_eq _ _ other,
            )
            | inr differ ↦ absurd (cc (rw (other, found, differ) at h))
          ]
        ]
      ]

  tile_unclaimed :
      (id path : Text) (coord : TileCoord) (c : TileSetRetentionCandidate Time)
      → tile_blob_path id coord ≡ ok path
      → c.tile_set_id ≢ id
      → (validate_tile_set_id c.tile_set_id ≡ ok tt
          → starts_with (tiles_of c.tile_set_id) path ≢ true)
        × (validate_manifest_path c ≡ ok tt → path ≢ c.manifest_blob_path)
  tile_unclaimed id path coord c built other = (
    λ valid listed.
        other ((tile_blob_path-starts_with_iff c.tile_set_id id path coord valid built).0 listed),
    λ checked same.
        let (_, _, shape) = tile_blob_path_elim id path coord built in
        let (manifest, _) = validate_manifest_path_elim c checked in
        t_ne_m _ _ (sym shape ∙ (same ∙ manifest)),
  )

latest_unlisted : (id : Text) → starts_with (tiles_of id) latest_manifest_blob_path ≢ true
unfolding starts_with latest_manifest_blob_path
latest_unlisted id h = cc

module _ {W Uuid Time : Type 0} (config : RetentionConfig)
    (services : RetentionServices W Uuid Time) (run_id : Uuid)
    (Present : Text → Text → W → Type 0) where
  -- Where the two containers differ: a run, dry or not, takes no tile from a tile set that its own
  -- selection omits. A blob stays until it is deleted by its path, and a listing by prefix holds only
  -- paths with the prefix.
  pub unselected_tile-Preserves :
      BlobLaws config services run_id Present
      → config.processed_tiles_container ≢ config.raw_viirs_container
      → (id path : Text) (coord : TileCoord) → tile_blob_path id coord ≡ ok path
      → (is_execute : Bool) (w : W)
      → ((cs : List (TileSetRetentionCandidate Time))
          → (selection config services run_id (selecting config services run_id w)).0 ≡ ok cs
          → All (λ c. c.tile_set_id ≢ id) cs)
      → Present config.processed_tiles_container path w
      → Present config.processed_tiles_container path
          (run_retention_cleanup config services run_id is_execute w).1
  unselected_tile-Preserves laws apart id path coord built is_execute w unselected =
      unclaimed_kept config services run_id Present laws apart path is_execute w (λ cs answer.
        All-map (λ c other. tile_unclaimed id path coord c built other) cs (unselected cs answer))

  -- Where the two containers differ: no run deletes the pointer to the latest manifest, whichever tile
  -- sets it selects. A blob stays until it is deleted by its path, and a listing by prefix holds only
  -- paths with the prefix.
  pub latest_manifest-Preserves :
      BlobLaws config services run_id Present
      → config.processed_tiles_container ≢ config.raw_viirs_container
      → (is_execute : Bool)
      → Preserves
          (Present config.processed_tiles_container latest_manifest_blob_path)
          (run_retention_cleanup config services run_id is_execute)
  latest_manifest-Preserves laws apart is_execute w =
      unclaimed_kept config services run_id Present laws apart latest_manifest_blob_path is_execute
        w
        (λ cs answer.
          All-of
            (λ c. (
              (λ valid. latest_unlisted c.tile_set_id),
              (λ checked same. (validate_manifest_path_elim c checked).1 (sym same)),
            ))
            cs)
