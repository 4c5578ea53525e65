-- ===== src/Publish/Order.antt =====
-- The pointer moves last: when it has moved, all that it points to is in place.
use lumen_horizon.Prelude.{
  ℕ, Text, false, List, Option, Result, ok, err, ◌≡◌, ◌≢◌, ◌⊎◌, inl, inr, refl, sym, ap, ◌∙◌,
  Bool-cases, ◌∷◌, ◌++◌, some, codes, bind_elim, ok_injective,
}
use mathlib.Core.Path.{subst}
use lumen_horizon.Text.{text_eq, text_eq_iff}
use lumen_horizon.Action.{Preserves, lift, for_each}
use lumen_horizon.Tiles.Coord.{TileMathError}
use lumen_horizon.Tiles.Paths.{validate_tile_set_id, manifest_blob_path, latest_manifest_blob_path}
use lumen_horizon.Publish.Types.{
  TileManifest, LatestManifestPointer, RenderedTile, PublishError, serialize_error, tile_math_error,
  Outside, World,
}
use lumen_horizon.Publish.Steps.{
  map_error, map_ok, upload_processed_blob, insert_tile_set, promote_latest_tile_set,
  latest_pointer, upload_tile, upload_pointer, publish_tile_manifest, publish_tile_set,
}
use lumen_horizon.Publish.Triple.{weaken, Outcome, Triple, bind-Triple, lift-Triple}
use lumen_horizon.Publish.Stored.{
  IsStored, IsInPlace, PointsTo, map_error_ok, upload-IsStored, stored_if_ok,
}
use lumen_horizon.Publish.Uploads.{
  IsManifest, IsSafe, TilesStored, Unmoved, all_tiles-Triple, upload-TilesStored, upload-Triple,
}
use lumen_horizon.Publish.Promotion.{HasRow, IsReady, insert-Triple, promote-Triple}

module _ {S R : Type 0} (o : Outside S R) (manifest : TileManifest R) (tiles : List RenderedTile)
    (before : Option (List ℕ)) where
  in_place :
      (w : World S)
      → (IsReady o manifest tiles before) w
      → (HasRow o manifest tiles before) w
      → IsInPlace o manifest tiles w
  in_place w ((p, ts), m) (row, latest) = record {
    tiles_stored = ts;
    manifest_stored = m;
    has_row = row;
    only_latest = latest;
  }

  pointer_start : (rest : Text) × (latest_manifest_blob_path ≡ b'm' ∷ rest)
  unfolding latest_manifest_blob_path
  pointer_start = (codes "anifests/latest.json", refl)

  manifest_start :
      (path : Text)
      → manifest_blob_path manifest.tile_set_id ≡ ok path
      → (rest : Text) × (path ≡ b'm' ∷ rest)
  unfolding manifest_blob_path
  manifest_start path e =
      let (_, _, same) = bind_elim (validate_tile_set_id manifest.tile_set_id) _ e in
      (codes "anifests/" ++ (manifest.tile_set_id ++ codes ".json"), sym (ok_injective same))

  module _ (other : manifest_blob_path manifest.tile_set_id ≢ ok latest_manifest_blob_path) where
    manifest_elsewhere :
        (path : Text)
        → manifest_blob_path manifest.tile_set_id ≡ ok path
        → text_eq latest_manifest_blob_path path ≡ false
    manifest_elsewhere path e = elim (Bool-cases (text_eq latest_manifest_blob_path path)) [
      | inl same ↦
          absurd (other (e ∙ ap ok (sym ((text_eq_iff latest_manifest_blob_path path).0 same))))
      | inr differs ↦ differs
    ]

    -- The upload of the pointer keeps what is in place.
    pointer-IsInPlace :
        (bytes : List ℕ)
        → Preserves
            (IsInPlace o manifest tiles)
            (upload_processed_blob o latest_manifest_blob_path bytes)
    unfolding upload_processed_blob
    pointer-IsInPlace bytes w i = record {
      tiles_stored =
          (upload-TilesStored o manifest tiles before) latest_manifest_blob_path pointer_start.0
            bytes pointer_start.1 w i.tiles_stored;
      manifest_stored =
          upload-IsStored o (IsManifest o manifest tiles before)
            (manifest_blob_path manifest.tile_set_id) latest_manifest_blob_path bytes
            (λ e. absurd (other e)) w i.manifest_stored;
      has_row = i.has_row;
      only_latest = i.only_latest;
    }

    -- What a publication that succeeds leaves
    abbrev IsMoved : LatestManifestPointer → World S → Type 0
    IsMoved pointer w = IsInPlace o manifest tiles w × PointsTo o manifest pointer w

    latest_pointer_elim :
        (promoted_at : ℕ) (pointer : LatestManifestPointer) (r : Result TileMathError Text)
        → map_ok
            (λ path.
              (let made : LatestManifestPointer = record {
                tile_set_id = manifest.tile_set_id;
                manifest_blob_path = path;
                manifest_sha256 = manifest.manifest_sha256;
                updated_at = promoted_at;
              } in
                made))
            (map_error tile_math_error r)
          ≡ ok pointer
        → (pointer.tile_set_id ≡ manifest.tile_set_id) × (r ≡ ok pointer.manifest_blob_path)
    latest_pointer_elim promoted_at pointer (ok path) e =
        let same = ok_injective e in
        (
          ap (λ (p : LatestManifestPointer). p.tile_set_id) (sym same),
          ap (λ (p : LatestManifestPointer). ok p.manifest_blob_path) same,
        )
    latest_pointer_elim promoted_at pointer (err x) e = cc

    moved :
        (json : Text) (r : Result PublishError (Unit {0}) × World S)
        → IsInPlace o manifest tiles r.1
        → ((u : Unit {0}) → r.0 ≡ ok u → r.1.blobs latest_manifest_blob_path ≡ some json)
        → Outcome
            (IsSafe o manifest tiles before)
            (λ u w. IsInPlace o manifest tiles w × (w.blobs latest_manifest_blob_path ≡ some json))
            r
    unfolding IsSafe
    moved json (ok u, w) i d = (i, d u refl)
    moved json (err e, w) i d = inr i

    upload_pointer-Triple :
        (promoted_at : ℕ)
        → Triple
            (IsSafe o manifest tiles before)
            (λ w. (IsReady o manifest tiles before) w × (HasRow o manifest tiles before) w)
            (upload_pointer o manifest promoted_at)
            IsMoved
    unfolding upload_pointer upload_processed_blob latest_pointer IsSafe
    upload_pointer-Triple promoted_at =
        let Done = λ (w : World S).
          (IsReady o manifest tiles before) w × (HasRow o manifest tiles before) w in
        let Made = λ (pointer : LatestManifestPointer) (w : World S).
          Done w × (latest_pointer o manifest promoted_at ≡ ok pointer) in
        let Printed = λ (pointer : LatestManifestPointer) (json : Text) (w : World S).
          Done w × (o.pointer_json pointer ≡ ok json) in
        bind-Triple (IsSafe o manifest tiles before) Made IsMoved Done
          (lift (latest_pointer o manifest promoted_at)) _
          (lift-Triple (IsSafe o manifest tiles before) Done _ (λ w (((p, _), _), _). inl p) Made
            (λ a w e d. (d, e)))
          (λ pointer w (d, made).
            bind-Triple (IsSafe o manifest tiles before) (Printed pointer) IsMoved Done
              (lift (map_error serialize_error (o.pointer_json pointer))) _
              (lift-Triple (IsSafe o manifest tiles before) Done _ (λ w (((p, _), _), _). inl p)
                (Printed pointer)
                (λ json w e d. (d, map_error_ok serialize_error (o.pointer_json pointer) json e)))
              (λ json w (d, printed).
                bind-Triple (IsSafe o manifest tiles before)
                  (λ u w.
                    IsInPlace o manifest tiles w × (w.blobs latest_manifest_blob_path ≡ some json))
                  IsMoved Done (upload_processed_blob o latest_manifest_blob_path json) _
                  (λ w (ready, row).
                    moved json (upload_processed_blob o latest_manifest_blob_path json w)
                      (pointer-IsInPlace json w (in_place w ready row))
                      (stored_if_ok o latest_manifest_blob_path json w (o.storage w.outer).0))
                  (λ u w (i, there).
                    let (named, path) =
                      latest_pointer_elim promoted_at pointer
                        (manifest_blob_path manifest.tile_set_id) made in
                    (i, record { named = named; path = path; stored = (json, there, printed) }))
                  w d)
              w d)

    manifest-Triple :
        (promoted_at : ℕ)
        → Triple
            (IsSafe o manifest tiles before)
            (λ w. (Unmoved o manifest tiles before) w × (TilesStored o manifest tiles before) w)
            (publish_tile_manifest o manifest promoted_at)
            IsMoved
    unfolding publish_tile_manifest IsSafe
    manifest-Triple promoted_at =
        let Start = λ (w : World S).
          (Unmoved o manifest tiles before) w × (TilesStored o manifest tiles before) w in
        let End = IsMoved in
        let Printed =
          λ (json : Text) (w : World S). Start w × (IsManifest o manifest tiles before) json in
        let Named = λ (json path : Text) (w : World S).
          Printed json w × (manifest_blob_path manifest.tile_set_id ≡ ok path) in
        bind-Triple (IsSafe o manifest tiles before) Printed End Start
          (lift (map_error serialize_error (o.manifest_json manifest))) _
          (lift-Triple (IsSafe o manifest tiles before) Start _ (λ w (p, _). inl p) Printed
            (λ json w e r. (r, map_error_ok serialize_error (o.manifest_json manifest) json e)))
          (λ json.
            bind-Triple (IsSafe o manifest tiles before) (Named json) End (Printed json)
              (lift (map_error tile_math_error (manifest_blob_path manifest.tile_set_id))) _
              (lift-Triple (IsSafe o manifest tiles before) (Printed json) _
                (λ w ((p, _), _). inl p) (Named json)
                (λ path w e r. (
                  r,
                  map_error_ok tile_math_error (manifest_blob_path manifest.tile_set_id) path e,
                )))
              (λ path.
                bind-Triple (IsSafe o manifest tiles before)
                  (λ u. (IsReady o manifest tiles before)) End (Named json path)
                  (upload_processed_blob o path json) _
                  (λ w ((start, printed), e).
                    let (rest, first) = manifest_start path e in
                    weaken (IsSafe o manifest tiles before)
                      (λ u w.
                        ((Unmoved o manifest tiles before) w
                          × (TilesStored o manifest tiles before) w)
                        × (w.blobs path ≡ some json))
                      (λ u. (IsReady o manifest tiles before))
                      (λ u w (s, m). (
                        s,
                        subst (λ r. IsStored (IsManifest o manifest tiles before) r w) (sym e)
                            (json, m, printed),
                      ))
                      _
                      ((upload-Triple o manifest tiles before) (TilesStored o manifest tiles before)
                        path json (manifest_elsewhere path e)
                        ((upload-TilesStored o manifest tiles before) path rest json first) w
                        start))
                  (λ u.
                    bind-Triple (IsSafe o manifest tiles before)
                      (λ u. (IsReady o manifest tiles before)) End (IsReady o manifest tiles before)
                      (insert_tile_set o manifest) _ (insert-Triple o manifest tiles before)
                      (λ u.
                        bind-Triple (IsSafe o manifest tiles before)
                          (λ u w.
                            (IsReady o manifest tiles before) w
                            × (HasRow o manifest tiles before) w)
                          End (IsReady o manifest tiles before)
                          (promote_latest_tile_set o manifest.tile_set_id) _
                          (promote-Triple o manifest tiles before)
                          (λ u. upload_pointer-Triple promoted_at)))))

    published :
        (promoted_at : ℕ)
        → Triple
            (IsSafe o manifest tiles before)
            (Unmoved o manifest tiles before)
            (publish_tile_set o manifest tiles promoted_at)
            IsMoved
    unfolding publish_tile_set
    published promoted_at =
        bind-Triple (IsSafe o manifest tiles before)
          (λ u w. (Unmoved o manifest tiles before) w × (TilesStored o manifest tiles before) w)
          IsMoved (Unmoved o manifest tiles before) (for_each (upload_tile o manifest) tiles) _
          (all_tiles-Triple o manifest tiles before) (λ u. manifest-Triple promoted_at)

-- After a publication that returns, the path of each tile holds the bytes of a tile of the list with
-- its coordinate, the manifest's path holds its JSON text, and its row is there and the only latest
-- one; the pointer that it returns names the manifest, and the pointer's path holds its JSON text. One
-- that breaks off has either left the pointer's blob as it was, or also has all that in place.
-- The manifest's path must be another than the pointer's.
pub publish_tile_set-IsInPlace :
    {S R : Type 0} (o : Outside S R) (manifest : TileManifest R) (tiles : List RenderedTile)
    (promoted_at : ℕ) (w : World S)
    → manifest_blob_path manifest.tile_set_id ≢ ok latest_manifest_blob_path
    → Outcome
        (λ w'.
          (w'.blobs latest_manifest_blob_path ≡ w.blobs latest_manifest_blob_path)
          ⊎ IsInPlace o manifest tiles w')
        (λ pointer w'. IsInPlace o manifest tiles w' × PointsTo o manifest pointer w')
        (publish_tile_set o manifest tiles promoted_at w)
unfolding Unmoved IsSafe
publish_tile_set-IsInPlace o manifest tiles promoted_at w other =
    published o manifest tiles (w.blobs latest_manifest_blob_path) other promoted_at w refl
