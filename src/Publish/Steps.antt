-- ===== src/Publish/Steps.antt =====
-- The publication, step by step. Progress output is left out.
use lumen_horizon.Prelude.{
  ℕ, suc, ◌==◌, ◌^◌, ltb, Text, codes, Bool, true, false, any, List, [], ◌∷◌, ◌++◌, map, Option,
  some, if◌then◌else◌, Result, ok, err,
}
use lumen_horizon.Text.{text_eq}
use lumen_horizon.Action.{Action, return, throw, lift, for_each, ◌>>=◌, ◌>>◌}
use lumen_horizon.Tiles.Paths.{tile_blob_path, manifest_blob_path, latest_manifest_blob_path}
use lumen_horizon.Ingest.World.{Fate, applied, refused, answer_lost}
use lumen_horizon.Publish.Types.{
  TileManifest, LatestManifestPointer, RenderedTile, DbError, begin_transaction_error,
  commit_transaction_error, insert_tile_set_error, promote_tile_set_error, serialize_bounds_error,
  manifest_path_error, tile_count_too_large, tile_set_not_found, PublishError, database_error,
  serialize_error, storage_error, tile_math_error, TileSetRow, Outside, World,
}

abbrev pub map_error : {E F A : Type 0} → (E → F) → Result E A → Result F A
map_error f (ok a) = ok a
map_error f (err e) = err (f e)

abbrev pub map_ok : {E A B : Type 0} → (A → B) → Result E A → Result E B
map_ok f (ok a) = ok (f a)
map_ok f (err e) = err e

abbrev pub put : Text → List ℕ → (Text → Option (List ℕ)) → Text → Option (List ℕ)
put path bytes blobs p = if text_eq p path then some bytes else blobs p

-- `UPDATE … SET latest = false WHERE latest = true`, then `SET latest = true WHERE id = $1`
abbrev pub clear_latest : TileSetRow → TileSetRow
clear_latest r = if r.latest then record r { latest = false } else r

abbrev pub set_latest : Text → TileSetRow → TileSetRow
set_latest id r = if text_eq r.id id then record r { latest = true } else r

abbrev pub has_id : Text → TileSetRow → Bool
has_id id r = text_eq r.id id

-- `rows_affected`
abbrev pub count_where : (TileSetRow → Bool) → List TileSetRow → ℕ
count_where p [] = 0
count_where p (r ∷ rs) = let rest = count_where p rs in if p r then suc rest else rest

-- What becomes of the tables is the outcome's, when the statement is applied.
abbrev pub settled :
    {A : Type 0}
    → (Text → A)
    → List TileSetRow
    → Result A (List TileSetRow)
    → Fate
    → Result A (Unit {0}) × List TileSetRow
settled f rows outcome (refused e) = (err (f e), rows)
settled f rows (err x) applied = (err x, rows)
settled f rows (err x) (answer_lost e) = (err (f e), rows)
settled f rows (ok rows') applied = (ok tt, rows')
settled f rows (ok rows') (answer_lost e) = (err (f e), rows')

module _ {S R : Type 0} (o : Outside S R) where
  -- `upload_processed_blob`, which overwrites
  abbrev pub uploaded :
      Text → List ℕ → World S → Fate → Result PublishError (Unit {0}) × (Text → Option (List ℕ))
  uploaded path bytes w applied = (ok tt, put path bytes w.blobs)
  uploaded path bytes w (refused e) = (err (storage_error e), w.blobs)
  uploaded path bytes w (answer_lost e) = (err (storage_error e), put path bytes w.blobs)

  unfoldable pub upload_processed_blob : Text → List ℕ → Action (World S) PublishError (Unit {0})
  upload_processed_blob path bytes w =
      let (fate, outer) = o.storage w.outer in
      let (reply, blobs) = uploaded path bytes w fate in
      (reply, record { blobs = blobs; tile_sets = w.tile_sets; outer = outer })

  -- A row whose id is taken violates the primary key.
  abbrev pub inserted : TileManifest R → Text → List TileSetRow → Result DbError (List TileSetRow)
  inserted manifest path rows =
      if any (has_id manifest.tile_set_id) rows
      then err (insert_tile_set_error (codes "duplicate key value violates unique constraint"))
      else ok (
          rows
          ++ record {
            id = manifest.tile_set_id;
            tile_count = manifest.tile_count;
            manifest_blob_path = path;
            latest = false;
          }
            ∷ [])

  abbrev pub promoted : Text → List TileSetRow → Result DbError (List TileSetRow)
  promoted id rows =
      if count_where (has_id id) (map clear_latest rows) == 1
      then ok (map (set_latest id) (map clear_latest rows))
      else err (tile_set_not_found id)

  -- The second UPDATE of the transaction, whose effect does not show before the commit
  abbrev pub checked : Text → List TileSetRow → Result DbError (List TileSetRow)
  checked id rows =
      if count_where (has_id id) (map clear_latest rows) == 1
      then ok rows
      else err (tile_set_not_found id)

  abbrev pub execute :
      (Text → DbError)
      → (List TileSetRow → Result DbError (List TileSetRow))
      → Action (World S) PublishError (Unit {0})
  execute f statement w =
      let (fate, outer) = o.database w.outer in
      let (reply, rows) = settled f w.tile_sets (statement w.tile_sets) fate in
      (map_error database_error reply, record { blobs = w.blobs; tile_sets = rows; outer = outer })

  unfoldable pub insert_tile_set : TileManifest R → Action (World S) PublishError (Unit {0})
  unfolding manifest_blob_path
  insert_tile_set manifest = do
    if ltb manifest.tile_count (2 ^ 31)
        then return tt
        else throw (database_error (tile_count_too_large manifest.tile_count))
    lift (map_error (λ e. database_error (serialize_bounds_error e)) (o.bounds_json manifest))
    path ← lift (
        map_error (λ e. database_error (manifest_path_error e))
          (manifest_blob_path manifest.tile_set_id))
    execute insert_tile_set_error (inserted manifest path)

  unfoldable pub promote_latest_tile_set : Text → Action (World S) PublishError (Unit {0})
  promote_latest_tile_set id = do
    execute begin_transaction_error (λ rows. ok rows)
    execute promote_tile_set_error (λ rows. ok rows)
    execute promote_tile_set_error (checked id)
    execute commit_transaction_error (promoted id)

  unfoldable pub latest_pointer : TileManifest R → ℕ → Result PublishError LatestManifestPointer
  unfolding manifest_blob_path
  latest_pointer manifest updated_at =
      map_ok
        (λ path. record {
          tile_set_id = manifest.tile_set_id;
          manifest_blob_path = path;
          manifest_sha256 = manifest.manifest_sha256;
          updated_at = updated_at;
        })
        (map_error tile_math_error (manifest_blob_path manifest.tile_set_id))

  unfoldable pub upload_tile :
      TileManifest R → RenderedTile → Action (World S) PublishError (Unit {0})
  unfolding upload_processed_blob tile_blob_path
  upload_tile manifest tile = do
    path ← lift (map_error tile_math_error (tile_blob_path manifest.tile_set_id tile.coord))
    upload_processed_blob path tile.png_bytes

  -- The last step, once the row is promoted
  unfoldable pub upload_pointer :
      TileManifest R → ℕ → Action (World S) PublishError LatestManifestPointer
  unfolding latest_pointer upload_processed_blob latest_manifest_blob_path
  upload_pointer manifest promoted_at = do
    pointer ← lift (latest_pointer manifest promoted_at)
    json ← lift (map_error serialize_error (o.pointer_json pointer))
    upload_processed_blob latest_manifest_blob_path json
    return pointer

  unfoldable pub publish_tile_manifest :
      TileManifest R → ℕ → Action (World S) PublishError LatestManifestPointer
  unfolding upload_processed_blob manifest_blob_path insert_tile_set promote_latest_tile_set
      upload_pointer
  publish_tile_manifest manifest promoted_at = do
    json ← lift (map_error serialize_error (o.manifest_json manifest))
    path ← lift (map_error tile_math_error (manifest_blob_path manifest.tile_set_id))
    upload_processed_blob path json
    insert_tile_set manifest
    promote_latest_tile_set manifest.tile_set_id
    upload_pointer manifest promoted_at

  unfoldable pub publish_tile_set :
      TileManifest R → List RenderedTile → ℕ → Action (World S) PublishError LatestManifestPointer
  unfolding upload_tile publish_tile_manifest for_each
  publish_tile_set manifest tiles promoted_at = do
    for_each (upload_tile manifest) tiles
    publish_tile_manifest manifest promoted_at
