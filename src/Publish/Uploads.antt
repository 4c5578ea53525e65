-- ===== src/Publish/Uploads.antt =====
-- The uploads of the tiles: what they leave while the pointer is the old one.
use lumen_horizon.Prelude.{
  ℕ, Text, false, List, Option, Result, ok, err, All, ◌≡◌, ◌≢◌, ◌⊎◌, inl, refl, sym, ◌∙◌, ◌∷◌, some,
}
use mathlib.Core.Path.{subst}
use mathlib.Core.List.{Mem}
use lumen_horizon.Text.{text_eq}
use lumen_horizon.Action.{Preserves, lift, for_each, bind_known-Preserves}
use lumen_horizon.Tiles.Paths.{
  tile_blob_path, tile_blob_path_elim, tile_blob_path_injective, t_ne_m, manifest_blob_path,
  latest_manifest_blob_path,
}
use lumen_horizon.Ingest.Columns.{All-weaken}
use lumen_horizon.Publish.Types.{
  TileManifest, RenderedTile, PublishError, tile_math_error, Outside, World,
}
use lumen_horizon.Publish.Steps.{map_error, upload_processed_blob, upload_tile}
use lumen_horizon.Publish.Triple.{
  weaken, Outcome, Triple, bind-Triple, lift-Triple, for_each-Triple,
}
use lumen_horizon.Publish.Stored.{
  IsStored, AreBytesOf, IsInPlace, each-Mem, map_error_ok, upload-IsStored, pointer_whatever,
  stored_if_ok,
}

module _ {S R : Type 0} (o : Outside S R) (manifest : TileManifest R) (tiles : List RenderedTile)
    (before : Option (List ℕ)) where
  unfoldable pub Unmoved : World S → Type 0
  Unmoved w = w.blobs latest_manifest_blob_path ≡ before

  -- What a publication that breaks off leaves: the old pointer, or everything in place
  unfoldable pub IsSafe : World S → Type 0
  IsSafe w = Unmoved w ⊎ IsInPlace o manifest tiles w

  abbrev TileStored : RenderedTile → World S → Type 0
  TileStored tile w =
      IsStored (AreBytesOf tiles tile.coord) (tile_blob_path manifest.tile_set_id tile.coord) w

  abbrev pub IsManifest : List ℕ → Type 0
  IsManifest bytes = o.manifest_json manifest ≡ ok bytes

  abbrev pub ManifestStored : World S → Type 0
  ManifestStored w = IsStored IsManifest (manifest_blob_path manifest.tile_set_id) w

  abbrev pub TilesStored : World S → Type 0
  TilesStored w = All (λ tile. TileStored tile w) tiles

  parts :
      (K : World S → Type 0) (D : World S → Type 0) (r : Result PublishError (Unit {0}) × World S)
      → Unmoved r.1
      → K r.1
      → ((u : Unit {0}) → r.0 ≡ ok u → D r.1)
      → Outcome IsSafe (λ u w. (Unmoved w × K w) × D w) r
  unfolding IsSafe
  parts K D (ok u, w) p k d = ((p, k), d u refl)
  parts K D (err e, w) p k d = inl p

  -- An upload that is not the pointer's
  pub upload-Triple :
      (K : World S → Type 0) (path : Text) (bytes : List ℕ)
      → text_eq latest_manifest_blob_path path ≡ false
      → Preserves K (upload_processed_blob o path bytes)
      → Triple IsSafe
          (λ w. Unmoved w × K w)
          (upload_processed_blob o path bytes)
          (λ u w. (Unmoved w × K w) × (w.blobs path ≡ some bytes))
  unfolding upload_processed_blob Unmoved
  upload-Triple K path bytes other keep w (p, k) =
      let fate = (o.storage w.outer).0 in
      parts K (λ w. w.blobs path ≡ some bytes) (upload_processed_blob o path bytes w)
        (pointer_whatever o latest_manifest_blob_path path bytes w fate other ∙ p) (keep w k)
        (stored_if_ok o path bytes w fate)

  tile_elsewhere :
      (tile : RenderedTile) (path : Text)
      → tile_blob_path manifest.tile_set_id tile.coord ≡ ok path
      → text_eq latest_manifest_blob_path path ≡ false
  unfolding latest_manifest_blob_path text_eq
  tile_elsewhere tile path e =
      let (_, _, same) = tile_blob_path_elim manifest.tile_set_id path tile.coord e in rw same refl

  -- The bytes of a tile are right for every tile with the same path.
  same_path :
      (tile other : RenderedTile) (path : Text)
      → Mem tile tiles
      → tile_blob_path manifest.tile_set_id tile.coord ≡ ok path
      → tile_blob_path manifest.tile_set_id other.coord ≡ ok path
      → AreBytesOf tiles other.coord tile.png_bytes
  same_path tile other path there e f =
      let (_, same) =
        tile_blob_path_injective manifest.tile_set_id manifest.tile_set_id path tile.coord
          other.coord e f in
      (tile, there, same, refl)

  upload_tile-Triple :
      (tile : RenderedTile)
      → Mem tile tiles
      → Triple IsSafe Unmoved (upload_tile o manifest tile) (λ u w. Unmoved w × TileStored tile w)
  unfolding upload_tile IsSafe
  upload_tile-Triple tile there =
      let Found = λ (path : Text) (w : World S).
        Unmoved w × (tile_blob_path manifest.tile_set_id tile.coord ≡ ok path) in
      bind-Triple IsSafe Found (λ u w. Unmoved w × TileStored tile w) Unmoved
        (lift (map_error tile_math_error (tile_blob_path manifest.tile_set_id tile.coord))) _
        (lift-Triple IsSafe Unmoved _ (λ w p. inl p) Found
          (λ path w e p. (
            p,
            map_error_ok tile_math_error (tile_blob_path manifest.tile_set_id tile.coord) path e,
          )))
        (λ path w (p, e).
          weaken IsSafe (λ u w. (Unmoved w × Unit {0}) × (w.blobs path ≡ some tile.png_bytes))
            (λ u w. Unmoved w × TileStored tile w)
            (λ u w ((p, _), s). (
              p,
              subst (λ r. IsStored (AreBytesOf tiles tile.coord) r w) (sym e)
                  (tile.png_bytes, s, same_path tile tile path there e e),
            ))
            _
            (upload-Triple (λ _. Unit {0}) path tile.png_bytes (tile_elsewhere tile path e)
              (λ w k. k) w (p, tt)))

  upload_tile-IsStored :
      (tile other : RenderedTile)
      → Mem tile tiles
      → Mem other tiles
      → Preserves (TileStored other) (upload_tile o manifest tile)
  unfolding upload_tile
  upload_tile-IsStored tile other there _ =
      let path_of = map_error tile_math_error (tile_blob_path manifest.tile_set_id tile.coord) in
      bind_known-Preserves (TileStored other) (lift path_of)
        (λ path. upload_processed_blob o path tile.png_bytes) (λ w h. h)
        (λ path w e.
          upload-IsStored o (AreBytesOf tiles other.coord)
            (tile_blob_path manifest.tile_set_id other.coord) path tile.png_bytes
            (same_path tile other path there (
              map_error_ok tile_math_error (tile_blob_path manifest.tile_set_id tile.coord) path e))
            (lift path_of w).1)

  pub all_tiles-Triple :
      Triple IsSafe Unmoved
        (for_each (upload_tile o manifest) tiles)
        (λ u w. Unmoved w × TilesStored w)
  all_tiles-Triple =
      for_each-Triple IsSafe Unmoved TileStored (upload_tile o manifest) (λ tile. Mem tile tiles)
        upload_tile-Triple upload_tile-IsStored tiles (each-Mem tiles)

  tile_ne :
      (tile : RenderedTile) (path : Text) (rest : Text)
      → path ≡ b'm' ∷ rest
      → tile_blob_path manifest.tile_set_id tile.coord ≢ ok path
  tile_ne tile path rest start e =
      let (_, _, same) = tile_blob_path_elim manifest.tile_set_id path tile.coord e in
      t_ne_m _ _ (sym same ∙ start)

  -- An upload among the manifests
  pub upload-TilesStored :
      (path rest : Text) (bytes : List ℕ)
      → path ≡ b'm' ∷ rest
      → Preserves TilesStored (upload_processed_blob o path bytes)
  upload-TilesStored path rest bytes start w h =
      All-weaken
        (λ tile s.
          upload-IsStored o (AreBytesOf tiles tile.coord)
            (tile_blob_path manifest.tile_set_id tile.coord) path bytes
            (λ e. absurd (tile_ne tile path rest start e)) w s)
        tiles h
