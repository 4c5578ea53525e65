-- ===== src/Publish/Promotion.antt =====
-- The rows of a publication: the insertion of its row and the promotion.
use lumen_horizon.Prelude.{
  ℕ, ◌==◌, ◌^◌, ltb, Text, Bool, true, false, any, List, map, Option, if◌then◌else◌, Result, ok,
  err, All, ◌≡◌, inl, inr, refl, ap, ◌∙◌, Bool-cases,
}
use mathlib.Core.Path.{subst}
use lumen_horizon.Text.{text_eq}
use lumen_horizon.Action.{return, throw, lift}
use lumen_horizon.Tiles.Coord.{TileMathError}
use lumen_horizon.Tiles.Paths.{tile_blob_path, manifest_blob_path, latest_manifest_blob_path}
use lumen_horizon.Ingest.World.{Fate, applied, refused, answer_lost}
use lumen_horizon.Ingest.Columns.{All-weaken}
use lumen_horizon.Publish.Types.{
  TileManifest, RenderedTile, DbError, begin_transaction_error, commit_transaction_error,
  insert_tile_set_error, promote_tile_set_error, PublishError, database_error,
  serialize_bounds_error, manifest_path_error, TileSetRow, Outside, World,
}
use lumen_horizon.Publish.Steps.{
  map_error, clear_latest, set_latest, has_id, count_where, settled, inserted, promoted, checked,
  execute, insert_tile_set, promote_latest_tile_set,
}
use lumen_horizon.Publish.Triple.{weaken, Outcome, Triple, bind-Triple, lift-Triple}
use lumen_horizon.Publish.Stored.{IsStored, AreBytesOf, All-set, promoted_rows, counted_any}
use lumen_horizon.Publish.Uploads.{IsManifest, IsSafe, ManifestStored, TilesStored, Unmoved}

module _ {S R : Type 0} (o : Outside S R) (manifest : TileManifest R) (tiles : List RenderedTile)
    (before : Option (List ℕ)) where
  -- The tiles and the manifest are stored, and the pointer is the old one.
  abbrev pub IsReady : World S → Type 0
  IsReady w =
      ((Unmoved o manifest tiles before) w × (TilesStored o manifest tiles before) w)
      × (ManifestStored o manifest tiles before) w

  abbrev pub HasRow : World S → Type 0
  HasRow w =
      (any (has_id manifest.tile_set_id) w.tile_sets ≡ true)
      × All (λ r. r.latest ≡ text_eq r.id manifest.tile_set_id) w.tile_sets

  same_blobs :
      (P : List ℕ → Type 0) (r : Result TileMathError Text) (w w' : World S)
      → w'.blobs ≡ w.blobs
      → IsStored P r w
      → IsStored P r w'
  same_blobs P (ok p) w w' e (bytes, there, holds) = (bytes, ap (λ blobs. blobs p) e ∙ there, holds)
  same_blobs P (err x) w w' e h = h

  IsReady-kept : (w w' : World S) → w'.blobs ≡ w.blobs → IsReady w → IsReady w'
  unfolding Unmoved
  IsReady-kept w w' e ((p, ts), m) = (
    (
      ap (λ blobs. blobs latest_manifest_blob_path) e ∙ p,
      All-weaken
          (λ tile s.
            same_blobs (AreBytesOf tiles tile.coord)
              (tile_blob_path manifest.tile_set_id tile.coord) w w' e s)
          tiles ts,
    ),
    same_blobs (IsManifest o manifest tiles before) (manifest_blob_path manifest.tile_set_id) w w' e
        m,
  )

  execute_cases :
      (f : Text → DbError) (H : List TileSetRow → Type 0) (w : World S)
      (r : Result DbError (List TileSetRow)) (fate : Fate) (outer : S)
      → IsReady w
      → ((rows' : List TileSetRow) → r ≡ ok rows' → H rows')
      → Outcome
          (IsSafe o manifest tiles before)
          {A = Unit {0}}
          (λ u w. IsReady w × H w.tile_sets)
          (
            map_error database_error (settled f w.tile_sets r fate).0,
            record { blobs = w.blobs; tile_sets = (settled f w.tile_sets r fate).1; outer = outer },
          )
  unfolding IsSafe Unmoved
  execute_cases f H w r (refused e) outer ((p, ts), m) h = inl p
  execute_cases f H w (err x) applied outer ((p, ts), m) h = inl p
  execute_cases f H w (err x) (answer_lost e) outer ((p, ts), m) h = inl p
  execute_cases f H w (ok rows') applied outer ready h = (
    IsReady-kept w (record { blobs = w.blobs; tile_sets = rows'; outer = outer }) refl ready,
    h rows' refl,
  )
  execute_cases f H w (ok rows') (answer_lost e) outer ((p, ts), m) h = inl p

  execute-Triple :
      (f : Text → DbError) (statement : List TileSetRow → Result DbError (List TileSetRow))
      (H : List TileSetRow → Type 0)
      → ((rows rows' : List TileSetRow) → statement rows ≡ ok rows' → H rows')
      → Triple
          (IsSafe o manifest tiles before)
          IsReady
          (execute o f statement)
          (λ u w. IsReady w × H w.tile_sets)
  execute-Triple f statement H h w ready =
      execute_cases f H w (statement w.tile_sets) (o.database w.outer).0 (o.database w.outer).1
        ready (h w.tile_sets)

  -- A statement of whose rows nothing is asked
  quiet-Triple :
      (f : Text → DbError) (statement : List TileSetRow → Result DbError (List TileSetRow))
      → Triple (IsSafe o manifest tiles before) IsReady (execute o f statement) (λ u. IsReady)
  quiet-Triple f statement w ready =
      weaken (IsSafe o manifest tiles before) (λ u w. IsReady w × Unit {0}) (λ u. IsReady)
        (λ u w r. r.0) _
        (execute-Triple f statement (λ rows. Unit {0}) (λ rows rows' e. tt) w ready)

  -- The row of a promotion that succeeds
  promoted-HasRow :
      (rows rows' : List TileSetRow)
      → promoted o manifest.tile_set_id rows ≡ ok rows'
      → (any (has_id manifest.tile_set_id) rows' ≡ true)
        × All (λ r. r.latest ≡ text_eq r.id manifest.tile_set_id) rows'
  promoted-HasRow rows rows' e =
      elim (Bool-cases (count_where (has_id manifest.tile_set_id) (map clear_latest rows) == 1)) [
        | inl one ↦
            let same =
              promoted_rows (promoted o manifest.tile_set_id rows)
                (map (set_latest manifest.tile_set_id) (map clear_latest rows)) rows' (rw one refl)
                e in
            subst
              (λ rs.
                (any (has_id manifest.tile_set_id) rs ≡ true)
                × All (λ r. r.latest ≡ text_eq r.id manifest.tile_set_id) rs)
              same
              (
                counted_any manifest.tile_set_id (map clear_latest rows) one,
                All-set manifest.tile_set_id rows,
              )
        | inr other ↦ absurd (cc (rw other at e))
      ]

  fits :
      (b : Bool) (e : PublishError)
      → Triple
          (IsSafe o manifest tiles before)
          IsReady
          (if b then return tt else throw e)
          (λ u w. IsReady w)
  unfolding IsSafe
  fits true e w ready = ready
  fits false e w ((p, _), _) = inl p

  pub insert-Triple :
      Triple
        (IsSafe o manifest tiles before)
        IsReady
        (insert_tile_set o manifest)
        (λ u w. IsReady w)
  unfolding insert_tile_set IsSafe
  insert-Triple =
      let Ready = λ (u : Unit {0}) (w : World S). IsReady w in
      bind-Triple (IsSafe o manifest tiles before) Ready Ready IsReady _ _
        (fits (ltb manifest.tile_count (2 ^ 31)) _)
        (λ u.
          bind-Triple (IsSafe o manifest tiles before) (λ json. IsReady) Ready IsReady
            (lift
              (map_error (λ e. database_error (serialize_bounds_error e)) (o.bounds_json manifest)))
            _
            (lift-Triple (IsSafe o manifest tiles before) IsReady _ (λ w ((p, _), _). inl p)
              (λ json. IsReady) (λ a w e r. r))
            (λ json.
              bind-Triple (IsSafe o manifest tiles before) (λ path. IsReady) Ready IsReady
                (lift (
                  map_error (λ e. database_error (manifest_path_error e))
                    (manifest_blob_path manifest.tile_set_id)))
                _
                (lift-Triple (IsSafe o manifest tiles before) IsReady _ (λ w ((p, _), _). inl p)
                  (λ path. IsReady) (λ a w e r. r))
                (λ path. quiet-Triple insert_tile_set_error (inserted o manifest path))))

  pub promote-Triple :
      Triple
        (IsSafe o manifest tiles before)
        IsReady
        (promote_latest_tile_set o manifest.tile_set_id)
        (λ u w. IsReady w × HasRow w)
  unfolding promote_latest_tile_set
  promote-Triple =
      let End = λ (u : Unit {0}) (w : World S). IsReady w × HasRow w in
      bind-Triple (IsSafe o manifest tiles before) (λ u. IsReady) End IsReady
        (execute o begin_transaction_error (λ rows. ok rows)) _
        (quiet-Triple begin_transaction_error (λ rows. ok rows))
        (λ u.
          bind-Triple (IsSafe o manifest tiles before) (λ u. IsReady) End IsReady
            (execute o promote_tile_set_error (λ rows. ok rows)) _
            (quiet-Triple promote_tile_set_error (λ rows. ok rows))
            (λ u.
              bind-Triple (IsSafe o manifest tiles before) (λ u. IsReady) End IsReady
                (execute o promote_tile_set_error (checked o manifest.tile_set_id)) _
                (quiet-Triple promote_tile_set_error (checked o manifest.tile_set_id))
                (λ u.
                  execute-Triple commit_transaction_error (promoted o manifest.tile_set_id)
                    (λ rows.
                      (any (has_id manifest.tile_set_id) rows ≡ true)
                      × All (λ r. r.latest ≡ text_eq r.id manifest.tile_set_id) rows)
                    promoted-HasRow)))
