-- ===== src/Process/Accepted.antt =====
-- The generation and the publication of an accepted granule: what they leave.
use lumen_horizon.Prelude.{
  ℕ, any, List, Option, none, some, Result, ok, err, ◌≡◌, ◌⊎◌, inl, inr, refl, sym, ap, ◌∙◌,
  ok_injective,
}
use mathlib.Core.Path.{subst}
use lumen_horizon.Float.{Floating}
use lumen_horizon.Action.{lift, ◌>>◌}
use lumen_horizon.Message.Validate.{ProcessingMessage}
use lumen_horizon.Tiles.Paths.{latest_manifest_blob_path, manifest_blob_path}
use lumen_horizon.Tiles.Bounds.{viirs_tile_bounds, clip_bounds}
use lumen_horizon.Tiles.Range.{GeographicBounds}
use lumen_horizon.Science.Mapping.{DatasetMapping, RasterShape}
use lumen_horizon.Publish.Types.{Outside, LatestManifestPointer, PublishError}
use lumen_horizon.Publish.Types as Publish
use lumen_horizon.Publish.Stored.{IsInPlace, PointsTo}
use lumen_horizon.Publish.Steps.{publish_tile_set}
use lumen_horizon.Publish.Order.{publish_tile_set-IsInPlace}
use lumen_horizon.Publish.Triple.{Outcome, Triple, bind-Triple, lift-Triple, weaken}
use lumen_horizon.Generate.Types.{GenerateError, map_error, tile_math}
use lumen_horizon.Generate.Manifest.{ManifestFields}
use lumen_horizon.Generate.TileSet.{GeneratedTileSet}
use lumen_horizon.Generate.Complete.{IsComplete, granule_tile_set-IsComplete}
use lumen_horizon.Process.Log.{
  LogRow, processed, rejected, of_ingest, with_tile_set, update_processing_log,
  mark_processing_processed_with_tile_set,
}
use lumen_horizon.Process.TileSetId.{manifest_blob_path-elsewhere}
use lumen_horizon.Process.Types.{ServiceError, generate, publish, Config, Tools, World}
use lumen_horizon.Process.Gate.{Process, ask, execute}
use lumen_horizon.Process.Message.{
  ended, build_request, generation, generate_set, publish_generated_tile_set, publish_granule,
}
use lumen_horizon.Process.Quiet.{Kept, Quiet}
use lumen_horizon.Process.Rows.{Ends, updated-Ends}
use lumen_horizon.Process.Started.{HasRow, Both, next_attempt, execute-Triple}

module _ (F : Floating) {T S : Type 0} (tools : Tools F T) (o : Outside S (ManifestFields F))
    (config : Config F) (m : ProcessingMessage ℕ ℕ) (tiles : Publish.World S)
    (log : List (LogRow F)) where
  -- The complete set of the request for this attempt at the message: its source is the message's VIIRS
  -- tile, its bounds are the source clipped to the configured bounds.
  pub record IsSetOf (attempt : ℕ) (set : GeneratedTileSet F) : Type 0 where
    pub source : GeographicBounds F.Num
    pub bounds : GeographicBounds F.Num
    pub shape : RasterShape
    pub generated_at : ℕ
    pub exists : viirs_tile_bounds F m.tile_h m.tile_v ≡ ok source
    pub clipped : clip_bounds F source config.app.tile_bounds ≡ some bounds
    pub complete :
        IsComplete F tools.to_string tools.sha256_hex config.app
          (record (build_request F tools o config m attempt shape source generated_at) {
            generation_bounds = bounds;
          })
          set

  -- The number of the attempt, by the rows before it
  abbrev pub attempt_now : ℕ
  attempt_now = next_attempt F m.ingest_id log

  abbrev pub IsPublished : GeneratedTileSet F → Publish.World S → Type 0
  IsPublished set = IsInPlace o set.manifest set.tiles

  -- In place, and the pointer has moved to it
  abbrev pub IsLatest : GeneratedTileSet F → Publish.World S → Type 0
  IsLatest set t =
      IsPublished set t × ((pointer : LatestManifestPointer) × PointsTo o set.manifest pointer t)

  -- What an error leaves: the old pointer, or the complete set of the attempt, all of it in place
  abbrev pub IsSafe : World F T S → Type 0
  IsSafe w =
      (w.tiles.blobs latest_manifest_blob_path ≡ tiles.blobs latest_manifest_blob_path)
      ⊎ ((set : GeneratedTileSet F) × IsSetOf attempt_now set × IsPublished set w.tiles)

  -- What a success leaves: a rejected row, with nothing published, or a processed row with the name of
  -- the complete set of the attempt, of which everything is in place.
  abbrev pub IsDone : World F T S → Type 0
  IsDone w =
      ((w.tiles ≡ tiles) × Ends F m.ingest_id (λ row. (row.status ≡ rejected)) w.log)
      ⊎ ((set : GeneratedTileSet F) × IsSetOf attempt_now set
          × IsLatest set w.tiles
          × Ends F m.ingest_id
              (λ row. (row.status ≡ processed) × (row.tile_set_id ≡ some set.manifest.tile_set_id))
              w.log)

  abbrev pub Untouched : Publish.World S → Type 0
  Untouched t = t ≡ tiles

  pub Untouched-IsSafe : (w : World F T S) → Untouched w.tiles → IsSafe w
  Untouched-IsSafe w e = inl (ap (λ (t : Publish.World S). t.blobs latest_manifest_blob_path) e)

  IsLatest-IsSafe :
      (set : GeneratedTileSet F)
      → IsSetOf attempt_now set
      → (w : World F T S) → IsLatest set w.tiles
      → IsSafe w
  IsLatest-IsSafe set s w (p, _) = inr (set, s, p)

  abbrev pub Started : World F T S → Type 0
  Started w = Untouched w.tiles × HasRow F m.ingest_id w.log

  Kept-Outcome :
      {A : Type 0} (log : List (LogRow F)) (t : Publish.World S)
      (r : Result (ServiceError F) A × World F T S)
      → Untouched t
      → HasRow F m.ingest_id log
      → Kept F tools o log t r.1
      → Outcome IsSafe (λ a. Started) r
  Kept-Outcome log t (ok a, w) u h (l, k) = (k ∙ u, ap (any (of_ingest F m.ingest_id)) l ∙ h)
  Kept-Outcome log t (err e, w) u h (l, k) = Untouched-IsSafe w (k ∙ u)

  pub Quiet-Triple :
      {A : Type 0} (action : Process F tools o A)
      → ((log : List (LogRow F)) (t : Publish.World S) → Quiet F tools o log t action)
      → Triple IsSafe Started action (λ a. Started)
  Quiet-Triple action quiet w (u, h) =
      Kept-Outcome w.log w.tiles (action w) u h (quiet w.log w.tiles w (refl, refl))

  map_error_ok :
      {E A : Type 0} (f : E → ServiceError F) (r : Result E A) (a : A)
      → map_error f r ≡ ok a
      → r ≡ ok a
  map_error_ok f (ok b) a e = cc
  map_error_ok f (err x) a e = cc

  ended_elim :
      (r : Option (Result (GenerateError F) (GeneratedTileSet F))) {set : GeneratedTileSet F}
      → ended F tools o r ≡ ok set
      → r ≡ some (ok set)
  ended_elim none h = cc
  ended_elim (some (err e)) h = cc
  ended_elim (some (ok set)) h = cc

  generate_set-Triple :
      (mapping : DatasetMapping F) (attempt : ℕ) (shape : RasterShape)
      → Triple IsSafe Started
          (generate_set F tools o config mapping m attempt shape)
          (λ set w. Started w × IsSetOf attempt set)
  unfolding generate_set
  generate_set-Triple mapping attempt shape =
      let End = λ (set : GeneratedTileSet F) (w : World F T S). Started w × IsSetOf attempt set in
      let From_tile = λ (source : GeographicBounds F.Num) (w : World F T S).
        Started w × (viirs_tile_bounds F m.tile_h m.tile_v ≡ ok source) in
      bind-Triple IsSafe From_tile End Started
        (lift (map_error (λ e. generate (tile_math e)) (viirs_tile_bounds F m.tile_h m.tile_v))) _
        (lift-Triple IsSafe Started _ (λ w (u, _). Untouched-IsSafe w u) From_tile
          (λ source w e s. (
            s,
            map_error_ok (λ e. generate (tile_math e)) (viirs_tile_bounds F m.tile_h m.tile_v)
                source e,
          )))
        (λ source w (s, exists).
          bind-Triple IsSafe (λ generated_at. Started) End Started (ask F tools o tools.now) _
            (λ w s. s)
            (λ generated_at.
              let request = build_request F tools o config m attempt shape source generated_at in
              let From =
                λ (r : Option (Result (GenerateError F) (GeneratedTileSet F))) (w : World F T S).
                  Started w × ((t : T) × (r ≡ generation F tools o config mapping request t)) in
              bind-Triple IsSafe From End Started
                (ask F tools o (generation F tools o config mapping request)) _
                (λ w s. (s, (w.outer, refl)))
                (λ r.
                  lift-Triple IsSafe (From r) (ended F tools o r)
                    (λ w ((u, _), _). Untouched-IsSafe w u) End
                    (λ set w e (s, (t, from)).
                      let (bounds, clipped, complete) =
                        granule_tile_set-IsComplete F tools.to_string tools.sha256_hex
                          tools.write_image (tools.resized t) (tools.schedule t) config.app mapping
                          request set (sym from ∙ ended_elim r e) in
                      (
                        s,
                        record {
                          source = source;
                          bounds = bounds;
                          shape = shape;
                          generated_at = generated_at;
                          exists = exists;
                          clipped = clipped;
                          complete = complete;
                        },
                      ))))
            w s)

  elsewhere :
      (attempt : ℕ) (set : GeneratedTileSet F)
      → IsSetOf attempt set
      → manifest_blob_path set.manifest.tile_set_id ≡ ok latest_manifest_blob_path
      → ⊥
  elsewhere attempt set s h =
      manifest_blob_path-elsewhere (λ d. tools.date_text (tools.date_naive d)) tools.simple
        config.app.tile_classification_version m attempt
        (ap manifest_blob_path (sym s.complete.manifest_id) ∙ h)

  IsPublished-Outcome :
      (set : GeneratedTileSet F) (w : World F T S)
      (r : Result PublishError LatestManifestPointer × Publish.World S)
      → IsSetOf attempt_now set
      → Untouched w.tiles
      → HasRow F m.ingest_id w.log
      → Outcome
          (λ t.
            (t.blobs latest_manifest_blob_path ≡ w.tiles.blobs latest_manifest_blob_path)
            ⊎ IsInPlace o set.manifest set.tiles t)
          (λ pointer t. IsInPlace o set.manifest set.tiles t × PointsTo o set.manifest pointer t)
          r
      → Outcome {E = ServiceError F} IsSafe
          (λ pointer w. IsLatest set w.tiles × HasRow F m.ingest_id w.log)
          (
            map_error publish r.0,
            (let w' : World F T S = record {
              log = w.log;
              ingest_ids = w.ingest_ids;
              outer = w.outer;
              tiles = r.1;
            } in
                w'),
          )
  IsPublished-Outcome set w (ok pointer, t) s u h (p, at) = ((p, (pointer, at)), h)
  IsPublished-Outcome set w (err e, t) s u h (inl same) =
      inl (same ∙ ap (λ (t : Publish.World S). t.blobs latest_manifest_blob_path) u)
  IsPublished-Outcome set w (err e, t) s u h (inr p) = inr (set, s, p)

  abbrev SetEnded : GeneratedTileSet F → List (LogRow F) → Type 0
  SetEnded set =
      Ends F m.ingest_id
        (λ row. (row.status ≡ processed) × (row.tile_set_id ≡ some set.manifest.tile_set_id))

  -- The publication of a set, and the row that names it
  publish-Triple :
      (set : GeneratedTileSet F)
      → IsSetOf attempt_now set
      → Triple IsSafe Started
          (do
            publish_generated_tile_set F tools o set
            execute F tools o update_processing_log
                (mark_processing_processed_with_tile_set F m.ingest_id set.manifest.tile_set_id))
          (λ u. IsDone)
  unfolding publish_generated_tile_set mark_processing_processed_with_tile_set
  publish-Triple set s =
      bind-Triple IsSafe (λ pointer w. IsLatest set w.tiles × HasRow F m.ingest_id w.log)
        (λ u. IsDone) Started (publish_generated_tile_set F tools o set) _
        (λ w (u, h).
          IsPublished-Outcome set w
            (publish_tile_set o set.manifest set.tiles (tools.now w.outer) w.tiles) s u h
            (publish_tile_set-IsInPlace o set.manifest set.tiles (tools.now w.outer) w.tiles
              (elsewhere attempt_now set s)))
        (λ pointer w p.
          weaken IsSafe
            (λ u. Both F tools o IsSafe (IsLatest set) (IsLatest-IsSafe set s) (SetEnded set))
            (λ u. IsDone) (λ u w (k, e). inr (set, s, k, e)) _
            (execute-Triple F tools o IsSafe (IsLatest set) (IsLatest-IsSafe set s)
              (HasRow F m.ingest_id) (λ u. SetEnded set) update_processing_log
              (mark_processing_processed_with_tile_set F m.ingest_id set.manifest.tile_set_id)
              (λ u rows rows' there e.
                subst (λ p. SetEnded set p.1) (ok_injective e)
                  (updated-Ends F m.ingest_id (with_tile_set F set.manifest.tile_set_id) _
                    (λ row. refl) (λ row. (refl, refl)) rows there))
              w p))

  pub publish_granule-Triple :
      (mapping : DatasetMapping F) (attempt : ℕ) (shape : RasterShape)
      → attempt ≡ attempt_now
      → Triple IsSafe Started
          (publish_granule F tools o config mapping m attempt shape)
          (λ u. IsDone)
  unfolding publish_granule
  publish_granule-Triple mapping attempt shape same =
      let Named = λ (set : GeneratedTileSet F) (w : World F T S). Started w × IsSetOf attempt set in
      bind-Triple IsSafe Named (λ u. IsDone) Started
        (generate_set F tools o config mapping m attempt shape) _
        (generate_set-Triple mapping attempt shape)
        (λ set w (started, s). publish-Triple set (subst (λ a. IsSetOf a set) same s) w started)
