-- ===== src/Process/Log.antt =====
-- The rows of `processing_log` and the statements on them. Their times are left out.
use lumen_horizon.Prelude.{
  ℕ, ◌+◌, ◌^◌, ◌==◌, ltb, Text, codes, Bool, any, List, [], ◌∷◌, ◌++◌, Option, none, some,
  if◌then◌else◌, Result, ok, err,
}
use lumen_horizon.Prelude.Int.{ℤ}
use lumen_horizon.Float.{Floating}
use lumen_horizon.Message.Validate.{ProcessingMessage}
use lumen_horizon.Science.Mapping.{RasterWindow}
use lumen_horizon.Science.Summary.{QualitySummary}
use lumen_horizon.Science.DarkSky.{DarkSkyClass}
use lumen_horizon.Ingest.Tables.{update_where}
use lumen_horizon.Ingest.World.{Fate, applied, refused, answer_lost}

pub data ProcessingStatus : Type 0 where
  processing processed rejected failed deadlettered : ProcessingStatus

module _ (F : Floating) where
  -- What `build_quality_metadata` writes as JSON; the versions are constants.
  pub record QualityMetadata : Type 0 where
    pub sample_window : RasterWindow
    pub quality_summary : QualitySummary F
    pub max_cloud_fraction : F.Num
    pub exceeds_max_cloud_fraction : Bool
    pub first_sample : Option (DarkSkyClass F)

  pub record LogRow : Type 0 where
    pub id : ℕ
    pub ingest_id : ℕ
    pub source_blob_path : Text
    pub product : Text
    pub tile_h : ℤ
    pub tile_v : ℤ
    pub granule_date : ℕ
    pub status : ProcessingStatus
    pub attempts : ℕ
    pub cloud_fraction : Option F.Num
    pub valid_pixel_count : Option ℕ
    pub rejected_pixel_count : Option ℕ
    pub tile_set_id : Option Text
    pub metadata : Option QualityMetadata
    pub error_message : Option Text

  pub data DbError : Type 0 where
    connect_error : Text → DbError
    upsert_processing_log : Text → DbError
    update_processing_log : Text → DbError
    missing_ingest_log : ℕ → DbError

  abbrev pub of_ingest : ℕ → LogRow → Bool
  of_ingest ingest_id row = row.ingest_id == ingest_id

  abbrev pub of_id : ℕ → LogRow → Bool
  of_id id row = row.id == id

  -- `ON CONFLICT (ingest_id) DO UPDATE`
  abbrev pub restarted : ProcessingMessage ℕ ℕ → LogRow → LogRow
  restarted m row = record row {
    source_blob_path = m.blob_path;
    product = m.product;
    tile_h = m.tile_h;
    tile_v = m.tile_v;
    granule_date = m.granule_date;
    status = processing;
    attempts = row.attempts + 1;
    error_message = none;
  }

  abbrev pub started : ℕ → ProcessingMessage ℕ ℕ → LogRow
  started id m = record {
    id = id;
    ingest_id = m.ingest_id;
    source_blob_path = m.blob_path;
    product = m.product;
    tile_h = m.tile_h;
    tile_v = m.tile_v;
    granule_date = m.granule_date;
    status = processing;
    attempts = 1;
    cloud_fraction = none;
    valid_pixel_count = none;
    rejected_pixel_count = none;
    tile_set_id = none;
    metadata = none;
    error_message = none;
  }

  -- `RETURNING id, attempts` of the row of the ingest
  abbrev pub find_row : ℕ → List LogRow → Option (ℕ × ℕ)
  find_row ingest_id [] = none
  find_row ingest_id (row ∷ rows) =
      let later = find_row ingest_id rows in
      if of_ingest ingest_id row then some (row.id, row.attempts) else later

  -- A statement on the rows: its answer and the new rows, or a violated constraint
  abbrev pub Statement : Type 0 → Type 0
  Statement A = List LogRow → Result Text (A × List LogRow)

  -- No row comes back where the ingest is not known. The attempts are an INTEGER.
  unfoldable pub upsert_processing_started :
      List ℕ → ℕ → ProcessingMessage ℕ ℕ → Statement (Option (ℕ × ℕ))
  upsert_processing_started ingest_ids id m rows =
      if any (λ known. known == m.ingest_id) ingest_ids
      then elim (find_row m.ingest_id rows) [
        | none ↦ ok (some (id, 1), rows ++ started id m ∷ [])
        | some (row_id, attempts) ↦
            if ltb (attempts + 1) (2 ^ 31)
            then ok (
              some (row_id, attempts + 1),
              update_where (of_ingest m.ingest_id) (restarted m) rows,
            )
            else err (codes "integer out of range")
      ]
      else ok (none, rows)

  abbrev pub with_metadata : QualityMetadata → LogRow → LogRow
  with_metadata metadata row = record row {
    metadata = some metadata;
    cloud_fraction = some metadata.quality_summary.cloud_fraction;
    valid_pixel_count = some metadata.quality_summary.valid_pixel_count;
    rejected_pixel_count = some metadata.quality_summary.rejected_pixel_count;
  }

  unfoldable pub update_processing_metadata : ℕ → QualityMetadata → Statement (Unit {0})
  update_processing_metadata id metadata rows =
      ok (tt, update_where (of_id id) (with_metadata metadata) rows)

  abbrev pub ended : ProcessingStatus → Text → LogRow → LogRow
  ended status message row = record row { status = status; error_message = some message }

  unfoldable pub mark_processing_failed : ℕ → Text → Statement (Unit {0})
  mark_processing_failed ingest_id message rows =
      ok (tt, update_where (of_ingest ingest_id) (ended failed message) rows)

  unfoldable pub mark_processing_deadlettered : ℕ → Text → Statement (Unit {0})
  mark_processing_deadlettered ingest_id message rows =
      ok (tt, update_where (of_ingest ingest_id) (ended deadlettered message) rows)

  unfoldable pub mark_processing_rejected : ℕ → Text → Statement (Unit {0})
  mark_processing_rejected ingest_id reason rows =
      ok (tt, update_where (of_ingest ingest_id) (ended rejected reason) rows)

  abbrev pub with_tile_set : Text → LogRow → LogRow
  with_tile_set tile_set_id row = record row {
    status = processed;
    tile_set_id = some tile_set_id;
    error_message = none;
  }

  unfoldable pub mark_processing_processed_with_tile_set : ℕ → Text → Statement (Unit {0})
  mark_processing_processed_with_tile_set ingest_id tile_set_id rows =
      ok (tt, update_where (of_ingest ingest_id) (with_tile_set tile_set_id) rows)

  -- The answer and the rows, as the statement fares
  abbrev pub answered :
      {A : Type 0}
      → List LogRow
      → Result Text (A × List LogRow)
      → Fate
      → Result Text A × List LogRow
  answered rows r (refused e) = (err e, rows)
  answered rows (err e) applied = (err e, rows)
  answered rows (err e) (answer_lost lost) = (err lost, rows)
  answered rows (ok (a, rows')) applied = (ok a, rows')
  answered rows (ok (a, rows')) (answer_lost lost) = (err lost, rows')
