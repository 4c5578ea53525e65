-- ===== src/Ingest/Pipeline.antt =====
-- `process_granule` and `run_ingest`. An early return is an error that carries the outcome.
-- Logging is left out; `record_final_status` only writes to the log's span.
use lumen_horizon.Prelude.{ℕ, Text, codes, List, [], ◌∷◌, Result, ok, err}
use lumen_horizon.Action.{Action, return, throw, lift, ◌>>=◌, ◌>>◌}
use lumen_horizon.Message.Granule.{GranuleCandidate, raw_blob_path, processing_message_from_granule}
use lumen_horizon.Ingest.Validation.{validate_raw_granule_bytes}
use lumen_horizon.Ingest.Failures.{
  upload, enqueue, IngestFailureContext, database_message, earthdata_download, storage_failure,
  raw_validation, processing_message_failure, database_status_update, create_outbox,
}
use lumen_horizon.Ingest.World.{Outside, World, query, call, with_id}
use lumen_horizon.Ingest.Statements
use lumen_horizon.Ingest.Statements.{
  InsertDownloadingRowOutcome, created, already_exists, insert_downloading_row,
  create_pending_enqueue_outbox, mark_validated, mark_enqueued, mark_failed, mark_rejected,
  mark_outbox_completed,
}
use lumen_horizon.Ingest.Summary.{
  GranuleProcessingOutcome, skipped, failed_before_downloaded, failed_after_downloaded,
  rejected_after_downloaded, failed_after_validated, outcome_enqueued, IngestSummary,
  record_attempt,
}

module _ {W E O A : Type 0} where
  -- `match … { Err(error) => { …; return outcome } }`: the handler runs, then the outcome is returned.
  abbrev pub handled : (E → W → O × W) → Result E A × W → Result O A × W
  handled handler (ok a, w) = (ok a, w)
  handled handler (err e, w) = let (outcome, w') = handler e w in (err outcome, w')

  abbrev pub or_return : (E → W → O × W) → Action W E A → Action W O A
  or_return handler action w = handled handler (action w)

-- The outcome, however it is returned
abbrev pub outcome_of : {W O : Type 0} → Result O O × W → O × W
outcome_of (ok o, w) = (o, w)
outcome_of (err o, w) = (o, w)

module _ {S : Type 0} (o : Outside S) (azure_queue_name : Text) where
  -- The handlers: nothing but the outcome, or the row's new status first. An error of that statement is logged.
  abbrev pub leave :
      {E : Type 0} → GranuleProcessingOutcome → E → World S → GranuleProcessingOutcome × World S
  leave outcome e w = (outcome, w)

  abbrev pub fail_row :
      {E : Type 0}
      → ℕ
      → (E → IngestFailureContext)
      → GranuleProcessingOutcome
      → E
      → World S
      → GranuleProcessingOutcome × World S
  fail_row id failure_of outcome e w =
      (outcome, (query o (mark_failed id (database_message (failure_of e))) w).1)

  abbrev pub reject_row :
      {E : Type 0}
      → ℕ
      → (E → IngestFailureContext)
      → GranuleProcessingOutcome
      → E
      → World S
      → GranuleProcessingOutcome × World S
  reject_row id failure_of outcome e w =
      (outcome, (query o (mark_rejected id (database_message (failure_of e))) w).1)

  unfoldable pub created_or_skipped :
      InsertDownloadingRowOutcome → Action (World S) GranuleProcessingOutcome ℕ
  created_or_skipped (created id) = return id
  created_or_skipped already_exists = throw skipped

  -- From the new row to the end
  unfoldable pub ingest_row :
      GranuleCandidate ℕ
      → Text
      → ℕ
      → Action (World S) GranuleProcessingOutcome GranuleProcessingOutcome
  ingest_row g path id = do
    bytes ←
        or_return (fail_row id (earthdata_download o.status_text) failed_before_downloaded)
          (call o (o.earthdata_download g))
    or_return (fail_row id (storage_failure o.status_text upload) failed_before_downloaded)
        (call o (o.upload_raw_blob path bytes))
    or_return (leave failed_before_downloaded) (query o (Statements.mark_downloaded id))
    or_return (reject_row id raw_validation rejected_after_downloaded)
        (lift (validate_raw_granule_bytes bytes))
    or_return (leave failed_after_downloaded) (query o (mark_validated id))
    outbox_id ←
        or_return
          (fail_row id (database_status_update create_outbox (codes "create_enqueue_outbox_failed"))
            failed_after_validated)
          (with_id o (create_pending_enqueue_outbox id (codes "ingest_validated")))
    message ←
        or_return (fail_row id processing_message_failure failed_after_validated)
          (lift (processing_message_from_granule id g path))
    or_return (fail_row id (storage_failure o.status_text enqueue) failed_after_validated)
        (call o (o.enqueue_processing_message azure_queue_name message))
    or_return (leave failed_after_validated) (query o (mark_enqueued id))
    or_return (leave failed_after_validated) (query o (mark_outbox_completed outbox_id))
    return outcome_enqueued

  unfoldable pub insert_or_skip :
      GranuleCandidate ℕ → Text → Action (World S) GranuleProcessingOutcome ℕ
  unfolding created_or_skipped
  insert_or_skip g path = do
    inserted ← or_return (leave skipped) (with_id o (insert_downloading_row g path))
    created_or_skipped inserted

  unfoldable pub process_granule_inner :
      GranuleCandidate ℕ → Text → Action (World S) GranuleProcessingOutcome GranuleProcessingOutcome
  unfolding insert_or_skip ingest_row
  process_granule_inner g path = do id ← insert_or_skip g path; ingest_row g path id

  unfoldable pub process_granule : GranuleCandidate ℕ → World S → GranuleProcessingOutcome × World S
  unfolding process_granule_inner raw_blob_path
  process_granule g w = outcome_of (process_granule_inner g (raw_blob_path o.date_text g) w)

  -- The loop of `run_ingest_inner`
  unfoldable pub process_granules :
      List (GranuleCandidate ℕ) → IngestSummary → World S → IngestSummary × World S
  unfolding process_granule record_attempt
  process_granules [] summary w = (summary, w)
  process_granules (g ∷ gs) summary w =
      let (outcome, w') = process_granule g w in
      process_granules gs (record_attempt outcome summary) w'
