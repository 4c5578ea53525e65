-- ===== src/Ingest/Recovery.antt =====
-- `run_recovery`, `replay_rejected_granule` and `enqueue_pending_outbox`.
use lumen_horizon.Prelude.{
  ℕ, ◌+◌, Text, codes, Bool, true, false, List, [], ◌∷◌, if◌then◌else◌, Result, ok, err,
}
use lumen_horizon.Action.{Action, return, throw, ◌>>=◌, ◌>>◌}
use lumen_horizon.Message.Validate.{ProcessingMessage, ValidationError, new}
use lumen_horizon.Discovery.Search.{CmrError}
use lumen_horizon.Ingest.Validation.{RawGranuleValidationError, validate_raw_granule_bytes}
use lumen_horizon.Ingest.Failures.{
  EarthdataError, enqueue, StorageError, database_message, storage_failure, raw_validation,
}
use lumen_horizon.Ingest.Tables.{IngestRow}
use lumen_horizon.Ingest.World.{Outside, World, query, call, with_id}
use lumen_horizon.Ingest.Statements.{
  recoverable_raw_rows, create_pending_enqueue_outbox, PendingOutboxRecord, pending_enqueue_outbox,
  mark_recovery_pending, mark_rejected, mark_validated, mark_enqueued, mark_outbox_completed,
  mark_outbox_failed, set_replay_pending,
}

-- A database error is its text.
pub data IngestError : Type 0 where
  database_error : Text → IngestError
  storage_error : StorageError → IngestError
  cmr_error : CmrError → IngestError
  earthdata_error : EarthdataError → IngestError
  replay_not_rejected : ℕ → IngestError

pub record RecoverySummary : Type 0 where
  pub raw_rows_examined : ℕ
  pub raw_rows_validated : ℕ
  pub raw_rows_rejected : ℕ
  pub outbox_examined : ℕ
  pub enqueued : ℕ
  pub failed : ℕ

abbrev pub no_recovery : RecoverySummary
no_recovery = record {
  raw_rows_examined = 0;
  raw_rows_validated = 0;
  raw_rows_rejected = 0;
  outbox_examined = 0;
  enqueued = 0;
  failed = 0;
}

module _ {W E F A : Type 0} where
  -- `?`, which converts the error
  abbrev pub converted : (E → F) → Result E A × W → Result F A × W
  converted f (ok a, w) = (ok a, w)
  converted f (err e, w) = (err (f e), w)

  abbrev pub map_err : (E → F) → Action W E A → Action W F A
  map_err f action w = converted f (action w)

-- `for x in xs { summary = body(x, summary)?; }`
unfoldable pub fold_each : {W E A B : Type 0} → (A → B → Action W E B) → List A → B → Action W E B
fold_each body [] b = return b
fold_each body (x ∷ xs) b = do b' ← body x b; fold_each body xs b'

module _ {S : Type 0} (o : Outside S) (azure_queue_name : Text) where
  abbrev pub Job : Type 0 → Type 0
  Job A = Action (World S) IngestError A

  unfoldable pub recover_bytes :
      IngestRow
      → RecoverySummary
      → Result RawGranuleValidationError (Unit {0})
      → Job RecoverySummary
  recover_bytes row summary (err error) = do
    map_err database_error
        (query o (mark_rejected row.id (database_message (raw_validation error))))
    return (record summary { raw_rows_rejected = summary.raw_rows_rejected + 1 })
  recover_bytes row summary (ok u) = do
    map_err database_error (query o (mark_validated row.id))
    map_err database_error
        (with_id o (create_pending_enqueue_outbox row.id (codes "recover_validated_raw_blob")))
    return (record summary { raw_rows_validated = summary.raw_rows_validated + 1 })

  abbrev pub recover_downloaded :
      IngestRow
      → RecoverySummary
      → Result StorageError (List ℕ) × World S
      → Result IngestError RecoverySummary × World S
  recover_downloaded row summary (err error, w) =
      (do
        map_err database_error (query o (mark_recovery_pending row.id))
        return (record summary { failed = summary.failed + 1 }))
        w
  recover_downloaded row summary (ok bytes, w) =
      recover_bytes row summary (validate_raw_granule_bytes bytes) w

  -- The body of the first loop
  unfoldable pub recover_row : IngestRow → RecoverySummary → Job RecoverySummary
  unfolding recover_bytes
  recover_row row summary w =
      recover_downloaded row (record summary { raw_rows_examined = summary.raw_rows_examined + 1 })
        (call o (o.download_raw_blob row.blob_path) w)

  abbrev pub message_of : PendingOutboxRecord → Result ValidationError (ProcessingMessage ℕ ℕ)
  message_of r = new (record {
    ingest_id = r.ingest_id;
    blob_path = r.blob_path;
    product = r.product;
    granule_date = r.granule_date;
    tile_h = r.tile_h;
    tile_v = r.tile_v;
  })

  abbrev pub give_up : PendingOutboxRecord → RecoverySummary → Text → Job RecoverySummary
  give_up r summary text = do
    map_err database_error (query o (mark_outbox_failed r.id text))
    return (record summary { failed = summary.failed + 1 })

  unfoldable pub after_enqueue :
      PendingOutboxRecord
      → RecoverySummary
      → Result StorageError (Unit {0}) × World S
      → Result IngestError RecoverySummary × World S
  after_enqueue r summary (err error, w) =
      give_up r summary (database_message (storage_failure o.status_text enqueue error)) w
  after_enqueue r summary (ok u, w) =
      (do
        map_err database_error (query o (mark_enqueued r.ingest_id))
        map_err database_error (query o (mark_outbox_completed r.id))
        return (record summary { enqueued = summary.enqueued + 1 }))
        w

  unfoldable pub enqueue_built :
      PendingOutboxRecord
      → RecoverySummary
      → Result ValidationError (ProcessingMessage ℕ ℕ)
      → Job RecoverySummary
  unfolding after_enqueue
  enqueue_built r summary (err error) w = give_up r summary (o.message_error_text error) w
  enqueue_built r summary (ok message) w =
      after_enqueue r summary (call o (o.enqueue_processing_message azure_queue_name message) w)

  -- The body of the loop over the outbox
  unfoldable pub enqueue_record : PendingOutboxRecord → RecoverySummary → Job RecoverySummary
  unfolding enqueue_built new
  enqueue_record r summary =
      enqueue_built r (record summary { outbox_examined = summary.outbox_examined + 1 })
        (message_of r)

  unfoldable pub enqueue_pending_outbox : RecoverySummary → Job RecoverySummary
  unfolding enqueue_record fold_each
  enqueue_pending_outbox summary = do
    records ← map_err database_error (query o pending_enqueue_outbox)
    fold_each enqueue_record records summary

  unfoldable pub run_recovery : Job RecoverySummary
  unfolding recover_row enqueue_pending_outbox fold_each
  run_recovery = do
    map_err storage_error (call o o.new_blob_client)
    map_err storage_error (call o o.new_queue_client)
    rows ← map_err database_error (query o recoverable_raw_rows)
    summary ← fold_each recover_row rows no_recovery
    enqueue_pending_outbox summary

  -- `ingest_log::replay_rejected`
  unfoldable pub replay_rejected : ℕ → Text → Action (World S) Text Bool
  replay_rejected id reason = do
    updated ← query o (set_replay_pending id)
    if updated
        then (do with_id o (create_pending_enqueue_outbox id reason); return true)
        else return false

  unfoldable pub replay_rejected_granule : ℕ → Job RecoverySummary
  unfolding replay_rejected enqueue_pending_outbox
  replay_rejected_granule id = do
    is_replayed ← map_err database_error (replay_rejected id (codes "operator_replay_rejected"))
    if is_replayed
        then (do
          map_err storage_error (call o o.new_queue_client)
          enqueue_pending_outbox no_recovery)
        else throw (replay_not_rejected id)
