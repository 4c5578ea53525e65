-- ===== src/Ingest/RecoveryKeeps.antt =====
-- A condition on the world that every statement on a row keeps is kept by the recovery and the replay.
use lumen_horizon.Prelude.{
  ℕ, Text, codes, Bool, true, false, List, if◌then◌else◌, Result, ok, err, All, ◌≡◌, refl,
}
use lumen_horizon.Action.{
  Action, then_do, ◌>>=◌, ◌>>◌, Preserves, return, bind-Preserves, branch-Preserves,
}
use lumen_horizon.Message.Validate.{ProcessingMessage, ValidationError}
use lumen_horizon.Ingest.Validation.{RawGranuleValidationError, validate_raw_granule_bytes}
use lumen_horizon.Ingest.Failures.{StorageError, database_message, raw_validation}
use lumen_horizon.Ingest.Tables.{IngestRow, rejected, validated, enqueued, recovery_pending}
use lumen_horizon.Ingest.World.{Outside, World, query, call, with_id}
use lumen_horizon.Ingest.Statements.{
  recoverable_raw_rows, pending_enqueue_outbox, create_pending_enqueue_outbox,
  mark_outbox_completed, mark_outbox_failed, mark_validated, mark_enqueued, mark_rejected,
  mark_recovery_pending, PendingOutboxRecord, set_replay_pending,
}
use lumen_horizon.Ingest.Recovery.{
  IngestError, database_error, storage_error, RecoverySummary, no_recovery, converted, map_err,
  fold_each, recover_bytes, recover_downloaded, recover_row, message_of, give_up, after_enqueue,
  enqueue_built, enqueue_record, enqueue_pending_outbox, run_recovery, replay_rejected,
  replay_rejected_granule,
}
use lumen_horizon.Ingest.Keeps.{StepsKeep, map_err-Preserves, fold_each-Preserves}

-- What a recovery does keeps `P`, when it reads the ids that satisfy `Q`.
pub record RecoveryKeeps {S : Type 0} (o : Outside S) (P : World S → Type 0) (Q : ℕ → Type 0)
    : Type 1 where
  pub steps : (id : ℕ) → Q id → StepsKeep o P id
  pub create :
      (id : ℕ) (reason : Text) → Preserves P (with_id o (create_pending_enqueue_outbox id reason))
  pub calls : {E A : Type 0} (f : S → Result E A × S) → Preserves P (call o f)
  pub rows_read : Preserves P (query o recoverable_raw_rows)
  pub rows_known :
      (w : World S) (rs : List IngestRow)
      → P w
      → (query o recoverable_raw_rows w).0 ≡ ok rs
      → All (λ r. Q r.id) rs
  pub records_read : Preserves P (query o pending_enqueue_outbox)
  pub records_known :
      (w : World S) (rs : List PendingOutboxRecord)
      → P w
      → (query o pending_enqueue_outbox w).0 ≡ ok rs
      → All (λ r. Q r.ingest_id) rs

module _ {S : Type 0} (o : Outside S) (queue_name : Text) (P : World S → Type 0) where
  -- `?` on a statement
  query_then :
      {A B : Type 0} (action : Action (World S) Text A) (next : A → Action (World S) IngestError B)
      → Preserves P action
      → ((a : A) → Preserves P (next a))
      → Preserves P (map_err database_error action >>= next)
  query_then action next a h =
      bind-Preserves P (map_err database_error action) next
        (map_err-Preserves P database_error action a) h

  read_known :
      {A B : Type 0} (Known : A → Type 0) (next : A → Action (World S) IngestError B)
      (r : Result Text A × World S)
      → ((a : A) → r.0 ≡ ok a → Known a)
      → P r.1
      → ((a : A) → Known a → Preserves P (next a))
      → P (then_do next (converted database_error r)).1
  read_known Known next (ok a, w) known p h = h a (known a refl) w p
  read_known Known next (err e, w) known p h = p

  -- `?` on a statement whose answer is known to satisfy `Known`
  read_then :
      {A B : Type 0} (action : Action (World S) Text A) (Known : A → Type 0)
      (next : A → Action (World S) IngestError B)
      → ((w : World S) (a : A) → P w → (action w).0 ≡ ok a → Known a)
      → Preserves P action
      → ((a : A) → Known a → Preserves P (next a))
      → Preserves P (map_err database_error action >>= next)
  read_then action Known next known a h w p =
      read_known Known next (action w) (λ a e. known w a p e) (a w p) h

  module _ (row : IngestRow) (keep : StepsKeep o P row.id) where
    recover_bytes-Preserves :
        (summary : RecoverySummary) (r : Result RawGranuleValidationError (Unit {0}))
        → Preserves P (recover_bytes o queue_name row summary r)
    unfolding recover_bytes mark_rejected mark_validated
    recover_bytes-Preserves summary (err error) =
        query_then (query o (mark_rejected row.id (database_message (raw_validation error)))) _
          (keep.failure rejected _) (λ _ w p. p)
    recover_bytes-Preserves summary (ok u) =
        query_then (query o (mark_validated row.id)) _ (keep.success validated) (λ _.
          query_then
            (with_id o (create_pending_enqueue_outbox row.id (codes "recover_validated_raw_blob")))
            _ (keep.create _) (λ _ w p. p))

    recover_downloaded-Preserves :
        (summary : RecoverySummary) (r : Result StorageError (List ℕ) × World S)
        → P r.1
        → P (recover_downloaded o queue_name row summary r).1
    unfolding mark_recovery_pending
    recover_downloaded-Preserves summary (err error, w) p =
        query_then (query o (mark_recovery_pending row.id)) _ (keep.success recovery_pending)
          (λ _ w p. p) w p
    recover_downloaded-Preserves summary (ok bytes, w) p =
        recover_bytes-Preserves summary (validate_raw_granule_bytes bytes) w p

    pub recover_row-Preserves :
        (summary : RecoverySummary) → Preserves P (recover_row o queue_name row summary)
    unfolding recover_row
    recover_row-Preserves summary w p =
        recover_downloaded-Preserves _ (call o (o.download_raw_blob row.blob_path) w)
          (keep.calls (o.download_raw_blob row.blob_path) w p)

  module _ (r : PendingOutboxRecord) (keep : StepsKeep o P r.ingest_id) where
    give_up-Preserves :
        (summary : RecoverySummary) (text : Text)
        → Preserves P (give_up o queue_name r summary text)
    give_up-Preserves summary text =
        query_then (query o (mark_outbox_failed r.id text)) _ (keep.count r.id text) (λ _ w p. p)

    after_enqueue-Preserves :
        (summary : RecoverySummary) (reply : Result StorageError (Unit {0}) × World S)
        → P reply.1
        → P (after_enqueue o queue_name r summary reply).1
    unfolding after_enqueue mark_enqueued
    after_enqueue-Preserves summary (err error, w) p = give_up-Preserves summary _ w p
    after_enqueue-Preserves summary (ok u, w) p =
        query_then (query o (mark_enqueued r.ingest_id)) _ (keep.success enqueued)
          (λ _.
            query_then (query o (mark_outbox_completed r.id)) _ (keep.complete r.id) (λ _ w p. p))
          w p

    enqueue_built-Preserves :
        (summary : RecoverySummary) (built : Result ValidationError (ProcessingMessage ℕ ℕ))
        → Preserves P (enqueue_built o queue_name r summary built)
    unfolding enqueue_built
    enqueue_built-Preserves summary (err error) w p =
        give_up-Preserves summary (o.message_error_text error) w p
    enqueue_built-Preserves summary (ok message) w p =
        after_enqueue-Preserves summary (call o (o.enqueue_processing_message queue_name message) w)
          (keep.calls (o.enqueue_processing_message queue_name message) w p)

    pub enqueue_record-Preserves :
        (summary : RecoverySummary) → Preserves P (enqueue_record o queue_name r summary)
    unfolding enqueue_record
    enqueue_record-Preserves summary = enqueue_built-Preserves _ (message_of o queue_name r)

  -- The recovery, when the rows and the records that it reads have ids that satisfy `Q`
  module _ {Q : ℕ → Type 0} (keep : RecoveryKeeps o P Q) where
    pub enqueue_pending_outbox-Preserves :
        (summary : RecoverySummary) → Preserves P (enqueue_pending_outbox o queue_name summary)
    unfolding enqueue_pending_outbox
    enqueue_pending_outbox-Preserves summary =
        read_then (query o pending_enqueue_outbox) (All (λ r. Q r.ingest_id)) _ keep.records_known
          keep.records_read
          (λ rs known.
            fold_each-Preserves P (λ r. Q r.ingest_id) _
              (λ r summary q. enqueue_record-Preserves r (keep.steps r.ingest_id q) summary) rs
              known summary)

    pub run_recovery-Preserves : Preserves P (run_recovery o queue_name)
    unfolding run_recovery
    run_recovery-Preserves =
        bind-Preserves P (map_err storage_error (call o o.new_blob_client)) _
          (map_err-Preserves P storage_error _ (keep.calls o.new_blob_client))
          (λ _.
            bind-Preserves P (map_err storage_error (call o o.new_queue_client)) _
              (map_err-Preserves P storage_error _ (keep.calls o.new_queue_client))
              (λ _.
                read_then (query o recoverable_raw_rows) (All (λ r. Q r.id)) _ keep.rows_known
                  keep.rows_read
                  (λ rows known.
                    bind-Preserves P (fold_each (recover_row o queue_name) rows no_recovery) _
                      (fold_each-Preserves P (λ r. Q r.id) _
                        (λ r summary q. recover_row-Preserves r (keep.steps r.id q) summary) rows
                        known no_recovery)
                      enqueue_pending_outbox-Preserves)))

    module _ (replay : (id : ℕ) → Preserves P (query o (set_replay_pending id))) where
      after_replay-Preserves :
          (id : ℕ) (reason : Text) (updated : Bool)
          → Preserves P (
              if updated
              then (do with_id o (create_pending_enqueue_outbox id reason); return true)
              else return false)
      after_replay-Preserves id reason updated =
          branch-Preserves P updated _ _
            (bind-Preserves P (with_id o (create_pending_enqueue_outbox id reason)) _
              (keep.create id reason) (λ _ w p. p))
            (λ w p. p)

      pub replay_rejected_granule-Preserves :
          (id : ℕ) → Preserves P (replay_rejected_granule o queue_name id)
      unfolding replay_rejected_granule replay_rejected
      replay_rejected_granule-Preserves id =
          bind-Preserves P
            (map_err database_error
              (replay_rejected o queue_name id (codes "operator_replay_rejected")))
            _
            (map_err-Preserves P database_error _ (
              bind-Preserves P (query o (set_replay_pending id)) _ (replay id)
                (after_replay-Preserves id (codes "operator_replay_rejected"))))
            (λ is_replayed.
              branch-Preserves P is_replayed _ _
                (bind-Preserves P (map_err storage_error (call o o.new_queue_client)) _
                  (map_err-Preserves P storage_error _ (keep.calls o.new_queue_client))
                  (λ _. enqueue_pending_outbox-Preserves no_recovery))
                (λ w p. p))
