-- ===== src/Ingest/Keeps.antt =====
-- A property of the tables that the statements on one row keep is kept by the jobs on that row.
use lumen_horizon.Prelude.{ℕ, Text, codes, List, [], ◌∷◌, Result, ok, err, All}
use lumen_horizon.Action.{Action, ◌>>=◌, Preserves, lift, bind-Preserves, then_do-Preserves}
use lumen_horizon.Message.Granule.{GranuleCandidate, processing_message_from_granule}
use lumen_horizon.Ingest.Validation.{validate_raw_granule_bytes}
use lumen_horizon.Ingest.Failures.{
  IngestFailureContext, upload, enqueue, create_outbox, earthdata_download, storage_failure,
  raw_validation, processing_message_failure, database_status_update,
}
use lumen_horizon.Ingest.Tables.{
  IngestStatus, Tables, rejected, failed, downloaded, validated, enqueued,
}
use lumen_horizon.Ingest.World.{
  Outside, World, query, call, with_id, Keeps, OfTables, query-Preserves, with_id-Preserves,
}
use lumen_horizon.Ingest.Statements
use lumen_horizon.Ingest.Statements.{
  mark_success_status, mark_failed_status, create_pending_enqueue_outbox, mark_outbox_completed,
  mark_outbox_failed, mark_validated, mark_enqueued, mark_failed, mark_rejected,
}
use lumen_horizon.Ingest.Summary.{
  GranuleProcessingOutcome, failed_before_downloaded, failed_after_downloaded,
  rejected_after_downloaded, failed_after_validated,
}
use lumen_horizon.Ingest.Pipeline.{handled, or_return, ingest_row, fail_row, reject_row, leave}
use lumen_horizon.Ingest.Recovery.{converted, map_err, fold_each}

-- What the jobs do to the row `id` and to the records of the outbox keeps `I`.
pub record StatementsKeep (I : Tables → Type 0) (id : ℕ) : Type 0 where
  pub success : (status : IngestStatus) → Keeps I (mark_success_status id status)
  pub failure :
      (status : IngestStatus) (message : Text) → Keeps I (mark_failed_status id status message)
  pub create :
      (reason : Text) (outbox_id : ℕ) → Keeps I (create_pending_enqueue_outbox id reason outbox_id)
  pub complete : (outbox_id : ℕ) → Keeps I (mark_outbox_completed outbox_id)
  pub count : (outbox_id : ℕ) (message : Text) → Keeps I (mark_outbox_failed outbox_id message)

-- The same of a condition on the world, which a call of a client keeps as well.
pub record StepsKeep {S : Type 0} (o : Outside S) (P : World S → Type 0) (id : ℕ) : Type 1 where
  pub success : (status : IngestStatus) → Preserves P (query o (mark_success_status id status))
  pub failure :
      (status : IngestStatus) (message : Text)
      → Preserves P (query o (mark_failed_status id status message))
  pub create : (reason : Text) → Preserves P (with_id o (create_pending_enqueue_outbox id reason))
  pub complete : (outbox_id : ℕ) → Preserves P (query o (mark_outbox_completed outbox_id))
  pub count :
      (outbox_id : ℕ) (message : Text)
      → Preserves P (query o (mark_outbox_failed outbox_id message))
  pub calls : {E A : Type 0} (f : S → Result E A × S) → Preserves P (call o f)

pub of_tables :
    {S : Type 0} (o : Outside S) (I : Tables → Type 0) (id : ℕ)
    → StatementsKeep I id
    → StepsKeep o (OfTables I) id
of_tables o I id keep = record {
  success = λ status. query-Preserves o I (mark_success_status id status) (keep.success status);
  failure = λ status message.
      query-Preserves o I (mark_failed_status id status message) (keep.failure status message);
  create = λ reason.
      with_id-Preserves o I (create_pending_enqueue_outbox id reason) (keep.create reason);
  complete =
      λ outbox_id. query-Preserves o I (mark_outbox_completed outbox_id) (keep.complete outbox_id);
  count = λ outbox_id message.
      query-Preserves o I (mark_outbox_failed outbox_id message) (keep.count outbox_id message);
  calls = λ f w p. p;
}

module _ {W E F A : Type 0} (P : W → Type 0) where
  handled-Preserves :
      (handler : E → W → F × W)
      → ((e : E) (w : W) → P w → P (handler e w).1)
      → (r : Result E A × W) → P r.1
      → P (handled handler r).1
  handled-Preserves handler h (ok a, w) p = p
  handled-Preserves handler h (err e, w) p = h e w p

  pub or_return-Preserves :
      (handler : E → W → F × W) (action : Action W E A)
      → ((e : E) (w : W) → P w → P (handler e w).1)
      → Preserves P action
      → Preserves P (or_return handler action)
  or_return-Preserves handler action h a w p = handled-Preserves handler h (action w) (a w p)

  converted-Preserves : (f : E → F) (r : Result E A × W) → P r.1 → P (converted f r).1
  converted-Preserves f (ok a, w) p = p
  converted-Preserves f (err e, w) p = p

  pub map_err-Preserves :
      (f : E → F) (action : Action W E A) → Preserves P action → Preserves P (map_err f action)
  map_err-Preserves f action a w p = converted-Preserves f (action w) (a w p)

pub fold_each-Preserves :
    {W E A B : Type 0} (P : W → Type 0) (Q : A → Type 0) (body : A → B → Action W E B)
    → ((x : A) (b : B) → Q x → Preserves P (body x b))
    → (xs : List A) → All Q xs
    → (b : B) → Preserves P (fold_each body xs b)
unfolding fold_each
fold_each-Preserves P Q body h [] _ b w p = p
fold_each-Preserves P Q body h (x ∷ xs) (q, qs) b w p =
    then_do-Preserves P _ (λ b'. fold_each-Preserves P Q body h xs qs b') (body x b w) (h x b q w p)

module _ {S : Type 0} (o : Outside S) (queue_name : Text) (P : World S → Type 0) (id : ℕ)
    (keep : StepsKeep o P id) where
  module _ {A B : Type 0} where
    step-Preserves :
        {E : Type 0} (f : E → IngestFailureContext) (outcome : GranuleProcessingOutcome)
        (action : Action (World S) E A) (next : A → Action (World S) GranuleProcessingOutcome B)
        → Preserves P action
        → ((a : A) → Preserves P (next a))
        → Preserves P (or_return (fail_row o queue_name id f outcome) action >>= next)
    unfolding mark_failed
    step-Preserves f outcome action next a h =
        bind-Preserves P (or_return (fail_row o queue_name id f outcome) action) next
          (or_return-Preserves P (fail_row o queue_name id f outcome) action
            (λ e w p. keep.failure failed _ w p) a)
          h

    mark-Preserves :
        (outcome : GranuleProcessingOutcome) (action : Action (World S) Text A)
        (next : A → Action (World S) GranuleProcessingOutcome B)
        → Preserves P action
        → ((a : A) → Preserves P (next a))
        → Preserves P (or_return (leave o queue_name outcome) action >>= next)
    mark-Preserves outcome action next a h =
        bind-Preserves P (or_return (leave o queue_name outcome) action) next
          (or_return-Preserves P (leave o queue_name outcome) action (λ e w p. p) a) h

  -- The pipeline, once the row `id` is there
  pub ingest_row-Preserves :
      (g : GranuleCandidate ℕ) (path : Text) → Preserves P (ingest_row o queue_name g path id)
  unfolding ingest_row Statements.mark_downloaded mark_validated mark_enqueued mark_rejected
  ingest_row-Preserves g path =
      step-Preserves (earthdata_download o.status_text) failed_before_downloaded
        (call o (o.earthdata_download g)) _ (keep.calls (o.earthdata_download g))
        (λ bytes.
          step-Preserves (storage_failure o.status_text upload) failed_before_downloaded
            (call o (o.upload_raw_blob path bytes)) _ (keep.calls (o.upload_raw_blob path bytes))
            (λ _.
              mark-Preserves failed_before_downloaded (query o (Statements.mark_downloaded id)) _
                (keep.success downloaded)
                (λ _.
                  bind-Preserves P
                    (or_return (reject_row o queue_name id raw_validation rejected_after_downloaded)
                      (lift (validate_raw_granule_bytes bytes)))
                    _
                    (or_return-Preserves P
                      (reject_row o queue_name id raw_validation rejected_after_downloaded)
                      (lift (validate_raw_granule_bytes bytes))
                      (λ e w p. keep.failure rejected _ w p) (λ w p. p))
                    (λ _.
                      mark-Preserves failed_after_downloaded (query o (mark_validated id)) _
                        (keep.success validated)
                        (λ _.
                          step-Preserves
                            (database_status_update create_outbox
                              (codes "create_enqueue_outbox_failed"))
                            failed_after_validated
                            (with_id o
                              (create_pending_enqueue_outbox id (codes "ingest_validated")))
                            _ (keep.create (codes "ingest_validated"))
                            (λ outbox_id.
                              step-Preserves processing_message_failure failed_after_validated
                                (lift (processing_message_from_granule id g path)) _ (λ w p. p)
                                (λ message.
                                  step-Preserves (storage_failure o.status_text enqueue)
                                    failed_after_validated
                                    (call o (o.enqueue_processing_message queue_name message)) _
                                    (keep.calls (o.enqueue_processing_message queue_name message))
                                    (λ _.
                                      mark-Preserves failed_after_validated
                                        (query o (mark_enqueued id)) _ (keep.success enqueued)
                                        (λ _.
                                          mark-Preserves failed_after_validated
                                            (query o (mark_outbox_completed outbox_id)) _
                                            (keep.complete outbox_id) (λ _ w p. p))))))))))
