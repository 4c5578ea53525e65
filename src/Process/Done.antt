-- ===== src/Process/Done.antt =====
-- What the processing of a message leaves, on every branch.
use lumen_horizon.Prelude.{
  ℕ, List, Text, Option, none, some, Result, ok, err, ◌≡◌, inl, inr, refl, ◌∙◌, ok_injective,
}
use mathlib.Core.Path.{subst}
use lumen_horizon.Float.{Floating}
use lumen_horizon.Action.{lift, ◌>>=◌, ◌>>◌}
use lumen_horizon.Message.Validate.{ProcessingMessage, product_kind}
use lumen_horizon.Science.Mapping.{DatasetMapping, dataset_mapping_for_product}
use lumen_horizon.Science.Summary.{cloud_rejection_reason}
use lumen_horizon.Publish.Types.{Outside}
use lumen_horizon.Publish.Types as Publish
use lumen_horizon.Publish.Triple.{Outcome, Triple, bind-Triple, lift-Triple, weaken}
use lumen_horizon.Generate.Types.{map_error}
use lumen_horizon.Generate.Manifest.{ManifestFields}
use lumen_horizon.Process.Log.{
  LogRow, rejected, QualityMetadata, of_id, with_metadata, update_processing_log,
  update_processing_metadata, mark_processing_rejected,
}
use lumen_horizon.Process.Log as Log
use lumen_horizon.Process.Types.{
  ServiceError, hdf_error, message_error, storage, Config, Tools, World,
}
use lumen_horizon.Process.Gate.{
  Process, call, execute, start_processing, check_shapes, sample_quality,
}
use lumen_horizon.Process.Message.{
  publish_granule, reject_granule, rejected_or, process_parsed_message,
  process_parsed_message_with_workspace, cleaned,
}
use lumen_horizon.Process.Quiet.{check_shapes-Quiet, sample_quality-Quiet}
use lumen_horizon.Process.Rows.{Ends, updated-any, updated-Ends}
use lumen_horizon.Process.Started.{
  HasRow, IsAttempt, Both, execute-Triple, call-Triple, start_processing-Triple,
}
use lumen_horizon.Process.Accepted.{
  IsSafe, IsDone, attempt_now, Untouched, Started, Untouched-IsSafe, Quiet-Triple,
  publish_granule-Triple,
}

module _ (F : Floating) {T S : Type 0} (tools : Tools F T) (o : Outside S (ManifestFields F))
    (config : Config F) (m : ProcessingMessage ℕ ℕ) (tiles : Publish.World S)
    (log : List (LogRow F)) where
  reject_granule-Triple :
      (reason : Text)
      → Triple
          (IsSafe F tools o config m tiles log)
          (Started F tools o config m tiles log)
          (reject_granule F tools o m reason)
          (λ u. (IsDone F tools o config m tiles log))
  unfolding reject_granule mark_processing_rejected
  reject_granule-Triple reason w s =
      let Ended = Ends F m.ingest_id (λ row. (row.status ≡ rejected)) in
      weaken (IsSafe F tools o config m tiles log)
        (λ u.
          Both F tools o (IsSafe F tools o config m tiles log)
            (Untouched F tools o config m tiles log) (Untouched-IsSafe F tools o config m tiles log)
            Ended)
        (λ u. (IsDone F tools o config m tiles log)) (λ u w done. inl done) _
        (execute-Triple F tools o (IsSafe F tools o config m tiles log)
          (Untouched F tools o config m tiles log) (Untouched-IsSafe F tools o config m tiles log)
          (HasRow F m.ingest_id) (λ u. Ended) update_processing_log
          (mark_processing_rejected F m.ingest_id reason)
          (λ u rows rows' there e.
            subst (λ p. Ended p.1) (ok_injective e)
              (updated-Ends F m.ingest_id (Log.ended F rejected reason) _ (λ row. refl)
                (λ row. refl) rows there))
          w s)

  branch-Triple :
      (reason : Option Text) (reject : Text → Process F tools o (Unit {0}))
      (accept : Process F tools o (Unit {0}))
      → ((r : Text)
          → Triple
              (IsSafe F tools o config m tiles log)
              (Started F tools o config m tiles log)
              (reject r)
              (λ u. (IsDone F tools o config m tiles log)))
      → Triple
          (IsSafe F tools o config m tiles log)
          (Started F tools o config m tiles log)
          accept
          (λ u. (IsDone F tools o config m tiles log))
      → Triple
          (IsSafe F tools o config m tiles log)
          (Started F tools o config m tiles log)
          (rejected_or F tools o reason reject accept)
          (λ u. (IsDone F tools o config m tiles log))
  branch-Triple none reject accept r a = a
  branch-Triple (some reason) reject accept r a = r reason

  called-Triple :
      {A : Type 0} (f : Text → ServiceError F) (action : T → Result Text A × T)
      → Triple
          (IsSafe F tools o config m tiles log)
          (Started F tools o config m tiles log)
          (call F tools o f action)
          (λ a. (Started F tools o config m tiles log))
  called-Triple f action =
      call-Triple F tools o (IsSafe F tools o config m tiles log)
        (Untouched F tools o config m tiles log) (Untouched-IsSafe F tools o config m tiles log) f
        (HasRow F m.ingest_id) action

  metadata-Triple :
      (id : ℕ) (metadata : QualityMetadata F)
      → Triple
          (IsSafe F tools o config m tiles log)
          (Started F tools o config m tiles log)
          (execute F tools o update_processing_log (update_processing_metadata F id metadata))
          (λ u. (Started F tools o config m tiles log))
  unfolding update_processing_metadata
  metadata-Triple id metadata =
      execute-Triple F tools o (IsSafe F tools o config m tiles log)
        (Untouched F tools o config m tiles log) (Untouched-IsSafe F tools o config m tiles log)
        (HasRow F m.ingest_id) (λ u. HasRow F m.ingest_id) update_processing_log
        (update_processing_metadata F id metadata)
        (λ u rows rows' there e.
          subst (λ p. HasRow F m.ingest_id p.1) (ok_injective e)
            (updated-any F m.ingest_id (of_id F id) (with_metadata F metadata) (λ row. refl) rows
              ∙ there))

  -- One step, where what has started stays so
  step :
      {A B : Type 0} (first : Process F tools o A) (next : A → Process F tools o B)
      (Q : B → World F T S → Type 0)
      → Triple
          (IsSafe F tools o config m tiles log)
          (Started F tools o config m tiles log)
          first
          (λ a. (Started F tools o config m tiles log))
      → ((a : A)
          → Triple
              (IsSafe F tools o config m tiles log)
              (Started F tools o config m tiles log)
              (next a)
              Q)
      → Triple
          (IsSafe F tools o config m tiles log)
          (Started F tools o config m tiles log)
          (first >>= next)
          Q
  step first next Q f h =
      bind-Triple (IsSafe F tools o config m tiles log)
        (λ a. (Started F tools o config m tiles log)) Q (Started F tools o config m tiles log) first
        next f h

  workspace-Triple :
      Triple
        (IsSafe F tools o config m tiles log)
        (λ w. (Untouched F tools o config m tiles log) w.tiles × (w.log ≡ log))
        (process_parsed_message_with_workspace F tools o config m)
        (λ u. (IsDone F tools o config m tiles log))
  unfolding process_parsed_message_with_workspace
  workspace-Triple =
      let Done = λ (u : Unit {0}). (IsDone F tools o config m tiles log) in
      let Numbered = λ (a : ℕ × ℕ) (w : World F T S).
        Untouched F tools o config m tiles log w.tiles × IsAttempt F m.ingest_id log a.1 w.log in
      bind-Triple (IsSafe F tools o config m tiles log) Numbered Done
        (λ w. (Untouched F tools o config m tiles log) w.tiles × (w.log ≡ log))
        (start_processing F tools o m) _
        (start_processing-Triple F tools o (IsSafe F tools o config m tiles log)
          (Untouched F tools o config m tiles log) (Untouched-IsSafe F tools o config m tiles log) m
          log)
        (λ (id, attempts) w (u, (h, same)).
          step (lift (map_error message_error (product_kind m))) _ Done
            (lift-Triple (IsSafe F tools o config m tiles log)
              (Started F tools o config m tiles log) _
              (λ w (u, _). (Untouched-IsSafe F tools o config m tiles log) w u)
              (λ a. (Started F tools o config m tiles log)) (λ a w e s. s))
            (λ product.
              let mapping = dataset_mapping_for_product F product in
              step (call F tools o hdf_error tools.verify_gdalinfo_available) _ Done
                (called-Triple hdf_error tools.verify_gdalinfo_available)
                (λ u.
                  step (call F tools o storage tools.create_dir_all) _ Done
                    (called-Triple storage tools.create_dir_all)
                    (λ u.
                      step (call F tools o storage tools.new_blob_client) _ Done
                        (called-Triple storage tools.new_blob_client)
                        (λ u.
                          step
                            (call F tools o storage (tools.download_raw_blob_to_path m.blob_path)) _
                            Done
                            (called-Triple storage (tools.download_raw_blob_to_path m.blob_path))
                            (λ u. gate id attempts same mapping)))))
            w (u, h))
    where
      gate :
          (id attempts : ℕ)
          → attempts ≡ attempt_now F tools o config m tiles log
          → (mapping : DatasetMapping F)
          → Triple
              (IsSafe F tools o config m tiles log)
              (Started F tools o config m tiles log)
              (do
                shape ← check_shapes F tools o mapping
                metadata ← sample_quality F tools o config mapping
                execute F tools o update_processing_log (update_processing_metadata F id metadata)
                rejected_or F tools o
                    (cloud_rejection_reason F metadata.quality_summary config.max_cloud_fraction)
                    (reject_granule F tools o m)
                    (publish_granule F tools o config mapping m attempts shape))
              (λ u. (IsDone F tools o config m tiles log))
      gate id attempts same mapping =
          let Done = λ (u : Unit {0}). (IsDone F tools o config m tiles log) in
          step (check_shapes F tools o mapping) _ Done
            ((Quiet-Triple F tools o config m tiles log) (check_shapes F tools o mapping)
              (λ log t. check_shapes-Quiet F tools o log t mapping))
            (λ shape.
              step (sample_quality F tools o config mapping) _ Done
                ((Quiet-Triple F tools o config m tiles log)
                  (sample_quality F tools o config mapping)
                  (λ log t. sample_quality-Quiet F tools o log t config mapping))
                (λ metadata.
                  step
                    (execute F tools o update_processing_log
                      (update_processing_metadata F id metadata))
                    _ Done (metadata-Triple id metadata)
                    (λ u.
                      branch-Triple
                        (cloud_rejection_reason F metadata.quality_summary
                          config.max_cloud_fraction)
                        (reject_granule F tools o m)
                        (publish_granule F tools o config mapping m attempts shape)
                        reject_granule-Triple
                        ((publish_granule-Triple F tools o config m tiles log) mapping attempts
                          shape same))))

  cleaned-Outcome :
      (r : Result (ServiceError F) (Unit {0}) × World F T S)
      → Outcome (IsSafe F tools o config m tiles log) (λ u. (IsDone F tools o config m tiles log)) r
      → Outcome
          (IsSafe F tools o config m tiles log)
          (λ u. (IsDone F tools o config m tiles log))
          (cleaned F tools o r)
  cleaned-Outcome (ok u, w) (inl d) = inl d
  cleaned-Outcome (ok u, w) (inr d) = inr d
  cleaned-Outcome (err e, w) (inl s) = inl s
  cleaned-Outcome (err e, w) (inr s) = inr s

-- A message that is processed leaves either a rejected row and no change to what is published, or a
-- processed row that names the complete tile set of this attempt: that of the message's VIIRS tile,
-- clipped to the configured bounds, under the id of the next attempt by the log before. Its tiles' bytes,
-- its manifest's text and its only latest row are in place, and the pointer's blob is the JSON text of
-- a pointer to it. A processing that fails leaves the pointer's
-- blob as it was, or also such a set with everything in place.
pub process_parsed_message-IsDone :
    (F : Floating) {T S : Type 0} (tools : Tools F T) (o : Outside S (ManifestFields F))
    (config : Config F) (m : ProcessingMessage ℕ ℕ) (w : World F T S)
    → Outcome
        (IsSafe F tools o config m w.tiles w.log)
        (λ u. IsDone F tools o config m w.tiles w.log)
        (process_parsed_message F tools o config m w)
unfolding process_parsed_message
process_parsed_message-IsDone F tools o config m w =
    cleaned-Outcome F tools o config m w.tiles w.log
      (process_parsed_message_with_workspace F tools o config m w)
      (workspace-Triple F tools o config m w.tiles w.log w (refl, refl))
