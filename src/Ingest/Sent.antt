-- ===== src/Ingest/Sent.antt =====
-- What the pipeline of one row has done when its outcome is `enqueued`.
use lumen_horizon.Prelude.{
  ℕ, Text, codes, Bool, true, false, List, [], ◌∷◌, Result, ok, err, All, ◌≡◌, none, refl, sym, ◌∙◌,
  inl, inr, Bool-cases, Option-cases, ◌==◌, ◌&&◌, any, ok_injective, arith,
}
use mathlib.Core.Path.{subst}
use lumen_horizon.Action.{Action, then_do, lift}
use lumen_horizon.Message.Validate.{ProcessingMessage}
use lumen_horizon.Message.Granule.{GranuleCandidate, processing_message_from_granule}
use lumen_horizon.Ingest.Validation.{validate_raw_granule_bytes}
use lumen_horizon.Ingest.Failures.{
  upload, enqueue, create_outbox, earthdata_download, storage_failure, raw_validation,
  processing_message_failure, database_status_update,
}
use lumen_horizon.Ingest.Tables.{Tables, OutboxRow, completed, enqueued, update_where, find_first}
use lumen_horizon.Ingest.Columns.{any-update_where, any_append_last, find_first-any}
use lumen_horizon.Ingest.World.{Outside, World, query, query_ok, call, with_id}
use lumen_horizon.Ingest.Statements
use lumen_horizon.Ingest.Statements.{
  with_id_is, outbox_id_is, is_pending_for, pending_row, renew, set_status, complete,
  mark_success_status, create_pending_enqueue_outbox, mark_outbox_completed, mark_validated,
  mark_enqueued,
}
use lumen_horizon.Ingest.Summary.{
  GranuleProcessingOutcome, failed_before_downloaded, failed_after_downloaded,
  rejected_after_downloaded, failed_after_validated, outcome_enqueued,
}
use lumen_horizon.Ingest.Pipeline.{handled, outcome_of, ingest_row, fail_row, reject_row, leave}
use lumen_horizon.Ingest.Invariant.{by_ok}

abbrev pub is_enqueued : GranuleProcessingOutcome → Bool
is_enqueued outcome_enqueued = true
is_enqueued _ = false

pub contra : {A : Type 0} → true ≡ false → A
contra h = cc

module _ {S : Type 0} (R : World S → Type 0) where
  -- When the outcome is `enqueued`, `R` holds at the end.
  abbrev pub Tells : Result GranuleProcessingOutcome GranuleProcessingOutcome × World S → Type 0
  Tells r = is_enqueued (outcome_of r).0 ≡ true → R (outcome_of r).1

  -- An early return says something else, so that the action has succeeded.
  pub step-Tells :
      {E A : Type 0} (handler : E → World S → GranuleProcessingOutcome × World S)
      (next : A → Action (World S) GranuleProcessingOutcome GranuleProcessingOutcome)
      → ((e : E) (w : World S) → is_enqueued (handler e w).0 ≡ false)
      → (r : Result E A × World S) → ((a : A) → r.0 ≡ ok a → Tells (next a r.1))
      → Tells (then_do next (handled handler r))
  step-Tells handler next other (err e, w) h k = contra (sym k ∙ other e w)
  step-Tells handler next other (ok a, w) h k = h a refl k

-- The record with this id, of the row
abbrev pub is_record_of : ℕ → ℕ → OutboxRow → Bool
is_record_of id outbox_id r = r.id == outbox_id && r.ingest_id == id

-- The file was downloaded, stored and found valid, the queue has accepted the message of the row,
-- the row is marked enqueued, and the row's record, which is there, is completed.
pub record IsEnqueued {S : Type 0} (o : Outside S) (queue_name : Text) (g : GranuleCandidate ℕ)
    (path : Text) (id : ℕ) (w : World S) : Type 0 where
  pub bytes : List ℕ
  pub fetched : S
  pub stored : S
  pub message : ProcessingMessage ℕ ℕ
  pub sent : S
  pub outbox_id : ℕ
  pub is_downloaded : (o.earthdata_download g fetched).0 ≡ ok bytes
  pub is_stored : (o.upload_raw_blob path bytes stored).0 ≡ ok tt
  pub is_valid : validate_raw_granule_bytes bytes ≡ ok tt
  pub built : processing_message_from_granule id g path ≡ ok message
  pub accepted : (o.enqueue_processing_message queue_name message sent).0 ≡ ok tt
  pub has_record : any (is_record_of id outbox_id) w.tables.outbox ≡ true
  pub rows_marked : All (λ r. with_id_is id r ≡ true → r.status ≡ enqueued) w.tables.log
  pub record_closed :
      All (λ r. outbox_id_is outbox_id r ≡ true → r.status ≡ completed) w.tables.outbox

module _ {A : Type 0} (p : A → Bool) (f : A → A) (P : A → Type 0) (kept : (x : A) → p (f x) ≡ p x)
    (made : (x : A) → P (f x)) where
  -- What an update does to the rows that it is about
  All-updated : (xs : List A) → All (λ x. p x ≡ true → P x) (update_where p f xs)
  All-updated [] = tt
  All-updated (x ∷ xs) = (
    elim (Bool-cases (p x)) [ inl e ↦ rw e (λ _. made x) | inr e ↦ rw e (λ k. contra (sym k ∙ e)) ],
    All-updated xs,
  )

-- The record whose id a creation returns is the row's.
created_record :
    (id : ℕ) (reason : Text) (new_id now outbox_id : ℕ) (t t' : Tables)
    → create_pending_enqueue_outbox id reason new_id now t ≡ ok (outbox_id, t')
    → any (is_record_of id outbox_id) t'.outbox ≡ true
unfolding create_pending_enqueue_outbox
created_record id reason new_id now outbox_id t t' e =
    let There = λ (p : ℕ × Tables). any (is_record_of id p.0) p.1.outbox ≡ true in
    elim (Option-cases (find_first (is_pending_for id) t.outbox)) [
      | inr (r, found) ↦
          subst There (ok_injective (rw (found, create_pending_enqueue_outbox) at e)) (
            any-update_where (is_pending_for id) (renew now reason) (is_record_of id r.id)
              (λ x. refl) t.outbox
            ∙ find_first-any (is_pending_for id) (is_record_of id r.id) t.outbox found
                (λ pending. own_record id r pending))
      | inl fresh ↦ elim (Bool-cases (any (λ r. r.id == new_id) t.outbox)) [
        | inl taken ↦ cc (rw (fresh, taken, create_pending_enqueue_outbox) at e)
        | inr free ↦ elim (Bool-cases (any (with_id_is id) t.log)) [
          | inr missing ↦ cc (rw (fresh, free, missing, create_pending_enqueue_outbox) at e)
          | inl known ↦
              subst There
                (ok_injective (rw (fresh, free, known, create_pending_enqueue_outbox) at e))
                (any_append_last (is_record_of id new_id) t.outbox
                  (pending_row new_id id now reason) (new_record id new_id))
        ]
      ]
    ]
  where
    new_record : (id new_id : ℕ) → (new_id == new_id && id == id) ≡ true
    new_record id new_id = ground arith

    own_record :
        (id : ℕ) (r : OutboxRow) → is_pending_for id r ≡ true → is_record_of id r.id r ≡ true
    own_record id r h = ground arith

module _ {S : Type 0} (o : Outside S) (queue_name : Text) (g : GranuleCandidate ℕ) (path : Text)
    (id : ℕ) where
  marked :
      (bytes : List ℕ) (fetched stored : S) (v v' : Unit {0})
      → (o.earthdata_download g fetched).0 ≡ ok bytes
      → (o.upload_raw_blob path bytes stored).0 ≡ ok v
      → validate_raw_granule_bytes bytes ≡ ok v'
      → (message : ProcessingMessage ℕ ℕ) (outbox_id : ℕ) (sent : S) (w' w'' : World S)
        (u u' u'' : Unit {0})
      → processing_message_from_granule id g path ≡ ok message
      → (o.enqueue_processing_message queue_name message sent).0 ≡ ok u
      → any (is_record_of id outbox_id) w'.tables.outbox ≡ true
      → (query o (mark_enqueued id) w').0 ≡ ok u'
      → w'' ≡ (query o (mark_enqueued id) w').1
      → (query o (mark_outbox_completed outbox_id) w'').0 ≡ ok u''
      → IsEnqueued o queue_name g path id (query o (mark_outbox_completed outbox_id) w'').1
  unfolding mark_enqueued mark_success_status mark_outbox_completed
  marked bytes fetched stored v v' is_downloaded is_stored is_valid message outbox_id sent w' w'' u
        u' u'' built accepted there log_marked same closed =
      let Rows = λ (t : Tables).
        All (λ r. with_id_is id r ≡ true → r.status ≡ enqueued) t.log
        × (any (is_record_of id outbox_id) t.outbox ≡ true) in
      let Both = λ (t : Tables).
        Rows t × All (λ r. outbox_id_is outbox_id r ≡ true → r.status ≡ completed) t.outbox in
      let (now, first) = query_ok o (mark_enqueued id) w' u' log_marked in
      let (now', second) = query_ok o (mark_outbox_completed outbox_id) w'' u'' closed in
      let rows =
        by_ok Rows tt u' _ (query o (mark_enqueued id) w').1.tables
          (
            All-updated (with_id_is id) (set_status enqueued none now) (λ r. r.status ≡ enqueued)
                (λ r. refl) (λ r. refl) w'.tables.log,
            there,
          )
          first in
      let (rows₁, there₁) = subst (λ v. Rows v.tables) (sym same) rows in
      let ((rows', there'), records) =
        by_ok Both tt u'' _ (query o (mark_outbox_completed outbox_id) w'').1.tables
          (
            (
              rows₁,
              any-update_where (outbox_id_is outbox_id) (complete now') (is_record_of id outbox_id)
                    (λ r. refl) w''.tables.outbox
                  ∙ there₁,
            ),
            All-updated (outbox_id_is outbox_id) (complete now') (λ r. r.status ≡ completed)
                (λ r. refl) (λ r. refl) w''.tables.outbox,
          )
          second in
      record {
        bytes = bytes;
        fetched = fetched;
        stored = stored;
        is_downloaded = is_downloaded;
        is_stored = is_stored;
        is_valid = is_valid;
        message = message;
        sent = sent;
        outbox_id = outbox_id;
        built = built;
        accepted = accepted;
        has_record = there';
        rows_marked = rows';
        record_closed = records;
      }

  outbox_created :
      (w : World S) (outbox_id : ℕ)
      → (with_id o (create_pending_enqueue_outbox id (codes "ingest_validated")) w).0 ≡ ok outbox_id
      → any
          (is_record_of id outbox_id)
          (with_id o
            (create_pending_enqueue_outbox id (codes "ingest_validated"))
            w).1.tables.outbox
        ≡ true
  unfolding with_id
  outbox_created w outbox_id h =
      let (new_id, outer) = o.new_v4 w.outer in
      let w' : World S = record { tables = w.tables; outer = outer } in
      let statement = create_pending_enqueue_outbox id (codes "ingest_validated") new_id in
      let (now, e) = query_ok o statement w' outbox_id h in
      created_record id (codes "ingest_validated") new_id now outbox_id w.tables _ e

  pub ingest_row-IsEnqueued :
      (w : World S)
      → is_enqueued (outcome_of (ingest_row o queue_name g path id w)).0 ≡ true
      → IsEnqueued o queue_name g path id (outcome_of (ingest_row o queue_name g path id w)).1
  unfolding ingest_row
  ingest_row-IsEnqueued w =
      let R = IsEnqueued o queue_name g path id in
      step-Tells R
        (fail_row o queue_name id (earthdata_download o.status_text) failed_before_downloaded) _
        (λ e w. refl) (call o (o.earthdata_download g) w)
        (λ bytes is_downloaded.
          step-Tells R
            (fail_row o queue_name id (storage_failure o.status_text upload)
              failed_before_downloaded)
            _ (λ e w. refl) (call o (o.upload_raw_blob path bytes) _)
            (λ v is_stored.
              step-Tells R (leave o queue_name failed_before_downloaded) _ (λ e w. refl)
                (query o (Statements.mark_downloaded id) _)
                (λ _ _.
                  step-Tells R (reject_row o queue_name id raw_validation rejected_after_downloaded)
                    _ (λ e w. refl) (lift (validate_raw_granule_bytes bytes) _)
                    (λ v' is_valid.
                      step-Tells R (leave o queue_name failed_after_downloaded) _ (λ e w. refl)
                        (query o (mark_validated id) _)
                        (λ _ _.
                          step-Tells R
                            (fail_row o queue_name id
                              (database_status_update create_outbox
                                (codes "create_enqueue_outbox_failed"))
                              failed_after_validated)
                            _ (λ e w. refl)
                            (with_id o (create_pending_enqueue_outbox id (codes "ingest_validated"))
                              _)
                            (λ outbox_id new_record.
                              step-Tells R
                                (fail_row o queue_name id processing_message_failure
                                  failed_after_validated)
                                _ (λ e w. refl) (lift (processing_message_from_granule id g path) _)
                                (λ message built.
                                  step-Tells R
                                    (fail_row o queue_name id
                                      (storage_failure o.status_text enqueue)
                                      failed_after_validated)
                                    _ (λ e w. refl)
                                    (call o (o.enqueue_processing_message queue_name message) _)
                                    (λ u accepted.
                                      step-Tells R (leave o queue_name failed_after_validated) _
                                        (λ e w. refl) (query o (mark_enqueued id) _)
                                        (λ u' log_marked.
                                          step-Tells R (leave o queue_name failed_after_validated) _
                                            (λ e w. refl)
                                            (query o (mark_outbox_completed outbox_id) _)
                                            (λ u'' closed k.
                                              marked bytes _ _ v v' is_downloaded is_stored is_valid
                                                message outbox_id _ _ _ u u' u'' built accepted
                                                (outbox_created _ outbox_id new_record) log_marked
                                                refl closed))))))))))
