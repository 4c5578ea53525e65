-- ===== src/Ingest/Enqueued.antt =====
-- What the outcome `enqueued` of a granule says.
use lumen_horizon.Prelude.{
  ℕ, ==_iff, Text, true, any, Result, ok, err, ◌≡◌, none, some, refl, sym, ap, ◌∙◌, inl, inr,
}
use mathlib.Core.Path.{subst}
use lumen_horizon.Action.{then_do}
use lumen_horizon.Message.Granule.{GranuleCandidate, raw_blob_path}
use lumen_horizon.Ingest.Tables.{Tables}
use lumen_horizon.Ingest.World.{Outside, World, query, query_ok, with_id, OfTables}
use lumen_horizon.Ingest.Statements.{
  InsertDownloadingRowOutcome, created, already_exists, downloading_row, with_id_is, set_status,
  mark_success_status, mark_failed_status, mark_outbox_completed, mark_outbox_failed,
  insert_downloading_row,
}
use lumen_horizon.Ingest.Summary.{skipped, outcome_enqueued}
use lumen_horizon.Ingest.Pipeline.{
  process_granule, process_granule_inner, insert_or_skip, created_or_skipped, handled, outcome_of,
  ingest_row, leave,
}
use lumen_horizon.Ingest.Invariant.{by_ok}
use lumen_horizon.Ingest.Keeps.{StatementsKeep, of_tables, ingest_row-Preserves}
use lumen_horizon.Ingest.Rows.{create_log, insert_cases}
use lumen_horizon.Ingest.Columns.{any-update_where, any_append_last}
use lumen_horizon.Ingest.Sent.{is_enqueued, contra, Tells, IsEnqueued, ingest_row-IsEnqueued}

-- A row of the log stays in it.
stays : (id : ℕ) → StatementsKeep (λ t. any (with_id_is id) t.log ≡ true) id
unfolding mark_success_status mark_failed_status mark_outbox_completed mark_outbox_failed
stays id =
    let I = λ (t : Tables). any (with_id_is id) t.log ≡ true in
    record {
      success = λ status now t t' a h e.
          by_ok I tt a _ t'
            (any-update_where (with_id_is id) (set_status status none now) (with_id_is id)
                (λ r. refl) t.log
              ∙ h)
            e;
      failure = λ status message now t t' a h e.
          by_ok I tt a _ t'
            (any-update_where (with_id_is id) (set_status status (some _) now) (with_id_is id)
                (λ r. refl) t.log
              ∙ h)
            e;
      create = λ reason outbox_id now t t' a h e.
          ap (any (with_id_is id)) (create_log id reason outbox_id now t t' a e) ∙ h;
      complete = λ outbox_id now t t' a h e. by_ok I tt a _ t' h e;
      count = λ outbox_id message now t t' a h e. by_ok I tt a _ t' h e;
    }

outcome_of-IsIn :
    {S O : Type 0} (id : ℕ) (r : Result O O × World S)
    → any (with_id_is id) r.1.tables.log ≡ true
    → any (with_id_is id) (outcome_of r).1.tables.log ≡ true
outcome_of-IsIn id (ok a, w) p = p
outcome_of-IsIn id (err e, w) p = p

module _ {S : Type 0} (o : Outside S) (queue_name : Text) (g : GranuleCandidate ℕ) where
  -- At the end: a row of the log that is enqueued
  abbrev pub EndsEnqueued : World S → Type 0
  EndsEnqueued w =
      (id : ℕ) × (IsEnqueued o queue_name g (raw_blob_path o.date_text g) id w
        × (any (with_id_is id) w.tables.log ≡ true))

  after_insert-Tells :
      (r : Result Text InsertDownloadingRowOutcome × World S)
      → ((id : ℕ) → r.0 ≡ ok (created id) → any (with_id_is id) r.1.tables.log ≡ true)
      → Tells EndsEnqueued (
          then_do
            (ingest_row o queue_name g (raw_blob_path o.date_text g))
            (then_do (created_or_skipped o queue_name) (handled (leave o queue_name skipped) r)))
  unfolding created_or_skipped
  after_insert-Tells (err e, w) h k = contra (sym k)
  after_insert-Tells (ok already_exists, w) h k = contra (sym k)
  after_insert-Tells (ok (created id), w) h k =
      let path = raw_blob_path o.date_text g in
      (
        id,
        (
          ingest_row-IsEnqueued o queue_name g path id w k,
          outcome_of-IsIn id (ingest_row o queue_name g path id w) (
              ingest_row-Preserves o queue_name (OfTables (λ t. any (with_id_is id) t.log ≡ true))
                id (of_tables o (λ t. any (with_id_is id) t.log ≡ true) id (stays id)) g path w
                (h id refl)),
        ),
      )

  new_row_is_in :
      (id now new_id : ℕ) (t t' : Tables)
      → insert_downloading_row g (raw_blob_path o.date_text g) id now t ≡ ok (created new_id, t')
      → any (with_id_is new_id) t'.log ≡ true
  new_row_is_in id now new_id t t' e =
      elim (insert_cases g (raw_blob_path o.date_text g) id now t t' (created new_id) e) [
        | inl (other, _) ↦ cc
        | inr (_, (same_id, same)) ↦
            subst (λ u. any (with_id_is new_id) u.log ≡ true) same
              (any_append_last (with_id_is new_id) t.log
                (downloading_row id now g (raw_blob_path o.date_text g))
                ((==_iff id new_id).1
                  (ap (λ i. elim i [ created n ↦ n | already_exists ↦ id ]) same_id)))
      ]

  -- When the outcome of a granule is `enqueued`, its file was downloaded, stored at its raw path and
  -- found valid, the queue has accepted the message built for a row's id, that row is in the log and
  -- enqueued, and an outbox record of that row is there and completed, as are all with its id.
  pub process_granule-enqueued :
      (w : World S)
      → (process_granule o queue_name g w).0 ≡ outcome_enqueued
      → EndsEnqueued (process_granule o queue_name g w).1
  unfolding process_granule process_granule_inner insert_or_skip with_id
  process_granule-enqueued w k =
      let path = raw_blob_path o.date_text g in
      let (id, outer) = o.new_v4 w.outer in
      let w' : World S = record { tables = w.tables; outer = outer } in
      after_insert-Tells (query o (insert_downloading_row g path id) w')
        (λ new_id e.
          let (now, e') = query_ok o (insert_downloading_row g path id) w' (created new_id) e in
          new_row_is_in id now new_id w.tables _ e')
        (ap is_enqueued k)
