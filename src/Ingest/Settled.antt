-- ===== src/Ingest/Settled.antt =====
-- What becomes of a row that no job takes up again.
use lumen_horizon.Prelude.{ℕ, ◌==◌, Text, true, false, none, ◌≡◌, refl}
use lumen_horizon.Ingest.Tables.{rejected, replay_pending, same_status, IngestRow}
use lumen_horizon.Ingest.World.{
  Outside, World, Keeps, OfTables, query-Preserves, query_ok, with_id, with_id-Preserves,
}
use lumen_horizon.Ingest.Statements.{
  insert_downloading_row, created, set_replay_pending, is_rejected_row, with_id_is, is_recoverable,
  awaits_enqueue, set_status, create_pending_enqueue_outbox, recoverable_raw_rows,
  pending_enqueue_outbox,
}
use lumen_horizon.Ingest.Columns.{find_update}
use lumen_horizon.Ingest.Keeps.{of_tables}
use lumen_horizon.Ingest.JobsKeep.{IngestKeeps}
use lumen_horizon.Ingest.RecoveryKeeps.{
  RecoveryKeeps, run_recovery-Preserves, replay_rejected_granule-Preserves,
}
use lumen_horizon.Ingest.Invariant.{replay-Keeps, IsWellFormed, by_ok}
use lumen_horizon.Ingest.Jobs.{
  Job, Reachable, ingest, recover, replay, elsewhere, initial, next, read-Keeps, reads-Keep,
}
use lumen_horizon.Ingest.RunKeeps.{run_ingest-Preserves}
use lumen_horizon.Ingest.Rows.{
  is_settled, IsIn, Holds, others_keep, create-Holds, insert-Holds, insert_known, settled_cases,
}
use lumen_horizon.Ingest.Taken.{rows_known, records_known, and_false}

module _ {S : Type 0} (o : Outside S) (queue_name : Text) where
  others_recovered :
      (row : IngestRow)
      → is_recoverable row ≡ false
      → awaits_enqueue row ≡ false
      → RecoveryKeeps o (OfTables (Holds row)) (λ id. (row.id == id) ≡ false)
  unfolding recoverable_raw_rows pending_enqueue_outbox
  others_recovered row settled waiting = record {
    steps = λ id other. of_tables o (Holds row) id (others_keep row id other);
    create = λ id reason.
        with_id-Preserves o (Holds row) (create_pending_enqueue_outbox id reason)
          (λ outbox_id. create-Holds row id reason outbox_id);
    calls = λ f w i. i;
    rows_read = query-Preserves o (Holds row) recoverable_raw_rows (read-Keeps (Holds row) _);
    rows_known = λ w rs i e.
        let (now, e') = query_ok o recoverable_raw_rows w rs e in
        rows_known row now w.tables _ rs settled i e';
    records_read = query-Preserves o (Holds row) pending_enqueue_outbox (read-Keeps (Holds row) _);
    records_known = λ w rs i e.
        let (now, e') = query_ok o pending_enqueue_outbox w rs e in
        records_known row now w.tables _ rs waiting i e';
  }

  others_ingested :
      (row : IngestRow) → IngestKeeps o (OfTables (Holds row)) (λ id. (row.id == id) ≡ false)
  unfolding with_id
  others_ingested row = record {
    insert = λ g path.
        with_id-Preserves o (Holds row) (insert_downloading_row g path) (insert-Holds row g path);
    insert_known = λ g path w id i e.
        let (new_id, outer) = o.new_v4 w.outer in
        let (now, e') =
          query_ok o (insert_downloading_row g path new_id)
            (record { tables = w.tables; outer = outer }) (created id) e in
        insert_known row g path new_id id now w.tables _ i.1 e';
    steps = λ id other. of_tables o (Holds row) id (others_keep row id other);
  }

  replay-Holds :
      (row : IngestRow)
      → same_status row.status rejected ≡ false
      → (id : ℕ) → Keeps (Holds row) (set_replay_pending id)
  unfolding set_replay_pending
  replay-Holds row settled id now t t' a (i, h) e = (
    replay-Keeps id now t t' a i e,
    by_ok (λ t. IsIn row t.log) _ a _ t'
        (find_update (with_id_is row.id) (is_rejected_row id) (set_status replay_pending none now)
          row (λ x. refl) (and_false (row.id == id) _ settled) t.log h)
        e,
  )

  job-Holds :
      (row : IngestRow)
      → is_settled row.status ≡ true
      → {w w' : World S} → Job o queue_name w w'
      → Holds row w.tables
      → Holds row w'.tables
  job-Holds row settled (ingest {w} c bounding_box products max_granules fuel) i =
      run_ingest-Preserves o c queue_name bounding_box products max_granules (OfTables (Holds row))
        (others_ingested row) (reads-Keep o (Holds row)) fuel w i
  job-Holds row settled (recover {w}) i =
      let (a, (b, c)) = settled_cases row.status settled in
      run_recovery-Preserves o queue_name (OfTables (Holds row)) (others_recovered row a b) w i
  job-Holds row settled (replay {w} id) i =
      let (a, (b, c)) = settled_cases row.status settled in
      replay_rejected_granule-Preserves o queue_name (OfTables (Holds row))
        (others_recovered row a b)
        (λ id. query-Preserves o (Holds row) (set_replay_pending id) (replay-Holds row c id)) id w i
  job-Holds row settled (elsewhere {w} outer) i = i

  Reachable-Holds :
      (row : IngestRow)
      → is_settled row.status ≡ true
      → {start w : World S} → Reachable o queue_name start w
      → Holds row start.tables
      → Holds row w.tables
  Reachable-Holds row settled initial i = i
  Reachable-Holds row settled (next r job) i =
      job-Holds row settled job (Reachable-Holds row settled r i)

  -- From well-formed tables, a row that is failed or enqueued stays as it is, whatever the jobs do and however their calls end.
  pub Reachable-settled :
      (row : IngestRow) {start w : World S}
      → is_settled row.status ≡ true
      → IsWellFormed start.tables
      → IsIn row start.tables.log
      → Reachable o queue_name start w
      → IsIn row w.tables.log
  Reachable-settled row settled i h r = (Reachable-Holds row settled r (i, h)).1
