-- ===== src/Ingest/Jobs.antt =====
-- The jobs of the service on one database, one after the other.
use lumen_horizon.Prelude.{Option, ℕ, Text, List, ok}
use lumen_horizon.Ingest.Tables.{Tables}
use lumen_horizon.Ingest.World.{Outside, World, Keeps, OfTables, query-Preserves, with_id-Preserves}
use lumen_horizon.Ingest.Statements.{
  insert_downloading_row, recoverable_raw_rows, pending_enqueue_outbox, set_replay_pending,
  create_pending_enqueue_outbox,
}
use lumen_horizon.Ingest.Recovery.{run_recovery, replay_rejected_granule}
use lumen_horizon.Ingest.Columns.{All-of}
use lumen_horizon.Discovery.Search.{Catalogue}
use lumen_horizon.Ingest.Run.{get_discovery_resume_points, run_ingest}
use lumen_horizon.Ingest.RunKeeps.{ReadsKeep, run_ingest-Preserves}
use lumen_horizon.Ingest.Keeps.{of_tables}
use lumen_horizon.Ingest.JobsKeep.{IngestKeeps}
use lumen_horizon.Ingest.RecoveryKeeps.{
  RecoveryKeeps, run_recovery-Preserves, replay_rejected_granule-Preserves,
}
use lumen_horizon.Ingest.Invariant.{
  IsWellFormed, insert-Keeps, replay-Keeps, IsWellFormed-kept, by_ok,
}

pub read-Keeps :
    {A : Type 0} (I : Tables → Type 0) (f : Tables → A) → Keeps I (λ now t. ok (f t, t))
read-Keeps I f now t t' a i e = by_ok I (f t) a t t' i e

-- `ingest`, `recover` and `replay-rejected`, from one world to the next. Between two jobs the
-- rest of the world may change in any way.
pub data Job {S : Type 0} (o : Outside S) (queue_name : Text) : World S → World S → Type 0 where
  ingest :
      {w : World S} (c : Catalogue S) (bounding_box : Text) (products : List Text)
      (max_granules : Option ℕ) (fuel : ℕ)
      → Job o queue_name w (run_ingest o c queue_name bounding_box products max_granules fuel w).1
  recover : {w : World S} → Job o queue_name w (run_recovery o queue_name w).1
  replay : {w : World S} (id : ℕ) → Job o queue_name w (replay_rejected_granule o queue_name id w).1
  elsewhere :
      {w : World S} (outer : S) → Job o queue_name w (record { tables = w.tables; outer = outer })

-- What jobs reach from a world
pub data Reachable {S : Type 0} (o : Outside S) (queue_name : Text) (start : World S)
    : World S → Type 0 where
  initial : Reachable o queue_name start start
  next :
      {w w' : World S}
      → Reachable o queue_name start w
      → Job o queue_name w w'
      → Reachable o queue_name start w'

-- What holds of the tables is kept by what reads them only.
pub reads-Keep : {S : Type 0} (o : Outside S) (I : Tables → Type 0) → ReadsKeep o (OfTables I)
unfolding get_discovery_resume_points
reads-Keep o I = record {
  calls = λ f w i. i;
  resume_read =
      λ products. query-Preserves o I (get_discovery_resume_points products) (read-Keeps I _);
}

module _ {S : Type 0} (o : Outside S) (queue_name : Text) where
  ingest_kept : IngestKeeps o (OfTables IsWellFormed) (λ id. Unit)
  ingest_kept = record {
    insert = λ g path.
        with_id-Preserves o IsWellFormed (insert_downloading_row g path) (insert-Keeps g path);
    insert_known = λ g path w id i e. tt;
    steps = λ id _. of_tables o IsWellFormed id (IsWellFormed-kept id);
  }

  recovery_kept : RecoveryKeeps o (OfTables IsWellFormed) (λ id. Unit)
  unfolding recoverable_raw_rows pending_enqueue_outbox
  recovery_kept = record {
    steps = λ id _. of_tables o IsWellFormed id (IsWellFormed-kept id);
    create = λ id reason.
        with_id-Preserves o IsWellFormed (create_pending_enqueue_outbox id reason)
          ((IsWellFormed-kept id).create reason);
    calls = λ f w i. i;
    rows_read = query-Preserves o IsWellFormed recoverable_raw_rows (read-Keeps IsWellFormed _);
    rows_known = λ w rs i e. All-of (λ r. tt) rs;
    records_read =
        query-Preserves o IsWellFormed pending_enqueue_outbox (read-Keeps IsWellFormed _);
    records_known = λ w rs i e. All-of (λ r. tt) rs;
  }

  job-IsWellFormed :
      {w w' : World S} → Job o queue_name w w' → IsWellFormed w.tables → IsWellFormed w'.tables
  job-IsWellFormed (ingest {w} c bounding_box products max_granules fuel) i =
      run_ingest-Preserves o c queue_name bounding_box products max_granules (OfTables IsWellFormed)
        ingest_kept (reads-Keep o IsWellFormed) fuel w i
  job-IsWellFormed (recover {w}) i =
      run_recovery-Preserves o queue_name (OfTables IsWellFormed) recovery_kept w i
  job-IsWellFormed (replay {w} id) i =
      replay_rejected_granule-Preserves o queue_name (OfTables IsWellFormed) recovery_kept
        (λ id. query-Preserves o IsWellFormed (set_replay_pending id) (replay-Keeps id)) id w i
  job-IsWellFormed (elsewhere {w} outer) i = i

  -- However the calls of the jobs end, and whatever happens in between, the tables stay well-formed.
  pub Reachable-IsWellFormed :
      {start w : World S}
      → Reachable o queue_name start w
      → IsWellFormed start.tables
      → IsWellFormed w.tables
  Reachable-IsWellFormed initial i = i
  Reachable-IsWellFormed (next r job) i = job-IsWellFormed job (Reachable-IsWellFormed r i)
