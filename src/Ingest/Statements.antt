-- ===== src/Ingest/Statements.antt =====
-- The SQL statements of the jobs, as functions on the tables.
use lumen_horizon.Prelude.{
  ℕ, ◌+◌, ◌==◌, leb, Text, codes, Bool, ◌&&◌, ◌||◌, not, any, List, [], ◌∷◌, ◌++◌, Option, none,
  some, if◌then◌else◌, ok, err,
}
use lumen_horizon.Prelude.Int.{ℤ, pos, pos_part, neg_part}
use lumen_horizon.Text.{text_eq}
use lumen_horizon.Message.Granule.{GranuleCandidate}
use lumen_horizon.Ingest.Tables.{
  IngestStatus, downloading, downloaded, validated, enqueued, rejected, failed, recovery_pending,
  replay_pending, same_status, pending, completed, given_up, is_pending, IngestRow, OutboxRow,
  update_where, select_where, find_first, order_by, take,
}
use lumen_horizon.Ingest.World.{Statement}

abbrev pub same_ℤ : ℤ → ℤ → Bool
same_ℤ a b = pos_part a == pos_part b && neg_part a == neg_part b

-- The columns of `uq_ingest_log_product_tile_date`
abbrev pub same_key : IngestRow → IngestRow → Bool
same_key a b =
    text_eq a.product b.product
    && same_ℤ a.tile_h b.tile_h
    && same_ℤ a.tile_v b.tile_v
    && a.granule_date == b.granule_date

pub data InsertDownloadingRowOutcome : Type 0 where
  created : ℕ → InsertDownloadingRowOutcome
  already_exists : InsertDownloadingRowOutcome

abbrev pub downloading_row : ℕ → ℕ → GranuleCandidate ℕ → Text → IngestRow
downloading_row id now g path = record {
  id = id;
  product = g.product;
  granule_title = g.title;
  blob_path = path;
  tile_h = pos g.tile.h;
  tile_v = pos g.tile.v;
  granule_date = g.granule_date;
  status = downloading;
  error_message = none;
  created_at = now;
  updated_at = now;
}

-- The log has a row with the key of the granule.
abbrev pub has_granule : GranuleCandidate ℕ → List IngestRow → Bool
has_granule g log =
    any
      (λ r.
        text_eq g.product r.product
        && same_ℤ (pos g.tile.h) r.tile_h
        && same_ℤ (pos g.tile.v) r.tile_v
        && g.granule_date == r.granule_date)
      log

abbrev pub duplicate_key : Text
duplicate_key = codes "duplicate key value violates unique constraint"

-- `ON CONFLICT ON CONSTRAINT uq_ingest_log_product_tile_date DO NOTHING`; an id that is taken is an error.
unfoldable pub insert_downloading_row :
    GranuleCandidate ℕ → Text → ℕ → Statement InsertDownloadingRowOutcome
insert_downloading_row g path id now t =
    let row = downloading_row id now g path in
    if any (same_key row) t.log
    then ok (already_exists, t)
    else if any (λ r. r.id == id) t.log
    then err duplicate_key
    else ok (created id, record t { log = t.log ++ row ∷ [] })

abbrev pub set_status : IngestStatus → Option Text → ℕ → IngestRow → IngestRow
set_status status message now r = record r {
  status = status;
  error_message = message;
  updated_at = now;
}

abbrev pub with_id_is : ℕ → IngestRow → Bool
with_id_is id r = r.id == id

unfoldable pub mark_success_status : ℕ → IngestStatus → Statement (Unit {0})
mark_success_status id status now t =
    ok (tt, record t { log = update_where (with_id_is id) (set_status status none now) t.log })

unfoldable pub truncate_error_message : Text → Text
truncate_error_message message = take 1000 message

unfoldable pub mark_failed_status : ℕ → IngestStatus → Text → Statement (Unit {0})
unfolding truncate_error_message
mark_failed_status id status message now t = ok (
  tt,
  record t {
    log =
        update_where (with_id_is id) (set_status status (some (truncate_error_message message)) now)
          t.log;
  },
)

unfoldable pub mark_downloaded : ℕ → Statement (Unit {0})
unfolding mark_success_status
mark_downloaded id = mark_success_status id downloaded

unfoldable pub mark_validated : ℕ → Statement (Unit {0})
unfolding mark_success_status
mark_validated id = mark_success_status id validated

unfoldable pub mark_recovery_pending : ℕ → Statement (Unit {0})
unfolding mark_success_status
mark_recovery_pending id = mark_success_status id recovery_pending

unfoldable pub mark_enqueued : ℕ → Statement (Unit {0})
unfolding mark_success_status
mark_enqueued id = mark_success_status id enqueued

unfoldable pub mark_failed : ℕ → Text → Statement (Unit {0})
unfolding mark_failed_status
mark_failed id message = mark_failed_status id failed message

unfoldable pub mark_rejected : ℕ → Text → Statement (Unit {0})
unfolding mark_failed_status
mark_rejected id message = mark_failed_status id rejected message

abbrev pub is_recoverable : IngestRow → Bool
is_recoverable r =
    same_status r.status downloading
    || same_status r.status downloaded
    || same_status r.status recovery_pending

unfoldable pub recoverable_raw_rows : Statement (List IngestRow)
recoverable_raw_rows now t = ok (
  take 100 (
      order_by (λ r. r.updated_at)
        (order_by (λ r. r.created_at) (select_where is_recoverable t.log))),
  t,
)

-- The pending record of a row
abbrev pub is_pending_for : ℕ → OutboxRow → Bool
is_pending_for ingest_id r = is_pending r.status && r.ingest_id == ingest_id

abbrev pub pending_row : ℕ → ℕ → ℕ → Text → OutboxRow
pending_row id ingest_id now reason = record {
  id = id;
  ingest_id = ingest_id;
  status = pending;
  reason = reason;
  attempts = 0;
  error_message = none;
  created_at = now;
  updated_at = now;
  completed_at = none;
}

abbrev pub renew : ℕ → Text → OutboxRow → OutboxRow
renew now reason r = record r { reason = reason; updated_at = now; error_message = none }

-- `ON CONFLICT (ingest_id, operation) WHERE status = 'pending' DO UPDATE`; the row of `ingest_log` must exist.
unfoldable pub create_pending_enqueue_outbox : ℕ → Text → ℕ → Statement ℕ
create_pending_enqueue_outbox ingest_id reason id now t =
    elim (find_first (is_pending_for ingest_id) t.outbox) [
      | some r ↦ ok (
        r.id,
        record t { outbox = update_where (is_pending_for ingest_id) (renew now reason) t.outbox },
      )
      | none ↦
          if any (λ r. r.id == id) t.outbox
          then err duplicate_key
          else if not (any (with_id_is ingest_id) t.log)
          then err (codes "insert violates foreign key constraint")
          else ok (id, record t { outbox = t.outbox ++ pending_row id ingest_id now reason ∷ [] })
    ]

pub record PendingOutboxRecord : Type 0 where
  pub id : ℕ
  pub ingest_id : ℕ
  pub product : Text
  pub blob_path : Text
  pub granule_date : ℕ
  pub tile_h : ℤ
  pub tile_v : ℤ
  pub outbox_created_at : ℕ

abbrev pub awaits_enqueue : IngestRow → Bool
awaits_enqueue r = same_status r.status validated || same_status r.status replay_pending

abbrev pub joined : OutboxRow → IngestRow → PendingOutboxRecord
joined b r = record {
  id = b.id;
  ingest_id = r.id;
  product = r.product;
  blob_path = r.blob_path;
  granule_date = r.granule_date;
  tile_h = r.tile_h;
  tile_v = r.tile_v;
  outbox_created_at = b.created_at;
}

abbrev pub join_row : OutboxRow → List IngestRow → List PendingOutboxRecord
join_row b [] = []
join_row b (r ∷ rs) =
    let rest = join_row b rs in
    if r.id == b.ingest_id && awaits_enqueue r then joined b r ∷ rest else rest

abbrev pub join_rows : List OutboxRow → List IngestRow → List PendingOutboxRecord
join_rows [] rows = []
join_rows (b ∷ bs) rows =
    let rest = join_rows bs rows in if is_pending b.status then join_row b rows ++ rest else rest

unfoldable pub pending_enqueue_outbox : Statement (List PendingOutboxRecord)
pending_enqueue_outbox now t =
    ok (take 100 (order_by (λ r. r.outbox_created_at) (join_rows t.outbox t.log)), t)

abbrev pub outbox_id_is : ℕ → OutboxRow → Bool
outbox_id_is id r = r.id == id

abbrev pub complete : ℕ → OutboxRow → OutboxRow
complete now r = record r {
  status = completed;
  error_message = none;
  completed_at = some now;
  updated_at = now;
}

unfoldable pub mark_outbox_completed : ℕ → Statement (Unit {0})
mark_outbox_completed id now t =
    ok (tt, record t { outbox = update_where (outbox_id_is id) (complete now) t.outbox })

-- `OUTBOX_MAX_ATTEMPTS`
abbrev pub outbox_max_attempts : ℕ
outbox_max_attempts = 3

abbrev pub count_failure : ℕ → Text → OutboxRow → OutboxRow
count_failure now message r =
    let last = leb outbox_max_attempts (r.attempts + 1) in
    record r {
      attempts = r.attempts + 1;
      status = (if last then given_up else r.status);
      error_message = some message;
      completed_at = (if last then some now else r.completed_at);
      updated_at = now;
    }

unfoldable pub mark_outbox_failed : ℕ → Text → Statement (Unit {0})
unfolding truncate_error_message
mark_outbox_failed id message now t = ok (
  tt,
  record t {
    outbox =
        update_where (outbox_id_is id) (count_failure now (truncate_error_message message))
          t.outbox;
  },
)

abbrev pub is_rejected_row : ℕ → IngestRow → Bool
is_rejected_row id r = r.id == id && same_status r.status rejected

-- The first statement of `replay_rejected`: whether a row was updated
unfoldable pub set_replay_pending : ℕ → Statement Bool
set_replay_pending id now t = ok (
  any (is_rejected_row id) t.log,
  record t { log = update_where (is_rejected_row id) (set_status replay_pending none now) t.log },
)
