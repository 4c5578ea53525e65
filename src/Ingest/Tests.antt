-- ===== src/Ingest/Tests.antt =====
-- A world whose clock counts the calls, two granules, and the witnesses.
use lumen_horizon.Prelude.{
  none, some, ℕ, suc, ◌==◌, codes, true, [], ◌∷◌, Result, ok, err, if◌then◌else◌, ◌≡◌, ◌↔◌, ◌≢◌,
  ◌%◌, refl,
}
use lumen_horizon.Text.Decimal.{decimal}
use lumen_horizon.Message.Granule.{GranuleCandidate, raw_blob_path}
use lumen_horizon.Ingest.Validation.{hdf5_magic, validate_raw_granule_bytes}
use lumen_horizon.Ingest.Failures.{classify_http_status, classify_http_status_iff, queue_status}
use lumen_horizon.Ingest.Tables.{IngestRow, failed}
use lumen_horizon.Ingest.World.{Outside, World, Fate, applied, answer_lost}
use lumen_horizon.Ingest.Statements.{downloading_row}
use lumen_horizon.Ingest.Summary.{IngestSummary, skipped, outcome_enqueued}
use lumen_horizon.Ingest.Pipeline.{process_granule}
use lumen_horizon.Ingest.Recovery.{run_recovery, replay_rejected_granule}
use lumen_horizon.Ingest.Invariant.{IsWellFormed, empty-IsWellFormed}
use lumen_horizon.Discovery.Entry.{CmrEntry}
use lumen_horizon.Discovery.Search.{Catalogue}
use lumen_horizon.Ingest.Run.{run_ingest}
use lumen_horizon.Ingest.RunCounts.{IsCounted, run_ingest-IsCounted}
use lumen_horizon.Ingest.Jobs.{
  Reachable, ingest, recover, replay, initial, next, Reachable-IsWellFormed,
}
use lumen_horizon.Ingest.Rows.{IsIn}
use lumen_horizon.Ingest.Settled.{Reachable-settled}
use lumen_horizon.Ingest.Outcomes.{process_granule-existing}
use lumen_horizon.Ingest.Enqueued.{EndsEnqueued, process_granule-enqueued}
use lumen_horizon.Retry.Send.{is_retryable_status}

-- Every call takes one tick; the answer to a statement at a tick divisible by 7 is lost.
abbrev fate_at : ℕ → Fate
fate_at t = if t % 7 == 0 then answer_lost (codes "connection reset") else applied

abbrev ticking : {E A : Type 0} → A → ℕ → Result E A × ℕ
ticking a t = (ok a, suc t)

abbrev outside : (ℕ → Fate) → Outside ℕ
outside fate = record {
  database = λ t. (fate t, suc t);
  now = λ t. t;
  new_v4 = λ t. (t, suc t);
  new_blob_client = ticking tt;
  new_queue_client = ticking tt;
  new_earthdata_client = ticking tt;
  earthdata_download = λ g. ticking hdf5_magic;
  upload_raw_blob = λ path bytes. ticking tt;
  download_raw_blob = λ path. ticking hdf5_magic;
  enqueue_processing_message = λ queue message t.
      if t % 5 == 0 then (err (queue_status queue 503 []), suc t) else ticking tt t;
  date_text = λ d. decimal d;
  status_text = λ s. decimal s;
  message_error_text = λ e. codes "error";
}

abbrev flaky : Outside ℕ
flaky = outside fate_at

abbrev steady : Outside ℕ
steady = outside (λ t. applied)

abbrev granule : ℕ → GranuleCandidate ℕ
granule d = record {
  product = codes "VNP46A2";
  title = codes "t";
  producer_granule_id = codes "g.h18v04.h5";
  data_href = codes "u";
  granule_date = d;
  tile = record { h = 18; v = 4 };
}

abbrev empty : World ℕ
empty = record { tables = record { log = []; outbox = [] }; outer = 1 }

abbrev failed_row : IngestRow
failed_row = record (downloading_row 0 0 (granule 9) (codes "VNP46A2/9/g.h18v04.h5")) {
  status = failed;
}

abbrev with_failure : World ℕ
with_failure = record { tables = record { log = failed_row ∷ []; outbox = [] }; outer = 1 }

one_row-IsWellFormed : IsWellFormed with_failure.tables
one_row-IsWellFormed = record {
  log_ids = (refl, tt);
  keys = (refl, tt);
  record_ids = tt;
  one_pending = tt;
  attempts_left = tt;
  rows_exist = tt;
}

-- A catalogue that finds one entry
abbrev entry : CmrEntry
entry = record {
  title = codes "t";
  producer_granule_id = some (codes "g.h18v04.h5");
  time_start = codes "x";
  links =
      record { href = codes "u.h5"; rel = some (codes "http://esipfed.org/ns/fedsearch/1.1/data#") }
      ∷ [];
}

abbrev catalogue : Catalogue ℕ
catalogue = record {
  request_page = λ product query s. (ok (entry ∷ []), suc s);
  new_client = λ s. (ok tt, suc s);
  parse_time = λ s. some 9;
  time_text = λ t. decimal t;
}

-- An ingest, a recovery and a replay, where some answers are lost
abbrev after_run : World ℕ → World ℕ
after_run w =
    let ingested = (run_ingest flaky catalogue (codes "q") [] (codes "VNP46A2" ∷ []) none 2 w).1 in
    (replay_rejected_granule flaky (codes "q") 0 (run_recovery flaky (codes "q") ingested).1).1

a_run : (w : World ℕ) → Reachable flaky (codes "q") w (after_run w)
a_run w =
    next (next (next initial (ingest catalogue [] (codes "VNP46A2" ∷ []) none 2)) recover)
      (replay 0)

abbrev counted : IngestSummary
counted = record {
  discovered = 1;
  attempted = 1;
  downloaded = 0;
  validated = 0;
  enqueued = 0;
  rejected = 0;
  failed = 0;
  skipped = 1;
}

found_again :
    (run_ingest steady catalogue (codes "q") [] (codes "VNP46A2" ∷ []) none 2 with_failure).0
    ≡ ok (some counted)
unfolding run_ingest lumen_horizon.Ingest.World.query lumen_horizon.Ingest.World.with_id
    lumen_horizon.Ingest.Statements.insert_downloading_row
found_again = refl

run_ingest-IsCounted_example : IsCounted none counted
run_ingest-IsCounted_example =
    run_ingest-IsCounted steady catalogue (codes "q") [] (codes "VNP46A2" ∷ []) none 2 with_failure
      counted found_again

Reachable-IsWellFormed_example : IsWellFormed (after_run empty).tables
Reachable-IsWellFormed_example =
    Reachable-IsWellFormed flaky (codes "q") (a_run empty) empty-IsWellFormed

Reachable-settled_example : IsIn failed_row (after_run with_failure).tables.log
Reachable-settled_example =
    Reachable-settled flaky (codes "q") failed_row refl one_row-IsWellFormed refl
      (a_run with_failure)

process_granule-existing_example :
    ((process_granule flaky (codes "q") (granule 9) with_failure).0 ≡ skipped)
    × ((process_granule flaky (codes "q") (granule 9) with_failure).1.tables ≡ with_failure.tables)
unfolding lumen_horizon.Text.text_eq
process_granule-existing_example =
    process_granule-existing flaky (codes "q") (granule 9) with_failure refl

is_sent : (process_granule steady (codes "q") (granule 9) empty).0 ≡ outcome_enqueued
unfolding process_granule lumen_horizon.Ingest.World.with_id lumen_horizon.Ingest.World.query
    lumen_horizon.Ingest.Statements.insert_downloading_row
    lumen_horizon.Ingest.Statements.mark_downloaded validate_raw_granule_bytes
    lumen_horizon.Ingest.Statements.mark_validated
    lumen_horizon.Ingest.Statements.create_pending_enqueue_outbox
    lumen_horizon.Message.Granule.processing_message_from_granule
    lumen_horizon.Message.Validate.validate_blob_path lumen_horizon.Message.Validate.is_bad_path
    lumen_horizon.Message.Validate.validate_product lumen_horizon.Message.Product.parse_product
    lumen_horizon.Message.Validate.tile_or_error lumen_horizon.Message.Tile.parse_first_tile decimal
    lumen_horizon.Message.Tile.print_tile lumen_horizon.Text.Decimal.two_digits
    lumen_horizon.Message.Validate.check_tile lumen_horizon.Ingest.Pipeline.created_or_skipped
    lumen_horizon.Ingest.Pipeline.ingest_row lumen_horizon.Ingest.Pipeline.insert_or_skip
    lumen_horizon.Ingest.Pipeline.process_granule_inner
    lumen_horizon.Ingest.Statements.mark_enqueued
    lumen_horizon.Ingest.Statements.mark_outbox_completed
    lumen_horizon.Ingest.Statements.mark_success_status raw_blob_path
    lumen_horizon.Message.Validate.is_empty lumen_horizon.Message.Validate.new
    lumen_horizon.Message.Validate.product_of lumen_horizon.Text.starts_with
    lumen_horizon.Text.text_eq
is_sent = refl

process_granule-enqueued_example :
    EndsEnqueued steady
      (codes "q")
      (granule 9)
      (process_granule steady (codes "q") (granule 9) empty).1
process_granule-enqueued_example =
    process_granule-enqueued steady (codes "q") (granule 9) empty is_sent

abbrev timeout : ℕ
timeout = 408

classify_http_status_iff_example :
    ((classify_http_status timeout).1 ≡ true)
    ↔ ((is_retryable_status timeout ≡ true) × (timeout ≢ 408))
classify_http_status_iff_example = classify_http_status_iff timeout
