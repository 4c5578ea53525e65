-- ===== src/Ingest/Summary.antt =====
-- The counts of an ingest run.
use lumen_horizon.Prelude.{ℕ, suc, ◌+◌, ◌≡◌, arith, refl}

pub data GranuleProcessingOutcome : Type 0 where
  skipped failed_before_downloaded failed_after_downloaded rejected_after_downloaded
        failed_after_validated outcome_enqueued :
      GranuleProcessingOutcome

pub record IngestSummary : Type 0 where
  pub discovered : ℕ
  pub attempted : ℕ
  pub downloaded : ℕ
  pub validated : ℕ
  pub enqueued : ℕ
  pub rejected : ℕ
  pub failed : ℕ
  pub skipped : ℕ

-- `IngestSummary::new`
abbrev pub new_summary : ℕ → IngestSummary
new_summary discovered = record {
  discovered = discovered;
  attempted = 0;
  downloaded = 0;
  validated = 0;
  enqueued = 0;
  rejected = 0;
  failed = 0;
  skipped = 0;
}

abbrev pub count_outcome : GranuleProcessingOutcome → IngestSummary → IngestSummary
count_outcome skipped s = record s { skipped = s.skipped + 1 }
count_outcome failed_before_downloaded s = record s { failed = s.failed + 1 }
count_outcome failed_after_downloaded s = record s {
  downloaded = s.downloaded + 1;
  failed = s.failed + 1;
}
count_outcome rejected_after_downloaded s = record s {
  downloaded = s.downloaded + 1;
  rejected = s.rejected + 1;
}
count_outcome failed_after_validated s = record s {
  downloaded = s.downloaded + 1;
  validated = s.validated + 1;
  failed = s.failed + 1;
}
count_outcome outcome_enqueued s = record s {
  downloaded = s.downloaded + 1;
  validated = s.validated + 1;
  enqueued = s.enqueued + 1;
}

unfoldable pub record_attempt : GranuleProcessingOutcome → IngestSummary → IngestSummary
record_attempt outcome s = count_outcome outcome (record s { attempted = s.attempted + 1 })

-- Every attempt ends in one way, what is validated was downloaded, and what is enqueued was validated.
pub record IsBalanced (s : IngestSummary) : Type 0 where
  pub ends : s.skipped + s.failed + s.rejected + s.enqueued ≡ s.attempted
  pub early : ℕ
  pub late : ℕ
  pub downloads : s.downloaded ≡ s.validated + s.rejected + early
  pub validations : s.validated ≡ s.enqueued + late
  pub failures : ℕ
  pub failed_parts : s.failed ≡ failures + early + late

pub new_summary-IsBalanced : (n : ℕ) → IsBalanced (new_summary n)
new_summary-IsBalanced n = record {
  ends = refl;
  early = 0;
  late = 0;
  downloads = refl;
  validations = refl;
  failures = 0;
  failed_parts = refl;
}

pub record_attempt-IsBalanced :
    (o : GranuleProcessingOutcome) (s : IngestSummary)
    → IsBalanced s
    → IsBalanced (record_attempt o s)
unfolding record_attempt
record_attempt-IsBalanced skipped s b = record {
  ends = ground (arith, b.ends);
  early = b.early;
  late = b.late;
  downloads = b.downloads;
  validations = b.validations;
  failures = b.failures;
  failed_parts = b.failed_parts;
}
record_attempt-IsBalanced failed_before_downloaded s b = record {
  ends = ground (arith, b.ends);
  early = b.early;
  late = b.late;
  downloads = b.downloads;
  validations = b.validations;
  failures = suc b.failures;
  failed_parts = ground (arith, b.failed_parts);
}
record_attempt-IsBalanced failed_after_downloaded s b = record {
  ends = ground (arith, b.ends);
  early = suc b.early;
  late = b.late;
  downloads = ground (arith, b.downloads);
  validations = b.validations;
  failures = b.failures;
  failed_parts = ground (arith, b.failed_parts);
}
record_attempt-IsBalanced rejected_after_downloaded s b = record {
  ends = ground (arith, b.ends);
  early = b.early;
  late = b.late;
  downloads = ground (arith, b.downloads);
  validations = b.validations;
  failures = b.failures;
  failed_parts = b.failed_parts;
}
record_attempt-IsBalanced failed_after_validated s b = record {
  ends = ground (arith, b.ends);
  early = b.early;
  late = suc b.late;
  downloads = ground (arith, b.downloads);
  validations = ground (arith, b.validations);
  failures = b.failures;
  failed_parts = ground (arith, b.failed_parts);
}
record_attempt-IsBalanced outcome_enqueued s b = record {
  ends = ground (arith, b.ends);
  early = b.early;
  late = b.late;
  downloads = ground (arith, b.downloads);
  validations = ground (arith, b.validations);
  failures = b.failures;
  failed_parts = b.failed_parts;
}

pub attempted-record_attempt :
    (o : GranuleProcessingOutcome) (s : IngestSummary)
    → (record_attempt o s).attempted ≡ s.attempted + 1
unfolding record_attempt
attempted-record_attempt skipped s = refl
attempted-record_attempt failed_before_downloaded s = refl
attempted-record_attempt failed_after_downloaded s = refl
attempted-record_attempt rejected_after_downloaded s = refl
attempted-record_attempt failed_after_validated s = refl
attempted-record_attempt outcome_enqueued s = refl

pub discovered-record_attempt :
    (o : GranuleProcessingOutcome) (s : IngestSummary)
    → (record_attempt o s).discovered ≡ s.discovered
unfolding record_attempt
discovered-record_attempt skipped s = refl
discovered-record_attempt failed_before_downloaded s = refl
discovered-record_attempt failed_after_downloaded s = refl
discovered-record_attempt rejected_after_downloaded s = refl
discovered-record_attempt failed_after_validated s = refl
discovered-record_attempt outcome_enqueued s = refl
