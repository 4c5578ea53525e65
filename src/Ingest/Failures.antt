-- ===== src/Ingest/Failures.antt =====
-- What is recorded of a failure. The texts of reqwest's, serde's and sqlx's errors, and of an HTTP
-- status, are parameters of the model: an error of theirs is its text.
use lumen_horizon.Prelude.{
  ℕ, ◌+◌, ◌==◌, leb, ltb, ◌&&◌, ◌||◌, Text, codes, ◌++◌, Bool, true, false, Option, none, some,
  if◌then◌else◌, ◌≡◌, ◌≢◌, ◌↔◌, arith,
}
use lumen_horizon.Prelude.Int.{ℤ, pos, negsuc}
use lumen_horizon.Text.Decimal.{decimal, two_digits}
use lumen_horizon.Message.Validate.{
  ValidationError, invalid_blob_path, invalid_json, missing_tile_in_blob_path, tile_mismatch,
  unsupported_product,
}
use lumen_horizon.Ingest.Validation.{RawGranuleValidationError, missing_hdf5_magic, too_small}
use lumen_horizon.Retry.Send.{is_retryable_status}

pub data FailurePhase : Type 0 where
  record_downloading download upload recover_download mark_downloaded validation mark_validated
        create_outbox build_processing_message enqueue mark_enqueued complete_outbox :
      FailurePhase

-- `FailurePhase::as_str`
unfoldable pub phase_text : FailurePhase → Text
phase_text record_downloading = codes "record_downloading"
phase_text download = codes "download"
phase_text upload = codes "upload"
phase_text recover_download = codes "recover_download"
phase_text mark_downloaded = codes "mark_downloaded"
phase_text validation = codes "validation"
phase_text mark_validated = codes "mark_validated"
phase_text create_outbox = codes "create_outbox"
phase_text build_processing_message = codes "build_processing_message"
phase_text enqueue = codes "enqueue"
phase_text mark_enqueued = codes "mark_enqueued"
phase_text complete_outbox = codes "complete_outbox"

pub record IngestFailureContext : Type 0 where
  pub phase : FailurePhase
  pub code : Text
  pub category : Text
  pub retry_eligible : Bool
  pub http_status : Option ℕ
  pub message : Text

-- `bool`'s Display
abbrev bool_text : Bool → Text
bool_text true = codes "true"
bool_text false = codes "false"

abbrev status_part : Option ℕ → Text
status_part none = codes ""
status_part (some status) = codes "; http_status=" ++ decimal status

unfoldable pub database_message : IngestFailureContext → Text
unfolding phase_text decimal
database_message c =
    codes "phase="
    ++ (phase_text c.phase
        ++ (codes "; code="
            ++ (c.code
                ++ (codes "; category="
                    ++ (c.category
                        ++ (codes "; retry_eligible="
                            ++ (bool_text c.retry_eligible
                                ++ (status_part c.http_status
                                    ++ (codes "; message=" ++ c.message)))))))))

pub data EarthdataError : Type 0 where
  missing_token : EarthdataError
  earthdata_build_client : Text → EarthdataError
  earthdata_request : Text → EarthdataError
  earthdata_status : Text → ℕ → EarthdataError
  earthdata_read_body : Text → EarthdataError
  empty_body : Text → EarthdataError

pub data StorageError : Type 0 where
  azure_storage : Text → StorageError
  blob_readiness_status : ℕ → Text → StorageError
  build_client : Text → StorageError
  cannot_be_base_url : StorageError
  storage_invalid_blob_path : Text → Text → StorageError
  download_status : Text → ℕ → Text → StorageError
  queue_readiness_status : Text → ℕ → Text → StorageError
  queue_status : Text → ℕ → Text → StorageError
  request : Text → StorageError
  read_body : Text → StorageError
  serialize_message : Text → StorageError
  upload_status : Text → ℕ → Text → StorageError

unfoldable pub classify_http_status : ℕ → Text × Bool
classify_http_status status =
    if status == 401 || status == 403
    then (codes "auth", false)
    else if status == 429
    then (codes "rate_limit", true)
    else if leb 500 status && ltb status 600
    then (codes "upstream", true)
    else (codes "upstream", false)

abbrev context : FailurePhase → Text → Text → Bool → Text → IngestFailureContext
context phase code category retry_eligible message = record {
  phase = phase;
  code = code;
  category = category;
  retry_eligible = retry_eligible;
  http_status = none;
  message = message;
}

-- The context of a response with a status that is no success
abbrev status_context : FailurePhase → Text → ℕ → Text → IngestFailureContext
status_context phase code status message = record {
  phase = phase;
  code = code;
  category = (classify_http_status status).0;
  retry_eligible = (classify_http_status status).1;
  http_status = some status;
  message = message;
}

unfoldable pub raw_validation : RawGranuleValidationError → IngestFailureContext
unfolding decimal
raw_validation (too_small actual minimum) =
    context validation (codes "raw_granule_too_small") (codes "validation") false (
      codes "raw granule was "
      ++ (decimal actual
          ++ (codes " bytes; expected at least " ++ (decimal minimum ++ codes " bytes"))))
raw_validation missing_hdf5_magic =
    context validation (codes "raw_granule_missing_hdf5_magic") (codes "validation") false
      (codes "raw granule is missing the HDF5 magic number")

-- `{:02}` of an i16
abbrev two_digits_i16 : ℤ → Text
two_digits_i16 (pos n) = two_digits n
two_digits_i16 (negsuc n) = codes "-" ++ decimal (n + 1)

unfoldable pub processing_message_failure : ValidationError → IngestFailureContext
unfolding decimal two_digits
processing_message_failure (invalid_json error) =
    context build_processing_message (codes "processing_message_invalid_json")
      (codes "serialization") false (codes "invalid processing message JSON: " ++ error)
processing_message_failure (invalid_blob_path path) =
    context build_processing_message (codes "processing_message_invalid_blob_path")
      (codes "validation") false (codes "invalid blob path '" ++ (path ++ codes "'"))
processing_message_failure (unsupported_product product) =
    context build_processing_message (codes "processing_message_unsupported_product")
      (codes "validation") false (codes "unsupported product '" ++ (product ++ codes "'"))
processing_message_failure (missing_tile_in_blob_path path) =
    context build_processing_message (codes "processing_message_blob_path_tile_missing")
      (codes "validation") false
      (codes "invalid blob path '" ++ (path ++ codes "': missing hXXvYY tile coordinate"))
processing_message_failure (tile_mismatch blob_h blob_v message_h message_v) =
    context build_processing_message (codes "processing_message_blob_path_tile_mismatch")
      (codes "validation") false
      (codes "processing message tile mismatch: blob path has h"
        ++ (two_digits_i16 blob_h
            ++ (codes "v"
                ++ (two_digits_i16 blob_v
                    ++ (codes ", message has h"
                        ++ (two_digits_i16 message_h
                            ++ (codes "v" ++ two_digits_i16 message_v)))))))

unfoldable pub database_status_update : FailurePhase → Text → Text → IngestFailureContext
database_status_update phase code error =
    context phase code (codes "database") true
      (codes "failed to update ingest_log status: " ++ error)

module _ (status_text : ℕ → Text) where
  unfoldable pub earthdata_download : EarthdataError → IngestFailureContext
  unfolding classify_http_status
  earthdata_download missing_token =
      context download (codes "earthdata_missing_token") (codes "configuration") false
        (codes "EARTHDATA_BEARER_TOKEN is missing or still set to a placeholder")
  earthdata_download (earthdata_build_client error) =
      context download (codes "earthdata_client_build_failed") (codes "configuration") false
        (codes "failed to build Earthdata HTTP client: " ++ error)
  earthdata_download (earthdata_request error) =
      context download (codes "earthdata_request_failed") (codes "network") true
        (codes "Earthdata request failed before a response was received: " ++ error)
  earthdata_download (earthdata_status title status) =
      status_context download (codes "earthdata_http_status") status (
        codes "Earthdata returned HTTP "
        ++ (status_text status ++ (codes " for granule " ++ title)))
  earthdata_download (earthdata_read_body error) =
      context download (codes "earthdata_body_read_failed") (codes "network") true
        (codes "failed to read Earthdata response body: " ++ error)
  earthdata_download (empty_body title) =
      context download (codes "earthdata_empty_body") (codes "upstream") true
        (codes "Earthdata returned an empty body for granule " ++ title)

  unfoldable pub storage_failure : FailurePhase → StorageError → IngestFailureContext
  unfolding classify_http_status
  storage_failure phase (build_client error) =
      context phase (codes "storage_client_build_failed") (codes "configuration") false
        (codes "failed to build storage HTTP client: " ++ error)
  storage_failure phase cannot_be_base_url =
      context phase (codes "storage_endpoint_not_base_url") (codes "configuration") false
        (codes "storage endpoint cannot be used as a base URL")
  storage_failure phase (storage_invalid_blob_path path reason) =
      context phase (codes "storage_invalid_blob_path") (codes "validation") false
        (codes "invalid blob path '" ++ (path ++ (codes "': " ++ reason)))
  storage_failure phase (request error) =
      context phase (codes "storage_request_failed") (codes "network") true
        (codes "storage request failed before a response was received: " ++ error)
  storage_failure phase (read_body error) =
      context phase (codes "storage_blob_read_failed") (codes "network") true
        (codes "failed to read storage response body: " ++ error)
  storage_failure phase (serialize_message error) =
      context phase (codes "storage_message_serialize_failed") (codes "serialization") false
        (codes "failed to serialize processing message: " ++ error)
  storage_failure phase (upload_status path status body) =
      status_context phase (codes "storage_upload_http_status") status (
        codes "blob upload returned HTTP "
        ++ (status_text status ++ (codes " for '" ++ (path ++ (codes "': " ++ body)))))
  storage_failure phase (download_status path status body) =
      status_context phase (codes "storage_download_http_status") status (
        codes "blob download returned HTTP "
        ++ (status_text status ++ (codes " for '" ++ (path ++ (codes "': " ++ body)))))
  storage_failure phase (blob_readiness_status status body) =
      status_context phase (codes "storage_blob_readiness_http_status") status (
        codes "raw blob container readiness check returned HTTP "
        ++ (status_text status ++ (codes ": " ++ body)))
  storage_failure phase (queue_status queue status body) =
      status_context phase (codes "storage_queue_http_status") status (
        codes "queue enqueue returned HTTP "
        ++ (status_text status ++ (codes " for '" ++ (queue ++ (codes "': " ++ body)))))
  storage_failure phase (queue_readiness_status queue status body) =
      status_context phase (codes "storage_queue_readiness_http_status") status (
        codes "queue readiness check returned HTTP "
        ++ (status_text status ++ (codes " for '" ++ (queue ++ (codes "': " ++ body)))))
  storage_failure phase (azure_storage error) =
      context phase (codes "storage_shared_helper_failed") (codes "configuration") false
        (codes "shared Azure Storage helper failed: " ++ error)

-- A status is called eligible for a retry exactly when the HTTP client retries it and it is not 408:
-- a request timeout is retried by the client and recorded as final.
pub classify_http_status_iff :
    (status : ℕ)
    → ((classify_http_status status).1 ≡ true)
      ↔ ((is_retryable_status status ≡ true) × (status ≢ 408))
unfolding classify_http_status is_retryable_status
classify_http_status_iff status = (λ h. (ground arith, ground arith), λ (h, n). ground arith)
