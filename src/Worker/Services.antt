-- ===== src/Worker/Services.antt =====
-- The worker's data, and the services it calls. Those are Azure's queues, PostgreSQL and the
-- processing of one message: parameters, in one record.
use lumen_horizon.Prelude.{ℕ, List, Text, Bool, true, false, Result, leb}
use lumen_horizon.Message.Validate.{ProcessingMessage, ValidationError}
use lumen_horizon.Action.{Action}

-- `ServiceError`, with the one database error that the worker looks for. The other errors are
-- `other`, with their text.
pub data ServiceError (Uuid : Type 0) : Type 0 where
  processing_message : ValidationError → ServiceError Uuid
  missing_ingest_log : Uuid → ServiceError Uuid
  other : Text → ServiceError Uuid

pub record ReceivedQueueMessage : Type 0 where
  pub message_id : Text
  pub pop_receipt : Text
  pub dequeue_count : ℕ
  pub message_text : Text

pub data ProcessOnceOutcome : Type 0 where
  handled_message no_message : ProcessOnceOutcome

-- The fields of `AppConfig` that the worker reads.
pub record WorkerConfig : Type 0 where
  pub azure_queue_name : Text
  pub azure_deadletter_queue_name : Text
  pub processing_visibility_timeout_seconds : ℕ
  pub processing_max_dequeue_count : ℕ

pub record Services (W Uuid Date : Type 0) : Type 0 where
  pub receive_messages : Text → ℕ → ℕ → Action W (ServiceError Uuid) (List ReceivedQueueMessage)
  pub delete_message : Text → Text → Text → Action W (ServiceError Uuid) (Unit {0})
  pub enqueue_message : Text → Text → Action W (ServiceError Uuid) (Unit {0})
  pub connect : Action W (ServiceError Uuid) (Unit {0})
  pub mark_processing_failed : Uuid → Text → Action W (ServiceError Uuid) (Unit {0})
  pub mark_processing_deadlettered : Uuid → Text → Action W (ServiceError Uuid) (Unit {0})
  pub process_parsed_message : ProcessingMessage Uuid Date → Action W (ServiceError Uuid) (Unit {0})
  pub from_str : Text → Result Text (ProcessingMessage Uuid Date)
  pub to_string : ServiceError Uuid → Text

unfoldable pub should_deadletter : ℕ → ℕ → Bool
should_deadletter dequeue_count max_dequeue_count = leb max_dequeue_count dequeue_count

unfoldable pub is_missing_ingest_log_error : {Uuid : Type 0} → ServiceError Uuid → Bool
is_missing_ingest_log_error (missing_ingest_log id) = true
is_missing_ingest_log_error (processing_message e) = false
is_missing_ingest_log_error (other text) = false
