-- ===== src/Worker/Poll.antt =====
-- One poll of the queue, and the worker's loop.
use lumen_horizon.Prelude.{
  Text, Bool, true, false, Result, ok, err, List, [], ◌∷◌, Option, none, some, if◌then◌else◌, ◌≡◌,
}
use lumen_horizon.Message.Validate.{ProcessingMessage, parse_json}
use lumen_horizon.Action.{Action, return, throw, ◌>>=◌, ◌>>◌}
use lumen_horizon.Worker.Services.{
  ServiceError, processing_message, ReceivedQueueMessage, ProcessOnceOutcome, handled_message,
  no_message, WorkerConfig, Services, should_deadletter, is_missing_ingest_log_error,
}

-- `Vec::pop`
unfoldable pub pop : List ReceivedQueueMessage → Option ReceivedQueueMessage
pop [] = none
pop (m ∷ []) = some m
pop (m ∷ n ∷ ms) = pop (n ∷ ms)

module _ {W Uuid Date : Type 0} (config : WorkerConfig) (services : Services W Uuid Date) where
  unfoldable pub mark_processing_failure :
      ProcessingMessage Uuid Date
      → ServiceError Uuid
      → Bool
      → Action W (ServiceError Uuid) (Unit {0})
  mark_processing_failure m error deadlettered = do
    services.connect
    if deadlettered
        then services.mark_processing_deadlettered m.ingest_id (services.to_string error)
        else services.mark_processing_failed m.ingest_id (services.to_string error)

  unfoldable pub move_queue_message_to_deadletter :
      ReceivedQueueMessage → Action W (ServiceError Uuid) (Unit {0})
  move_queue_message_to_deadletter m = do
    services.enqueue_message config.azure_deadletter_queue_name m.message_text
    services.delete_message config.azure_queue_name m.message_id m.pop_receipt

  unfoldable pub deadletter : ReceivedQueueMessage → Action W (ServiceError Uuid) ProcessOnceOutcome
  unfolding move_queue_message_to_deadletter
  deadletter m = do move_queue_message_to_deadletter m; return handled_message

  unfoldable pub is_exhausted : ReceivedQueueMessage → Bool
  unfolding should_deadletter
  is_exhausted m = should_deadletter m.dequeue_count config.processing_max_dequeue_count

  -- The message that does not parse
  unfoldable pub malformed :
      ReceivedQueueMessage → ServiceError Uuid → Action W (ServiceError Uuid) ProcessOnceOutcome
  unfolding deadletter is_exhausted
  malformed m error = if is_exhausted m then deadletter m else throw error

  -- The message whose processing fails
  unfoldable pub failed :
      ReceivedQueueMessage
      → ProcessingMessage Uuid Date
      → ServiceError Uuid
      → Action W (ServiceError Uuid) ProcessOnceOutcome
  unfolding deadletter is_exhausted mark_processing_failure is_missing_ingest_log_error
  failed m parsed error =
      if is_missing_ingest_log_error error
      then deadletter m
      else if is_exhausted m
      then (do mark_processing_failure parsed error true; deadletter m)
      else (do mark_processing_failure parsed error false; throw error)

  -- What follows the processing of a message
  unfoldable pub settle :
      ReceivedQueueMessage
      → ProcessingMessage Uuid Date
      → Result (ServiceError Uuid) (Unit {0}) × W
      → Result (ServiceError Uuid) ProcessOnceOutcome × W
  unfolding failed
  settle m parsed (err error, w) = failed m parsed error w
  settle m parsed (ok u, w) =
      (do
        services.delete_message config.azure_queue_name m.message_id m.pop_receipt
        return handled_message)
        w

  unfoldable pub handle : ReceivedQueueMessage → Action W (ServiceError Uuid) ProcessOnceOutcome
  unfolding malformed settle parse_json
  handle m w = elim (parse_json services.from_str m.message_text) [
    | err error ↦ malformed m (processing_message error) w
    | ok parsed ↦ settle m parsed (services.process_parsed_message parsed w)
  ]

  unfoldable pub handle_popped :
      Option ReceivedQueueMessage → Action W (ServiceError Uuid) ProcessOnceOutcome
  unfolding handle
  handle_popped none = return no_message
  handle_popped (some m) = handle m

  unfoldable pub process_once_with_queue : Action W (ServiceError Uuid) ProcessOnceOutcome
  unfolding handle_popped pop
  process_once_with_queue = do
    messages ←
        services.receive_messages config.azure_queue_name 1
          config.processing_visibility_timeout_seconds
    handle_popped (pop messages)

  -- `Command::Worker`: polls until the queue is empty or a poll fails.
  pub data WorkerRun : W → Result (ServiceError Uuid) (Unit {0}) × W → Type 0 where
    stops : {w w' : W} → process_once_with_queue w ≡ (ok no_message, w') → WorkerRun w (ok tt, w')
    fails :
        {w w' : W} {e : ServiceError Uuid}
        → process_once_with_queue w ≡ (err e, w')
        → WorkerRun w (err e, w')
    again :
        {w w' : W} {out : Result (ServiceError Uuid) (Unit {0}) × W}
        → process_once_with_queue w ≡ (ok handled_message, w')
        → WorkerRun w' out
        → WorkerRun w out

  -- `Command::ProcessMessage`
  unfoldable pub process_message_payload : Text → Action W (ServiceError Uuid) (Unit {0})
  unfolding parse_json
  process_message_payload message w = elim (parse_json services.from_str message) [
    | err error ↦ (err (processing_message error), w)
    | ok parsed ↦ services.process_parsed_message parsed w
  ]
