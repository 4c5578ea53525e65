-- ===== src/Worker/Handled.antt =====
-- What a poll has done when it says that it has handled a message, and what a run of the worker keeps.
use lumen_horizon.Prelude.{
  Text, true, false, Result, ok, err, List, none, some, ◌≡◌, ◌≢◌, inl, inr, refl, Option-cases,
  Result-cases, Bool-cases,
}
use lumen_horizon.Message.Validate.{ProcessingMessage, ValidationError, parse_json}
use lumen_horizon.Action.{then_do-Preserves, return, throw, then_do}
use lumen_horizon.Worker.Services.{
  ServiceError, processing_message, ReceivedQueueMessage, ProcessOnceOutcome, handled_message,
  WorkerConfig, Services, is_missing_ingest_log_error,
}
use lumen_horizon.Worker.Laws.{QueueLaws}
use mathlib.Core.Path.{subst}
use lumen_horizon.Worker.Poll.{
  pop, mark_processing_failure, move_queue_message_to_deadletter, deadletter, is_exhausted,
  malformed, failed, settle, handle, handle_popped, process_once_with_queue, WorkerRun, stops,
  fails, again,
}
use lumen_horizon.Worker.Loss.{
  IsSettled, IsProcessed, IsKept, delete-IsSettled, process_once-IsKept,
}

module _ {W Uuid Date : Type 0} (config : WorkerConfig) (services : Services W Uuid Date)
    (laws : QueueLaws config services) where
  -- The outcome says that a message is handled, and then it is.
  abbrev IsTrue : ReceivedQueueMessage → Result (ServiceError Uuid) ProcessOnceOutcome × W → Type 0
  IsTrue m r = r.0 ≡ ok handled_message → IsSettled config services laws m.message_text r.1

  module _ (m : ReceivedQueueMessage) where
    deleted :
        (w : W)
        → IsSettled config services laws m.message_text w
        → IsTrue m (
            then_do
              (λ _. return handled_message)
              (services.delete_message config.azure_queue_name m.message_id m.pop_receipt w))
    deleted w s _ =
        then_do-Preserves (IsSettled config services laws m.message_text)
          (λ _. return handled_message) (λ _ w s. s)
          (services.delete_message config.azure_queue_name m.message_id m.pop_receipt w)
          (delete-IsSettled config services laws m.message_text m.message_id m.pop_receipt w s)

    after_enqueue :
        (r : Result (ServiceError Uuid) (Unit {0}) × W)
        → ((u : Unit {0}) → r.0 ≡ ok u → laws.Dead m.message_text r.1)
        → IsTrue m (
            then_do
              (λ _. return handled_message)
              (then_do
                (λ _. services.delete_message config.azure_queue_name m.message_id m.pop_receipt)
                r))
    after_enqueue (err e, w) dead h = cc
    after_enqueue (ok u, w) dead h = deleted w (inl (dead u refl)) h

    deadletter_handled : (w : W) → IsTrue m (deadletter config services m w)
    unfolding deadletter move_queue_message_to_deadletter
    deadletter_handled w =
        after_enqueue (services.enqueue_message config.azure_deadletter_queue_name m.message_text w)
          (laws.enqueued m.message_text w)

    malformed_handled :
        (error : ServiceError Uuid) (w : W) → IsTrue m (malformed config services m error w)
    unfolding malformed
    malformed_handled error w = elim (Bool-cases (is_exhausted config services m)) [
      | inl e ↦ rw e (deadletter_handled w)
      | inr e ↦ rw e (λ h. cc)
    ]

    then_deadletter :
        (r : Result (ServiceError Uuid) (Unit {0}) × W)
        → IsTrue m (then_do (λ _. deadletter config services m) r)
    then_deadletter (err e, w) h = cc
    then_deadletter (ok u, w) h = deadletter_handled w h

    then_throw :
        (error : ServiceError Uuid) (r : Result (ServiceError Uuid) (Unit {0}) × W)
        → IsTrue m (then_do (λ _. throw error) r)
    then_throw error (err e, w) h = cc
    then_throw error (ok u, w) h = cc

    failed_handled :
        (parsed : ProcessingMessage Uuid Date) (error : ServiceError Uuid) (w : W)
        → IsTrue m (failed config services m parsed error w)
    unfolding failed
    failed_handled parsed error w = elim (Bool-cases (is_missing_ingest_log_error error)) [
      | inl missing ↦ rw missing (deadletter_handled w)
      | inr known ↦ elim (Bool-cases (is_exhausted config services m)) [
        | inl e ↦
            rw (known, e)
              (then_deadletter (mark_processing_failure config services parsed error true w))
        | inr e ↦
            rw (known, e)
              (then_throw error (mark_processing_failure config services parsed error false w))
      ]
    ]

    settle_handled :
        (parsed : ProcessingMessage Uuid Date) (r : Result (ServiceError Uuid) (Unit {0}) × W)
        → ((u : Unit {0}) → r.0 ≡ ok u → IsProcessed config services laws m.message_text r.1)
        → IsTrue m (settle config services m parsed r)
    unfolding settle
    settle_handled parsed (err error, w) processed = failed_handled parsed error w
    settle_handled parsed (ok u, w) processed = deleted w (inr (processed u refl))

    handle-err :
        (w : W) (e : ValidationError)
        → parse_json services.from_str m.message_text ≡ err e
        → malformed config services m (processing_message e) w ≡ handle config services m w
    unfolding handle
    handle-err w e parse = rw (parse, handle) refl

    handle-ok :
        (w : W) (parsed : ProcessingMessage Uuid Date)
        → parse_json services.from_str m.message_text ≡ ok parsed
        → settle config services m parsed (services.process_parsed_message parsed w)
          ≡ handle config services m w
    unfolding handle
    handle-ok w parsed parse = rw (parse, handle) refl

    handle_handled : (w : W) → IsTrue m (handle config services m w)
    handle_handled w = elim (Result-cases (parse_json services.from_str m.message_text)) [
      | inl (e, parse) ↦
          subst (IsTrue m) (handle-err w e parse) (malformed_handled (processing_message e) w)
      | inr (parsed, parse) ↦ subst (IsTrue m) (handle-ok w parsed parse) (
          settle_handled parsed (services.process_parsed_message parsed w)
            (λ u done. (parsed, parse, laws.processed parsed w u done)))
    ]

  nothing_handled : (w : W) → (handle_popped config services none w).0 ≢ ok handled_message
  unfolding handle_popped
  nothing_handled w h = cc

  answer_handled :
      (r : Result (ServiceError Uuid) (List ReceivedQueueMessage) × W)
      → (then_do (λ ms. handle_popped config services (pop ms)) r).0 ≡ ok handled_message
      → (m : ReceivedQueueMessage) × (ms : List ReceivedQueueMessage) × (r.0 ≡ ok ms)
        × (pop ms ≡ some m)
        × IsSettled config services laws m.message_text
            (then_do (λ ms. handle_popped config services (pop ms)) r).1
  unfolding handle_popped
  answer_handled (err e, w) h = cc
  answer_handled (ok ms, w) h = elim (Option-cases (pop ms)) [
    | inl empty ↦ absurd (nothing_handled w (rw empty at h))
    | inr (m, found) ↦ (m, ms, refl, found, rw found (handle_handled m w (rw found at h)))
  ]

  -- Under the laws of the queue: a poll that says that it has handled a message has taken one from the queue, and that message
  -- now stands in the dead-letter queue or has been processed.
  pub process_once-handled :
      (w : W)
      → (process_once_with_queue config services w).0 ≡ ok handled_message
      → (m : ReceivedQueueMessage) × (ms : List ReceivedQueueMessage) × ((services.receive_messages
            config.azure_queue_name 1 config.processing_visibility_timeout_seconds w).0
          ≡ ok ms)
        × (pop ms ≡ some m)
        × IsSettled config services laws m.message_text
            (process_once_with_queue config services w).1
  unfolding process_once_with_queue
  process_once-handled w = answer_handled (
      services.receive_messages config.azure_queue_name 1
        config.processing_visibility_timeout_seconds w)

  -- Under the laws of the queue: a run of the worker, however long and however it ends, loses no message. One that waits in the
  -- processing queue, stands in the dead-letter queue or has been processed is afterwards in one of these places.
  pub worker_run-IsKept :
      {w : W} {out : Result (ServiceError Uuid) (Unit {0}) × W} (id text : Text)
      → WorkerRun config services w out
      → IsKept config services laws text id w
      → IsKept config services laws text id out.1
  worker_run-IsKept {w = w} id text (stops e) kept =
      subst (λ r. IsKept config services laws text id r.1) e
        (process_once-IsKept config services laws text id w kept)
  worker_run-IsKept {w = w} id text (fails e) kept =
      subst (λ r. IsKept config services laws text id r.1) e
        (process_once-IsKept config services laws text id w kept)
  worker_run-IsKept {w = w} id text (again e run) kept = worker_run-IsKept id text run (
      subst (λ r. IsKept config services laws text id r.1) e
        (process_once-IsKept config services laws text id w kept))
