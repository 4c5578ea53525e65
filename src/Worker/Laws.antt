-- ===== src/Worker/Laws.antt =====
-- What the worker relies on: a queue keeps a message until somebody deletes it by its id, and a
-- report of success is true. The three predicates on the world are the instance's.
use lumen_horizon.Prelude.{ℕ, Text, ok, List, All, ◌≡◌, ◌⊎◌}
use lumen_horizon.Message.Validate.{ProcessingMessage}
use lumen_horizon.Action.{Preserves}
use lumen_horizon.Worker.Services.{ReceivedQueueMessage, WorkerConfig, Services}

-- Every call but a deletion keeps `P`.
pub record IsStable {W Uuid Date : Type 0} (config : WorkerConfig) (services : Services W Uuid Date)
    (P : W → Type 0) : Type 0 where
  pub receive :
      (n seconds : ℕ) → Preserves P (services.receive_messages config.azure_queue_name n seconds)
  pub enqueue :
      (text : Text) → Preserves P (services.enqueue_message config.azure_deadletter_queue_name text)
  pub process : (m : ProcessingMessage Uuid Date) → Preserves P (services.process_parsed_message m)
  pub connection : Preserves P services.connect
  pub failure :
      (ingest : Uuid) (error : Text) → Preserves P (services.mark_processing_failed ingest error)
  pub deadlettering :
      (ingest : Uuid) (error : Text)
      → Preserves P (services.mark_processing_deadlettered ingest error)

pub record QueueLaws {W Uuid Date : Type 0} (config : WorkerConfig)
    (services : Services W Uuid Date) : Type 1 where
  -- An id and its text are in the processing queue, visible or not.
  pub Waiting : Text → Text → W → Type 0
  -- A text is in the dead-letter queue.
  pub Dead : Text → W → Type 0
  -- A message has been processed.
  pub Done : ProcessingMessage Uuid Date → W → Type 0
  pub unique :
      (w : W) (id text text' : Text) → Waiting id text w → Waiting id text' w → text ≡ text'
  pub received :
      (n seconds : ℕ) (w : W) (ms : List ReceivedQueueMessage)
      → (services.receive_messages config.azure_queue_name n seconds w).0 ≡ ok ms
      → All
          (λ m.
            Waiting m.message_id m.message_text
              (services.receive_messages config.azure_queue_name n seconds w).1)
          ms
  pub enqueued :
      (text : Text) (w : W) (u : Unit {0})
      → (services.enqueue_message config.azure_deadletter_queue_name text w).0 ≡ ok u
      → Dead text (services.enqueue_message config.azure_deadletter_queue_name text w).1
  pub processed :
      (m : ProcessingMessage Uuid Date) (w : W) (u : Unit {0})
      → (services.process_parsed_message m w).0 ≡ ok u
      → Done m (services.process_parsed_message m w).1
  pub delete_waiting :
      (id text id' receipt : Text) (w : W)
      → Waiting id text w
      → Waiting id text (services.delete_message config.azure_queue_name id' receipt w).1
        ⊎ (id ≡ id')
  pub delete_dead :
      (text id receipt : Text)
      → Preserves (Dead text) (services.delete_message config.azure_queue_name id receipt)
  pub delete_done :
      (m : ProcessingMessage Uuid Date) (id receipt : Text)
      → Preserves (Done m) (services.delete_message config.azure_queue_name id receipt)
  pub waiting_stable : (id text : Text) → IsStable config services (Waiting id text)
  pub dead_stable : (text : Text) → IsStable config services (Dead text)
  pub done_stable : (m : ProcessingMessage Uuid Date) → IsStable config services (Done m)
