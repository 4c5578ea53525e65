-- ===== src/Worker/Loss.antt =====
-- No message is lost: where a poll and a run of the worker leave a message.
use lumen_horizon.Prelude.{
  Text, Result, ok, err, List, All, ◌≡◌, ◌⊎◌, inl, inr, refl, sym, ◌∙◌, ap, Option-cases,
}
use lumen_horizon.Message.Validate.{ProcessingMessage, parse_json}
use lumen_horizon.Action.{Preserves, bind-Preserves, return, then_do}
use lumen_horizon.Worker.Services.{
  ServiceError, ReceivedQueueMessage, handled_message, WorkerConfig, Services,
}
use lumen_horizon.Worker.Laws.{IsStable, QueueLaws}
use mathlib.Core.Path.{subst}
use lumen_horizon.Worker.Poll.{
  pop, move_queue_message_to_deadletter, deadletter, handle, handle_popped, process_once_with_queue,
}
use lumen_horizon.Worker.Kept.{handle-Preserves, pop-All}

module _ {W Uuid Date : Type 0} (config : WorkerConfig) (services : Services W Uuid Date) where
  module _ (P Q : W → Type 0) (p : IsStable config services P)
      (q : IsStable config services Q) where
    sum_cases : {w w' : W} → (P w → P w') → (Q w → Q w') → P w ⊎ Q w → P w' ⊎ Q w'
    sum_cases f g (inl h) = inl (f h)
    sum_cases f g (inr h) = inr (g h)

    sum-IsStable : IsStable config services (λ w. P w ⊎ Q w)
    sum-IsStable = record {
      receive = λ n seconds w. sum_cases (p.receive n seconds w) (q.receive n seconds w);
      enqueue = λ text w. sum_cases (p.enqueue text w) (q.enqueue text w);
      process = λ m w. sum_cases (p.process m w) (q.process m w);
      connection = λ w. sum_cases (p.connection w) (q.connection w);
      failure = λ ingest error w. sum_cases (p.failure ingest error w) (q.failure ingest error w);
      deadlettering = λ ingest error w.
          sum_cases (p.deadlettering ingest error w) (q.deadlettering ingest error w);
    }

  module _ (laws : QueueLaws config services) (text : Text) where
    -- The message that the text spells has been processed.
    abbrev pub IsProcessed : W → Type 0
    IsProcessed w =
        (m : ProcessingMessage Uuid Date) × (parse_json services.from_str text ≡ ok m)
        × laws.Done m w

    IsProcessed-IsStable : IsStable config services IsProcessed
    IsProcessed-IsStable = record {
      receive = λ n seconds w (m, e, d). (m, e, (laws.done_stable m).receive n seconds w d);
      enqueue = λ t w (m, e, d). (m, e, (laws.done_stable m).enqueue t w d);
      process = λ m' w (m, e, d). (m, e, (laws.done_stable m).process m' w d);
      connection = λ w (m, e, d). (m, e, (laws.done_stable m).connection w d);
      failure = λ ingest error w (m, e, d). (m, e, (laws.done_stable m).failure ingest error w d);
      deadlettering =
          λ ingest error w (m, e, d). (m, e, (laws.done_stable m).deadlettering ingest error w d);
    }

    -- It stands in the dead-letter queue, or has been processed.
    abbrev pub IsSettled : W → Type 0
    IsSettled w = laws.Dead text w ⊎ IsProcessed w

    IsSettled-IsStable : IsStable config services IsSettled
    IsSettled-IsStable =
        sum-IsStable (laws.Dead text) IsProcessed (laws.dead_stable text) IsProcessed-IsStable

    pub delete-IsSettled :
        (id receipt : Text)
        → Preserves IsSettled (services.delete_message config.azure_queue_name id receipt)
    delete-IsSettled id receipt w (inl dead) = inl (laws.delete_dead text id receipt w dead)
    delete-IsSettled id receipt w (inr (m, e, d)) = inr (m, e, laws.delete_done m id receipt w d)

    deadletter-IsSettled :
        (m : ReceivedQueueMessage) → Preserves IsSettled (deadletter config services m)
    unfolding deadletter move_queue_message_to_deadletter
    deadletter-IsSettled m =
        bind-Preserves IsSettled (move_queue_message_to_deadletter config services m)
          (λ _. return handled_message)
          (bind-Preserves IsSettled
            (services.enqueue_message config.azure_deadletter_queue_name m.message_text)
            (λ _. services.delete_message config.azure_queue_name m.message_id m.pop_receipt)
            (IsSettled-IsStable.enqueue m.message_text)
            (λ _. delete-IsSettled m.message_id m.pop_receipt))
          (λ _ w s. s)

    handle-IsSettled : (m : ReceivedQueueMessage) → Preserves IsSettled (handle config services m)
    handle-IsSettled m =
        handle-Preserves config services IsSettled IsSettled-IsStable m (deadletter-IsSettled m)
          (λ parsed w u parse done s.
            delete-IsSettled m.message_id m.pop_receipt _ (IsSettled-IsStable.process parsed w s))

    module _ (id : Text) where
      -- The message waits in the processing queue, or is settled.
      abbrev pub IsKept : W → Type 0
      IsKept w = laws.Waiting id text w ⊎ IsSettled w

      IsKept-IsStable : IsStable config services IsKept
      IsKept-IsStable =
          sum-IsStable (laws.Waiting id text) IsSettled (laws.waiting_stable id text)
            IsSettled-IsStable

      delete-IsKept :
          (id' receipt : Text) (w : W)
          → (id ≡ id' → IsSettled w)
          → IsKept w
          → IsKept (services.delete_message config.azure_queue_name id' receipt w).1
      delete-IsKept id' receipt w settled (inr s) = inr (delete-IsSettled id' receipt w s)
      delete-IsKept id' receipt w settled (inl waiting) =
          elim (laws.delete_waiting id text id' receipt w waiting) [
            | inl still ↦ inl still
            | inr same ↦ inr (delete-IsSettled id' receipt w (settled same))
          ]

      module _ (m : ReceivedQueueMessage)
          (same_text : id ≡ m.message_id → m.message_text ≡ text) where
        after_enqueue :
            (r : Result (ServiceError Uuid) (Unit {0}) × W)
            → ((u : Unit {0}) → r.0 ≡ ok u → laws.Dead m.message_text r.1)
            → IsKept r.1
            → IsKept
                (then_do
                  (λ _. services.delete_message config.azure_queue_name m.message_id m.pop_receipt)
                  r).1
        after_enqueue (err e, w) dead kept = kept
        after_enqueue (ok u, w) dead kept =
            delete-IsKept m.message_id m.pop_receipt w
              (λ same. inl (subst (λ t. laws.Dead t w) (same_text same) (dead u refl))) kept

        deadletter-IsKept : Preserves IsKept (deadletter config services m)
        unfolding deadletter move_queue_message_to_deadletter
        deadletter-IsKept =
            bind-Preserves IsKept (move_queue_message_to_deadletter config services m)
              (λ _. return handled_message)
              (λ w kept.
                after_enqueue
                  (services.enqueue_message config.azure_deadletter_queue_name m.message_text w)
                  (laws.enqueued m.message_text w) (IsKept-IsStable.enqueue m.message_text w kept))
              (λ _ w kept. kept)

        handle-IsKept : Preserves IsKept (handle config services m)
        handle-IsKept =
            handle-Preserves config services IsKept IsKept-IsStable m deadletter-IsKept
              (λ parsed w u parse done kept.
                delete-IsKept m.message_id m.pop_receipt _
                  (λ same. inr (
                    parsed,
                    ap (parse_json services.from_str) (sym (same_text same)) ∙ parse,
                    laws.processed parsed w u done,
                  ))
                  (IsKept-IsStable.process parsed w kept))

      popped-IsKept :
          (m : ReceivedQueueMessage) (w : W)
          → laws.Waiting m.message_id m.message_text w
          → IsKept w
          → IsKept (handle config services m w).1
      popped-IsKept m w waits (inr s) = inr (handle-IsSettled m w s)
      popped-IsKept m w waits (inl waiting) =
          handle-IsKept m
            (λ same.
              laws.unique w id m.message_text text
                (subst (λ i. laws.Waiting i m.message_text w) (sym same) waits) waiting)
            w (inl waiting)

      -- After the queue has answered
      answer-IsKept :
          (r : Result (ServiceError Uuid) (List ReceivedQueueMessage) × W)
          → ((ms : List ReceivedQueueMessage)
              → r.0 ≡ ok ms
              → All (λ m. laws.Waiting m.message_id m.message_text r.1) ms)
          → IsKept r.1
          → IsKept (then_do (λ ms. handle_popped config services (pop ms)) r).1
      unfolding handle_popped
      answer-IsKept (err e, w) received kept = kept
      answer-IsKept (ok ms, w) received kept = elim (Option-cases (pop ms)) [
        | inl empty ↦ rw empty kept
        | inr (m, found) ↦
            rw found (popped-IsKept m w (pop-All _ ms m (received ms refl) found) kept)
      ]

      -- Under the laws of the queue: whatever a poll does, a message that waits in the processing queue, stands in the
      -- dead-letter queue or has been processed is, afterwards, in one of these three places.
      pub process_once-IsKept : Preserves IsKept (process_once_with_queue config services)
      unfolding process_once_with_queue
      process_once-IsKept w kept =
          answer-IsKept
            (services.receive_messages config.azure_queue_name 1
              config.processing_visibility_timeout_seconds w)
            (laws.received 1 config.processing_visibility_timeout_seconds w)
            (IsKept-IsStable.receive 1 config.processing_visibility_timeout_seconds w kept)
