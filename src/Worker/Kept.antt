-- ===== src/Worker/Kept.antt =====
-- A predicate on the world that the worker's calls preserve is preserved by the worker.
use lumen_horizon.Prelude.{
  Result-cases, Bool, true, false, Result, ok, err, List, [], ◌∷◌, Option, some, All, ◌≡◌, inl, inr,
  refl,
}
use lumen_horizon.Message.Validate.{ProcessingMessage, parse_json}
use lumen_horizon.Action.{Preserves, bind-Preserves, branch-Preserves, then_do-Preserves}
use lumen_horizon.Worker.Services.{
  ServiceError, processing_message, ReceivedQueueMessage, WorkerConfig, Services,
  is_missing_ingest_log_error,
}
use lumen_horizon.Worker.Laws.{IsStable}
use mathlib.Core.Path.{subst}
use lumen_horizon.Worker.Poll.{
  pop, mark_processing_failure, deadletter, is_exhausted, malformed, failed, settle, handle,
}

pub some_injective : {A : Type 0} (a b : A) → (let o : Option A = some a in o) ≡ some b → a ≡ b
some_injective a b e = cc

pub pop-All :
    (P : ReceivedQueueMessage → Type 0) (ms : List ReceivedQueueMessage) (m : ReceivedQueueMessage)
    → All P ms
    → pop ms ≡ some m
    → P m
unfolding pop
pop-All P [] m h e = cc
pop-All P (n ∷ []) m (h, _) e = subst P (some_injective n m e) h
pop-All P (n ∷ n' ∷ ms) m (_, h) e = pop-All P (n' ∷ ms) m h e

module _ {W Uuid Date : Type 0} (config : WorkerConfig) (services : Services W Uuid Date) where
  module _ (P : W → Type 0) (stable : IsStable config services P) where
    mark-Preserves :
        (m : ProcessingMessage Uuid Date) (error : ServiceError Uuid) (b : Bool)
        → Preserves P (mark_processing_failure config services m error b)
    unfolding mark_processing_failure
    mark-Preserves m error b = bind-Preserves P services.connect _ stable.connection (λ _.
        branch-Preserves P b _ _ (stable.deadlettering m.ingest_id (services.to_string error))
          (stable.failure m.ingest_id (services.to_string error)))

    -- The poll keeps `P` where the handling of a failed and of a processed message does.
    module _ (m : ReceivedQueueMessage) (moved : Preserves P (deadletter config services m)) where
      malformed-Preserves :
          (error : ServiceError Uuid) → Preserves P (malformed config services m error)
      unfolding malformed
      malformed-Preserves error =
          branch-Preserves P (is_exhausted config services m) _ _ moved (λ w p. p)

      failed-Preserves :
          (parsed : ProcessingMessage Uuid Date) (error : ServiceError Uuid)
          → Preserves P (failed config services m parsed error)
      unfolding failed
      failed-Preserves parsed error =
          branch-Preserves P (is_missing_ingest_log_error error) _ _ moved (
            branch-Preserves P (is_exhausted config services m) _ _
              (bind-Preserves P _ _ (mark-Preserves parsed error true) (λ _. moved))
              (bind-Preserves P _ _ (mark-Preserves parsed error false) (λ _ w p. p)))

      settle-Preserves :
          (parsed : ProcessingMessage Uuid Date) (r : Result (ServiceError Uuid) (Unit {0}) × W)
          → ((u : Unit {0})
              → r.0 ≡ ok u
              → P
                  (services.delete_message config.azure_queue_name m.message_id m.pop_receipt
                    r.1).1)
          → P r.1
          → P (settle config services m parsed r).1
      unfolding settle
      settle-Preserves parsed (err error, w) deleted p = failed-Preserves parsed error w p
      settle-Preserves parsed (ok u, w) deleted p =
          then_do-Preserves P _ (λ _ w p. p) _ (deleted u refl)

      pub handle-Preserves :
          ((parsed : ProcessingMessage Uuid Date) (w : W) (u : Unit {0})
            → parse_json services.from_str m.message_text ≡ ok parsed
            → (services.process_parsed_message parsed w).0 ≡ ok u
            → P w
            → P
                (services.delete_message config.azure_queue_name m.message_id m.pop_receipt
                  (services.process_parsed_message parsed w).1).1)
          → Preserves P (handle config services m)
      unfolding handle
      handle-Preserves deleted w p =
          elim (Result-cases (parse_json services.from_str m.message_text)) [
            | inl (e, parse) ↦ rw (parse, handle) (malformed-Preserves (processing_message e) w p)
            | inr (parsed, parse) ↦
                rw (parse, handle)
                  (settle-Preserves parsed (services.process_parsed_message parsed w)
                    (λ u done. deleted parsed w u parse done p) (stable.process parsed w p))
          ]
