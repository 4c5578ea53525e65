-- ===== src/Worker/Tests.antt =====
-- A world with one slot in the processing queue. It obeys the laws, and gives the witnesses.
use lumen_horizon.Prelude.{
  ℕ, Text, codes, true, Result, ok, err, List, [], ◌∷◌, Option, none, some, ◌≡◌, ◌⊎◌, inl, inr,
  refl, sym, ◌∙◌, ap, if◌then◌else◌, Bool-cases, All, arith,
}
use lumen_horizon.Text.{text_eq, text_eq_iff}
use lumen_horizon.Message.Product.{is_in}
use lumen_horizon.Message.Validate.{ProcessingMessage}
use lumen_horizon.Worker.Services.{
  ServiceError, ReceivedQueueMessage, handled_message, no_message, WorkerConfig, Services,
  should_deadletter,
}
use lumen_horizon.Worker.Laws.{QueueLaws}
use lumen_horizon.Worker.Poll.{pop, process_once_with_queue, stops, again}
use lumen_horizon.Worker.Loss.{IsSettled, IsKept, process_once-IsKept}
use lumen_horizon.Worker.Handled.{process_once-handled, worker_run-IsKept}

record World : Type 0 where
  queue : Option ReceivedQueueMessage
  dead : List Text
  done : List (ProcessingMessage ℕ (Unit {0}))

abbrev In : {A : Type 0} → A → List A → Type 0
In a [] = ⊥
In a (x ∷ xs) = (a ≡ x) ⊎ In a xs

abbrev drop_id : Text → Option ReceivedQueueMessage → Option ReceivedQueueMessage
drop_id id none = none
drop_id id (some m) = if text_eq m.message_id id then none else some m

abbrev slot : Option ReceivedQueueMessage → List ReceivedQueueMessage
slot none = []
slot (some m) = m ∷ []

abbrev config : WorkerConfig
config = record {
  azure_queue_name = codes "viirs";
  azure_deadletter_queue_name = codes "viirs-dead";
  processing_visibility_timeout_seconds = 900;
  processing_max_dequeue_count = 5;
}

abbrev services : Services World ℕ (Unit {0})
services = record {
  receive_messages = λ q n seconds w. (ok (slot w.queue), w);
  delete_message = λ q id receipt w. (ok tt, record w { queue = drop_id id w.queue });
  enqueue_message = λ q text w. (ok tt, record w { dead = text ∷ w.dead });
  connect = λ w. (ok tt, w);
  mark_processing_failed = λ ingest error w. (ok tt, w);
  mark_processing_deadlettered = λ ingest error w. (ok tt, w);
  process_parsed_message = λ m w. (ok tt, record w { done = m ∷ w.done });
  from_str = λ text. err (codes "expected value");
  to_string = λ error. codes "error";
}

abbrev IsWaiting : Text → Text → World → Type 0
IsWaiting id text w =
    (m : ReceivedQueueMessage) × (w.queue ≡ some m) × (m.message_id ≡ id) × (m.message_text ≡ text)

slot_unique :
    (o : Option ReceivedQueueMessage) (m n : ReceivedQueueMessage) → o ≡ some m → o ≡ some n → m ≡ n
slot_unique o m n e f = cc

slot_received :
    (o : Option ReceivedQueueMessage) (ms : List ReceivedQueueMessage)
    → (let r : Result (ServiceError ℕ) (List ReceivedQueueMessage) = ok (slot o) in r) ≡ ok ms
    → All
        (λ m.
          (n : ReceivedQueueMessage) × (o ≡ some n)
          × (n.message_id ≡ m.message_id)
          × (n.message_text ≡ m.message_text))
        ms
slot_received none [] e = tt
slot_received none (m ∷ ms) e = cc
slot_received (some n) [] e = cc
slot_received (some n) (m ∷ []) e = ((n, refl, cc, cc), tt)
slot_received (some n) (m ∷ m' ∷ ms) e = cc

is_in_same : (t : Text) (ts : List Text) → is_in t (t ∷ ts) ≡ true
unfolding is_in
is_in_same t ts = rw ((text_eq_iff t t).1 refl) refl

is_in-cons : (t u : Text) (ts : List Text) → is_in t ts ≡ true → is_in t (u ∷ ts) ≡ true
unfolding is_in
is_in-cons t u ts h = ground arith

drop_other :
    (id id' text : Text) (m : ReceivedQueueMessage)
    → m.message_id ≡ id
    → m.message_text ≡ text
    → ((n : ReceivedQueueMessage) × (drop_id id' (some m) ≡ some n)
        × (n.message_id ≡ id)
        × (n.message_text ≡ text))
      ⊎ (id ≡ id')
drop_other id id' text m i t = elim (Bool-cases (text_eq m.message_id id')) [
  | inl e ↦ inr (sym i ∙ (text_eq_iff m.message_id id').0 e)
  | inr e ↦ inl (m, rw e refl, i, t)
]

delete-IsWaiting :
    (id text id' receipt : Text) (w : World)
    → IsWaiting id text w
    → IsWaiting id text (services.delete_message (codes "viirs") id' receipt w).1 ⊎ (id ≡ id')
delete-IsWaiting id text id' receipt w (m, e, i, t) = rw e (drop_other id id' text m i t)

laws : QueueLaws config services
laws = record {
  Waiting = IsWaiting;
  Dead = λ text w. is_in text w.dead ≡ true;
  Done = λ m w. In m w.done;
  unique = λ w id text text' (m, e, _, t) (n, f, _, u).
      sym t ∙ (ap (λ x. x.message_text) (slot_unique w.queue m n e f) ∙ u);
  received = λ n seconds w ms e. slot_received w.queue ms e;
  enqueued = λ text w u e. is_in_same text w.dead;
  processed = λ m w u e. inl refl;
  delete_waiting = delete-IsWaiting;
  delete_dead = λ text id receipt w h. h;
  delete_done = λ m id receipt w h. h;
  waiting_stable = λ id text. record {
    receive = λ _ _ _ h. h;
    enqueue = λ _ _ h. h;
    process = λ _ _ h. h;
    connection = λ _ h. h;
    failure = λ _ _ _ h. h;
    deadlettering = λ _ _ _ h. h;
  };
  dead_stable = λ text. record {
    receive = λ _ _ _ h. h;
    enqueue = λ other w h. is_in-cons text other w.dead h;
    process = λ _ _ h. h;
    connection = λ _ h. h;
    failure = λ _ _ _ h. h;
    deadlettering = λ _ _ _ h. h;
  };
  done_stable = λ m. record {
    receive = λ _ _ _ h. h;
    enqueue = λ _ _ h. h;
    process = λ _ _ h. inr h;
    connection = λ _ h. h;
    failure = λ _ _ _ h. h;
    deadlettering = λ _ _ _ h. h;
  };
}

-- A text that is no message, received for the fifth time.
abbrev poison : ReceivedQueueMessage
poison = record {
  message_id = codes "m1";
  pop_receipt = codes "p";
  dequeue_count = 5;
  message_text = codes "{";
}

abbrev before : World
before = record { queue = some poison; dead = []; done = [] }

abbrev after : World
after = record { queue = none; dead = codes "{" ∷ []; done = [] }

poison_handled : process_once_with_queue config services before ≡ (ok handled_message, after)
unfolding process_once_with_queue should_deadletter text_eq
poison_handled = refl

then_empty : process_once_with_queue config services after ≡ (ok no_message, after)
unfolding process_once_with_queue
then_empty = refl

waits : IsKept config services laws (codes "{") (codes "m1") before
unfolding laws
waits = inl (poison, refl, refl, refl)

process_once-IsKept_example :
    IsKept config services laws
      (codes "{")
      (codes "m1")
      (process_once_with_queue config services before).1
process_once-IsKept_example =
    process_once-IsKept config services laws (codes "{") (codes "m1") before waits

process_once-handled_example :
    (m : ReceivedQueueMessage) × (ms : List ReceivedQueueMessage) × ((services.receive_messages
        (codes "viirs")
        1
        900
        before).0
      ≡ ok ms)
    × (pop ms ≡ some m)
    × IsSettled config services laws m.message_text
        (process_once_with_queue config services before).1
process_once-handled_example =
    process_once-handled config services laws before (ap (λ r. r.0) poison_handled)

worker_run-IsKept_example : IsKept config services laws (codes "{") (codes "m1") after
worker_run-IsKept_example =
    worker_run-IsKept config services laws (codes "m1") (codes "{")
      (again poison_handled (stops then_empty)) waits
