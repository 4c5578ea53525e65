-- ===== src/Ingest/World.antt =====
-- The world of a job: the two tables, and all that is outside. Whether a statement reaches the
-- database is decided outside too: it is applied, refused, or applied with the answer lost.
use lumen_horizon.Prelude.{ℕ, Text, List, Result, ok, err, ◌≡◌, refl}
use lumen_horizon.Action.{Action, Preserves}
use lumen_horizon.Ingest.Tables.{Tables}
use lumen_horizon.Ingest.Failures.{EarthdataError, StorageError}
use lumen_horizon.Message.Validate.{ProcessingMessage, ValidationError}
use lumen_horizon.Message.Granule.{GranuleCandidate}

pub data Fate : Type 0 where
  applied : Fate
  refused : Text → Fate
  answer_lost : Text → Fate

-- The clients and the clock, over the state `S` of everything that is not a table.
pub record Outside (S : Type 0) : Type 0 where
  pub database : S → Fate × S
  pub now : S → ℕ
  pub new_v4 : S → ℕ × S
  pub new_blob_client : S → Result StorageError (Unit {0}) × S
  pub new_queue_client : S → Result StorageError (Unit {0}) × S
  pub new_earthdata_client : S → Result EarthdataError (Unit {0}) × S
  pub earthdata_download : GranuleCandidate ℕ → S → Result EarthdataError (List ℕ) × S
  pub upload_raw_blob : Text → List ℕ → S → Result StorageError (Unit {0}) × S
  pub download_raw_blob : Text → S → Result StorageError (List ℕ) × S
  pub enqueue_processing_message :
      Text → ProcessingMessage ℕ ℕ → S → Result StorageError (Unit {0}) × S
  pub date_text : ℕ → Text
  pub status_text : ℕ → Text
  pub message_error_text : ValidationError → Text

pub record World (S : Type 0) : Type 0 where
  pub tables : Tables
  pub outer : S

-- A statement, at a time, on the tables: an answer and the new tables, or a violated constraint.
abbrev pub Statement : Type 0 → Type 0
Statement A = ℕ → Tables → Result Text (A × Tables)

-- A violated constraint changes nothing, whatever becomes of the answer.
abbrev pub answer : {A : Type 0} → Tables → Result Text (A × Tables) → Fate → Result Text A × Tables
answer t r (refused e) = (err e, t)
answer t (err e) applied = (err e, t)
answer t (err e) (answer_lost lost) = (err lost, t)
answer t (ok (a, t')) applied = (ok a, t')
answer t (ok (a, t')) (answer_lost lost) = (err lost, t')

module _ {S : Type 0} (o : Outside S) where
  unfoldable pub query : {A : Type 0} → Statement A → Action (World S) Text A
  query st w =
      let (fate, outer) = o.database w.outer in
      let (reply, tables) = answer w.tables (st (o.now outer) w.tables) fate in
      (reply, record { tables = tables; outer = outer })

  -- A call that touches no table
  abbrev pub call : {E A : Type 0} → (S → Result E A × S) → Action (World S) E A
  call f w = let (reply, outer) = f w.outer in (reply, record { tables = w.tables; outer = outer })

  -- `Uuid::new_v4()`, at the head of a statement
  unfoldable pub with_id : {A : Type 0} → (ℕ → Statement A) → Action (World S) Text A
  unfolding query
  with_id st w =
      let (id, outer) = o.new_v4 w.outer in
      query (st id) (record { tables = w.tables; outer = outer })

-- What holds of the tables is kept by a statement that keeps it.
abbrev pub Keeps : (Tables → Type 0) → {A : Type 0} → Statement A → Type 0
Keeps I {A} st = (now : ℕ) (t t' : Tables) (a : A) → I t → st now t ≡ ok (a, t') → I t'

abbrev pub OfTables : {S : Type 0} → (Tables → Type 0) → World S → Type 0
OfTables I w = I w.tables

answer-Keeps :
    {A : Type 0} (I : Tables → Type 0) (t : Tables) (r : Result Text (A × Tables)) (fate : Fate)
    → I t
    → ((a : A) (t' : Tables) → r ≡ ok (a, t') → I t')
    → I (answer t r fate).1
answer-Keeps I t r (refused e) i k = i
answer-Keeps I t (err e) applied i k = i
answer-Keeps I t (err e) (answer_lost lost) i k = i
answer-Keeps I t (ok (a, t')) applied i k = k a t' refl
answer-Keeps I t (ok (a, t')) (answer_lost lost) i k = k a t' refl

answer_ok :
    {A : Type 0} (t : Tables) (r : Result Text (A × Tables)) (fate : Fate) (a : A)
    → (answer t r fate).0 ≡ ok a
    → r ≡ ok (a, (answer t r fate).1)
answer_ok t r (refused e) a h = cc
answer_ok t (err e) applied a h = cc
answer_ok t (err e) (answer_lost lost) a h = cc
answer_ok t (ok (b, t')) applied a h = cc
answer_ok t (ok (b, t')) (answer_lost lost) a h = cc

module _ {S : Type 0} (o : Outside S) {A : Type 0} where
  pub query-Preserves :
      (I : Tables → Type 0) (st : Statement A) → Keeps I st → Preserves (OfTables I) (query o st)
  unfolding query
  query-Preserves I st k w i =
      let (fate, outer) = o.database w.outer in
      answer-Keeps I w.tables (st (o.now outer) w.tables) fate i
        (λ a t' e. k (o.now outer) w.tables t' a i e)

  pub with_id-Preserves :
      (I : Tables → Type 0) (st : ℕ → Statement A)
      → ((id : ℕ) → Keeps I (st id))
      → Preserves (OfTables I) (with_id o st)
  unfolding with_id
  with_id-Preserves I st k w i =
      query-Preserves I (st (o.new_v4 w.outer).0) (k (o.new_v4 w.outer).0) _ i

  -- An answer that has come back is the statement's, and the tables are those behind it.
  pub query_ok :
      (st : Statement A) (w : World S) (a : A)
      → (query o st w).0 ≡ ok a
      → (now : ℕ) × (st now w.tables ≡ ok (a, (query o st w).1.tables))
  unfolding query
  query_ok st w a h =
      (o.now (o.database w.outer).1, answer_ok w.tables _ (o.database w.outer).0 a h)
