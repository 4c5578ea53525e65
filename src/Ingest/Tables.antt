-- ===== src/Ingest/Tables.antt =====
-- The rows of `ingest_log` and `ingest_recovery_outbox`, and the SQL clauses that the statements
-- use. An id is the number of a UUID, a time is a number, and the only operation of the outbox is
-- `enqueue_processing`, so that its column is left out.
use lumen_horizon.Prelude.{
  ℕ, zero, suc, ◌==◌, leb, Text, Bool, true, false, List, [], ◌∷◌, Option, none, some,
  if◌then◌else◌,
}
use lumen_horizon.Prelude.Int.{ℤ}

pub data IngestStatus : Type 0 where
  downloading downloaded validated enqueued rejected failed recovery_pending replay_pending :
      IngestStatus

abbrev pub status_number : IngestStatus → ℕ
status_number downloading = 0
status_number downloaded = 1
status_number validated = 2
status_number enqueued = 3
status_number rejected = 4
status_number failed = 5
status_number recovery_pending = 6
status_number replay_pending = 7

abbrev pub same_status : IngestStatus → IngestStatus → Bool
same_status a b = status_number a == status_number b

pub data OutboxStatus : Type 0 where
  pending completed given_up : OutboxStatus

abbrev pub is_pending : OutboxStatus → Bool
is_pending pending = true
is_pending completed = false
is_pending given_up = false

pub record IngestRow : Type 0 where
  pub id : ℕ
  pub product : Text
  pub granule_title : Text
  pub blob_path : Text
  pub tile_h : ℤ
  pub tile_v : ℤ
  pub granule_date : ℕ
  pub status : IngestStatus
  pub error_message : Option Text
  pub created_at : ℕ
  pub updated_at : ℕ

-- `given_up` is the outbox's status `failed`.
pub record OutboxRow : Type 0 where
  pub id : ℕ
  pub ingest_id : ℕ
  pub status : OutboxStatus
  pub reason : Text
  pub attempts : ℕ
  pub error_message : Option Text
  pub created_at : ℕ
  pub updated_at : ℕ
  pub completed_at : Option ℕ

pub record Tables : Type 0 where
  pub log : List IngestRow
  pub outbox : List OutboxRow

module _ {A : Type 0} where
  -- `UPDATE … WHERE`
  abbrev pub update_where : (A → Bool) → (A → A) → List A → List A
  update_where p f [] = []
  update_where p f (x ∷ xs) = (if p x then f x else x) ∷ update_where p f xs

  -- `SELECT … WHERE`
  abbrev pub select_where : (A → Bool) → List A → List A
  select_where p [] = []
  select_where p (x ∷ xs) = let rest = select_where p xs in if p x then x ∷ rest else rest

  abbrev pub find_first : (A → Bool) → List A → Option A
  find_first p [] = none
  find_first p (x ∷ xs) = if p x then some x else find_first p xs

  abbrev pub insert_by : (A → ℕ) → A → List A → List A
  insert_by key x [] = x ∷ []
  insert_by key x (y ∷ ys) = if leb (key x) (key y) then x ∷ y ∷ ys else y ∷ insert_by key x ys

  -- `ORDER BY key ASC`, stable
  abbrev pub order_by : (A → ℕ) → List A → List A
  order_by key [] = []
  order_by key (x ∷ xs) = insert_by key x (order_by key xs)

  -- `LIMIT n`
  abbrev pub take : ℕ → List A → List A
  take zero xs = []
  take (suc n) [] = []
  take (suc n) (x ∷ xs) = x ∷ take n xs
