-- ===== src/Ingest/Taken.antt =====
-- A settled row is not among those that a recovery takes up.
use lumen_horizon.Prelude.{
  ℕ, ◌==◌, Bool, true, false, ◌&&◌, List, [], ◌∷◌, ok, All, All-append, ◌≡◌, refl, sym, ap, ◌∙◌,
  inl, inr, Bool-cases,
}
use mathlib.Core.Path.{subst}
use lumen_horizon.Ingest.Tables.{IngestRow, OutboxRow, Tables, is_pending}
use lumen_horizon.Ingest.Statements.{
  PendingOutboxRecord, is_recoverable, awaits_enqueue, join_row, join_rows, recoverable_raw_rows,
  pending_enqueue_outbox,
}
use lumen_horizon.Ingest.Columns.{All-weaken, select_where-All, order_by-All, take-All}
use lumen_horizon.Ingest.Rows.{==-flip, only, answer_value, Holds}

and_true-right : (b c : Bool) → (b && c) ≡ true → c ≡ true
and_true-right true c h = h
and_true-right false c h = cc

conflict : {b : Bool} → true ≡ false → b ≡ false
conflict h = cc

pub and_false : (b c : Bool) → c ≡ false → (b && c) ≡ false
and_false true c h = h
and_false false c h = refl

-- The rows that are taken up are other rows.
not_taken :
    (row x : IngestRow) (q : IngestRow → Bool)
    → q row ≡ false
    → ((x.id == row.id) ≡ true → x ≡ row)
    → q x ≡ true
    → (row.id == x.id) ≡ false
not_taken row x q settled same h = elim (Bool-cases (row.id == x.id)) [
  | inl e ↦ conflict (sym h ∙ ap q (same (==-flip row.id x.id e)) ∙ settled)
  | inr e ↦ e
]

module _ (row : IngestRow) where
  pub rows_known :
      (now : ℕ) (t t' : Tables) (rs : List IngestRow)
      → is_recoverable row ≡ false
      → Holds row t
      → recoverable_raw_rows now t ≡ ok (rs, t')
      → All (λ r. (row.id == r.id) ≡ false) rs
  unfolding recoverable_raw_rows
  rows_known now t t' rs settled (i, h) e =
      let P = λ (r : IngestRow). (row.id == r.id) ≡ false in
      subst (All P) (answer_value _ rs t t' e) (
        take-All P 100 _ (
          order_by-All P (λ r. r.updated_at) _
            (order_by-All P (λ r. r.created_at) _
              (select_where-All P is_recoverable t.log (
                All-weaken (λ x. not_taken row x is_recoverable settled) t.log
                  (only row t.log i.log_ids h))))))

  join_row-All :
      (b : OutboxRow) (rs : List IngestRow)
      → All (λ x. awaits_enqueue x ≡ true → (row.id == x.id) ≡ false) rs
      → All (λ r. (row.id == r.ingest_id) ≡ false) (join_row b rs)
  join_row-All b [] _ = tt
  join_row-All b (x ∷ xs) (h, hs) = elim (Bool-cases (x.id == b.ingest_id && awaits_enqueue x)) [
    | inl e ↦ rw e (h (and_true-right _ _ e), join_row-All b xs hs)
    | inr e ↦ rw e (join_row-All b xs hs)
  ]

  join_rows-All :
      (bs : List OutboxRow) (rs : List IngestRow)
      → All (λ x. awaits_enqueue x ≡ true → (row.id == x.id) ≡ false) rs
      → All (λ r. (row.id == r.ingest_id) ≡ false) (join_rows bs rs)
  join_rows-All [] rs h = tt
  join_rows-All (b ∷ bs) rs h = elim (Bool-cases (is_pending b.status)) [
    | inl e ↦ rw e (
        All-append _ (join_row b rs) (join_rows bs rs) (join_row-All b rs h)
          (join_rows-All bs rs h))
    | inr e ↦ rw e (join_rows-All bs rs h)
  ]

  pub records_known :
      (now : ℕ) (t t' : Tables) (rs : List PendingOutboxRecord)
      → awaits_enqueue row ≡ false
      → Holds row t
      → pending_enqueue_outbox now t ≡ ok (rs, t')
      → All (λ r. (row.id == r.ingest_id) ≡ false) rs
  unfolding pending_enqueue_outbox
  records_known now t t' rs settled (i, h) e =
      let P = λ (r : PendingOutboxRecord). (row.id == r.ingest_id) ≡ false in
      subst (All P) (answer_value _ rs t t' e) (
        take-All P 100 _ (
          order_by-All P (λ r. r.outbox_created_at) _
            (join_rows-All t.outbox t.log (
              All-weaken (λ x. not_taken row x awaits_enqueue settled) t.log
                (only row t.log i.log_ids h)))))
