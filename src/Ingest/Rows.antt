-- ===== src/Ingest/Rows.antt =====
-- One row of the log under the statements that are about other rows.
use lumen_horizon.Prelude.{
  ℕ, ◌==◌, Text, Bool, true, false, ◌||◌, not, any, List, [], ◌∷◌, ◌++◌, if◌then◌else◌, Option,
  none, some, ok, err, All, ◌≡◌, refl, sym, ap, ◌∙◌, ◌⊎◌, inl, inr, Bool-cases, Option-cases, arith,
}
use mathlib.Core.Path.{subst}
use lumen_horizon.Message.Granule.{GranuleCandidate}
use lumen_horizon.Ingest.Tables.{
  IngestStatus, downloading, downloaded, validated, enqueued, rejected, failed, recovery_pending,
  replay_pending, same_status, IngestRow, Tables, update_where, find_first,
}
use lumen_horizon.Ingest.World.{Keeps}
use lumen_horizon.Ingest.Statements.{
  insert_downloading_row, InsertDownloadingRowOutcome, created, already_exists, downloading_row,
  duplicate_key, with_id_is, set_status, is_pending_for, mark_success_status, mark_failed_status,
  create_pending_enqueue_outbox, mark_outbox_completed, mark_outbox_failed, pending_row,
}
use lumen_horizon.Ingest.Columns.{
  IsUnique, or_false-left, or_false-right, find_head, find_skip, find_update, find_append, any_find,
  All-weaken,
}
use lumen_horizon.Ingest.Keeps.{StatementsKeep}
use lumen_horizon.Ingest.Invariant.{
  insert-Keeps, IsWellFormed, same_row_id, IsWellFormed-kept, by_ok, done, create_new, create_again,
}

==-false : (a b : ℕ) → (a == b) ≡ false → (b == a) ≡ false
==-false a b h = ground arith

==-through : (a b c : ℕ) → (a == b) ≡ true → (a == c) ≡ false → (b == c) ≡ false
==-through a b c h k = ground arith

pub ==-flip : (a b : ℕ) → (a == b) ≡ true → (b == a) ≡ true
==-flip a b h = ground arith

-- The row is in the log, under its id.
abbrev pub IsIn : IngestRow → List IngestRow → Type 0
IsIn row xs = find_first (with_id_is row.id) xs ≡ some row

absent :
    (i : ℕ) (x : IngestRow) (xs : List IngestRow)
    → (x.id == i) ≡ true
    → any (λ y. same_row_id y x) xs ≡ false
    → All (λ y. (y.id == i) ≡ false) xs
absent i x [] e _ = tt
absent i x (y ∷ ys) e h = (
  ==-false i y.id (==-through x.id i y.id e (or_false-left (x.id == y.id) _ h)),
  absent i x ys e (or_false-right (x.id == y.id) _ h),
)

-- With unique ids, a row with the id of `row` is `row`.
pub only :
    (row : IngestRow) (xs : List IngestRow)
    → IsUnique same_row_id xs
    → IsIn row xs
    → All (λ x. (x.id == row.id) ≡ true → x ≡ row) xs
only row [] _ _ = tt
only row (x ∷ xs) (u, us) h = elim (Bool-cases (x.id == row.id)) [
  | inl e ↦ (
    λ _. find_head (with_id_is row.id) x row xs e h,
    All-weaken (λ y k k'. cc) xs (absent row.id x xs e u),
  )
  | inr e ↦ (λ k. cc, only row xs us (sym (find_skip (with_id_is row.id) x xs e) ∙ h))
]

-- The row is not touched by an update of another id.
update-IsIn :
    (row : IngestRow) (id : ℕ) (status : IngestStatus) (message : Option Text) (now : ℕ)
    (t : Tables)
    → (row.id == id) ≡ false
    → IsIn row t.log
    → IsIn row (update_where (with_id_is id) (set_status status message now) t.log)
update-IsIn row id status message now t other h =
    find_update (with_id_is row.id) (with_id_is id) (set_status status message now) row (λ x. refl)
      other t.log h

abbrev pub is_settled : IngestStatus → Bool
is_settled failed = true
is_settled enqueued = true
is_settled _ = false

pub settled_cases :
    (status : IngestStatus)
    → is_settled status ≡ true
    → ((same_status status downloading
          || same_status status downloaded
          || same_status status recovery_pending)
        ≡ false)
      × (((same_status status validated || same_status status replay_pending) ≡ false)
          × (same_status status rejected ≡ false))
settled_cases failed h = (refl, (refl, refl))
settled_cases enqueued h = (refl, (refl, refl))
settled_cases downloading h = cc
settled_cases downloaded h = cc
settled_cases validated h = cc
settled_cases rejected h = cc
settled_cases recovery_pending h = cc
settled_cases replay_pending h = cc

-- The tables are well-formed, and the row is in the log.
abbrev pub Holds : IngestRow → Tables → Type 0
Holds row t = IsWellFormed t × IsIn row t.log

new_log :
    (b c : Bool) (t t1 t' : Tables) (id a : ℕ) (m n : Text)
    → t1.log ≡ t.log
    → (if b then err m else if not c then err n else done id t1) ≡ done a t'
    → t'.log ≡ t.log
new_log true c t t1 t' id a m n k e = cc
new_log false false t t1 t' id a m n k e = cc
new_log false true t t1 t' id a m n k e = by_ok (λ u. u.log ≡ t.log) id a t1 t' k e

pub answer_value : {A : Type 0} (a b : A) (t t' : Tables) → done a t ≡ done b t' → a ≡ b
answer_value a b t t' e = ap (λ r. elim r [ ok p ↦ p.0 | err _ ↦ a ]) e

-- The outbox's statements leave the log as it is.
pub create_log :
    (ingest_id : ℕ) (reason : Text) (id now : ℕ) (t t' : Tables) (a : ℕ)
    → create_pending_enqueue_outbox ingest_id reason id now t ≡ ok (a, t')
    → t'.log ≡ t.log
create_log ingest_id reason id now t t' a e =
    elim (Option-cases (find_first (is_pending_for ingest_id) t.outbox)) [
      | inl none_found ↦
          new_log (any (λ r. r.id == id) t.outbox) (any (with_id_is ingest_id) t.log) t
            (record t { outbox = t.outbox ++ pending_row id ingest_id now reason ∷ [] }) t' id a _ _
            refl (sym (create_new ingest_id reason id now t none_found) ∙ e)
      | inr (r, found) ↦
          by_ok (λ u. u.log ≡ t.log) r.id a _ t' refl
            (sym (create_again ingest_id reason id now t r found) ∙ e)
    ]

pub create-Holds :
    (row : IngestRow) (id : ℕ) (reason : Text) (outbox_id : ℕ)
    → Keeps (Holds row) (create_pending_enqueue_outbox id reason outbox_id)
create-Holds row id reason outbox_id now t t' a (i, h) e = (
  (IsWellFormed-kept id).create reason outbox_id now t t' a i e,
  ap (find_first (with_id_is row.id)) (create_log id reason outbox_id now t t' a e) ∙ h,
)

pub others_keep :
    (row : IngestRow) (id : ℕ) → (row.id == id) ≡ false → StatementsKeep (Holds row) id
unfolding mark_success_status mark_failed_status mark_outbox_completed mark_outbox_failed
others_keep row id other =
    let keep = IsWellFormed-kept id in
    record {
      success = λ status now t t' a (i, h) e. (
        keep.success status now t t' a i e,
        by_ok (λ t. IsIn row t.log) _ a _ t' (update-IsIn row id status none now t other h) e,
      );
      failure = λ status message now t t' a (i, h) e. (
        keep.failure status message now t t' a i e,
        by_ok (λ t. IsIn row t.log) _ a _ t' (update-IsIn row id status (some _) now t other h) e,
      );
      create = create-Holds row id;
      complete = λ outbox_id now t t' a (i, h) e.
          (keep.complete outbox_id now t t' a i e, by_ok (λ t. IsIn row t.log) _ a _ t' h e);
      count = λ outbox_id message now t t' a (i, h) e.
          (keep.count outbox_id message now t t' a i e, by_ok (λ t. IsIn row t.log) _ a _ t' h e);
    }

abbrev pub with_new : Tables → IngestRow → Tables
with_new t new_row = record t { log = t.log ++ new_row ∷ [] }

new_row_cases :
    (t t' : Tables) (new_row : IngestRow) (id : ℕ) (a : InsertDownloadingRowOutcome) (b c : Bool)
    → any (with_id_is id) t.log ≡ c
    → (if b
        then done already_exists t
        else if c
        then err duplicate_key
        else done (created id) (with_new t new_row))
      ≡ done a t'
    → ((already_exists ≡ a) × (t ≡ t'))
      ⊎ ((any (with_id_is id) t.log ≡ false) × ((created id ≡ a) × (with_new t new_row ≡ t')))
new_row_cases t t' new_row id a true c k e =
    inl (answer_value already_exists a t t' e, by_ok (λ u. t ≡ u) already_exists a t t' refl e)
new_row_cases t t' new_row id a false true k e = cc
new_row_cases t t' new_row id a false false k e = inr (
  k,
  (
    answer_value (created id) a _ t' e,
    by_ok (λ u. with_new t new_row ≡ u) (created id) a _ t' refl e,
  ),
)

-- What an insert that returns has done
pub insert_cases :
    (g : GranuleCandidate ℕ) (path : Text) (id now : ℕ) (t t' : Tables)
    (a : InsertDownloadingRowOutcome)
    → insert_downloading_row g path id now t ≡ ok (a, t')
    → ((already_exists ≡ a) × (t ≡ t'))
      ⊎ ((any (with_id_is id) t.log ≡ false)
          × ((created id ≡ a) × (with_new t (downloading_row id now g path) ≡ t')))
unfolding insert_downloading_row
insert_cases g path id now t t' a e =
    new_row_cases t t' (downloading_row id now g path) id a _ _ refl e

pub insert-Holds :
    (row : IngestRow) (g : GranuleCandidate ℕ) (path : Text) (id : ℕ)
    → Keeps (Holds row) (insert_downloading_row g path id)
insert-Holds row g path id now t t' a (i, h) e = (
  insert-Keeps g path id now t t' a i e,
  elim (insert_cases g path id now t t' a e) [
    | inl (_, same) ↦ subst (λ u. IsIn row u.log) same h
    | inr (_, (_, same)) ↦
        subst (λ u. IsIn row u.log) same
          (find_append (with_id_is row.id) t.log (downloading_row id now g path ∷ []) row h)
  ],
)

pub insert_known :
    (row : IngestRow) (g : GranuleCandidate ℕ) (path : Text) (id new_id now : ℕ) (t t' : Tables)
    → IsIn row t.log
    → insert_downloading_row g path id now t ≡ ok (created new_id, t')
    → (row.id == new_id) ≡ false
insert_known row g path id new_id now t t' h e =
    elim (insert_cases g path id now t t' (created new_id) e) [
      | inl (other, _) ↦ cc
      | inr (fresh, (same, _)) ↦
          subst (λ o. (row.id == elim o [ created i ↦ i | already_exists ↦ id ]) ≡ false) same
            (any_find (with_id_is row.id) (with_id_is id) t.log row fresh h)
    ]
