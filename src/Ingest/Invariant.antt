-- ===== src/Ingest/Invariant.antt =====
-- The invariant of the two tables, and that every statement of the jobs keeps it.
use lumen_horizon.Prelude.{
  ℕ, ◌+◌, ◌==◌, leb, Text, Bool, true, false, ◌&&◌, not, any, [], ◌∷◌, ◌++◌, if◌then◌else◌, Option,
  none, some, Result, ok, err, All, ◌≡◌, refl, sym, ap, ◌∙◌, ◌⊎◌, codes, inl, inr, Option-cases,
  All-append,
}
use mathlib.Core.Path.{subst}
use lumen_horizon.Message.Granule.{GranuleCandidate}
use lumen_horizon.Ingest.Tables.{
  IngestStatus, OutboxStatus, given_up, take, is_pending, IngestRow, OutboxRow, Tables,
  update_where, find_first, replay_pending,
}
use lumen_horizon.Ingest.World.{Keeps}
use lumen_horizon.Ingest.Statements.{
  same_key, with_id_is, outbox_id_is, is_pending_for, is_rejected_row, set_status, renew, complete,
  count_failure, pending_row, downloading_row, duplicate_key, insert_downloading_row,
  mark_success_status, mark_failed_status, truncate_error_message, create_pending_enqueue_outbox,
  mark_outbox_completed, mark_outbox_failed, set_replay_pending, outbox_max_attempts,
  InsertDownloadingRowOutcome, created, already_exists,
}
use lumen_horizon.Ingest.Columns.{
  IsUnique, append-IsUnique, update_where-IsUnique, update_where-All, any-update_where,
  any_append_true, find_first-none, false_right, All-weaken,
}
use lumen_horizon.Ingest.Keeps.{StatementsKeep}

abbrev pub same_row_id : IngestRow → IngestRow → Bool
same_row_id a b = b.id == a.id

abbrev pub same_record_id : OutboxRow → OutboxRow → Bool
same_record_id a b = b.id == a.id

-- Two pending records of one row
abbrev pub both_pending : OutboxRow → OutboxRow → Bool
both_pending a b = is_pending a.status && (is_pending b.status && b.ingest_id == a.ingest_id)

abbrev pub is_overdue : OutboxRow → Bool
is_overdue r = is_pending r.status && leb outbox_max_attempts r.attempts

-- Ids and keys are unique, a row has one pending record at most, a pending record has attempts
-- left, and every record is of a row of the log.
pub record IsWellFormed (t : Tables) : Type 0 where
  pub log_ids : IsUnique same_row_id t.log
  pub keys : IsUnique same_key t.log
  pub record_ids : IsUnique same_record_id t.outbox
  pub one_pending : IsUnique both_pending t.outbox
  pub attempts_left : All (λ r. is_overdue r ≡ false) t.outbox
  pub rows_exist : All (λ r. any (with_id_is r.ingest_id) t.log ≡ true) t.outbox

abbrev pub done : {A : Type 0} → A → Tables → Result Text (A × Tables)
done a t = ok (a, t)

pub by_ok :
    {A : Type 0} (I : Tables → Type 0) (a b : A) (t t' : Tables) → I t → done a t ≡ done b t' → I t'
by_ok I a b t t' i e = subst I (ap (λ r. elim r [ ok p ↦ p.1 | err _ ↦ t ]) e) i

pub empty-IsWellFormed : IsWellFormed (record { log = []; outbox = [] })
empty-IsWellFormed = record {
  log_ids = tt;
  keys = tt;
  record_ids = tt;
  one_pending = tt;
  attempts_left = tt;
  rows_exist = tt;
}

-- An update of the log that keeps ids and keys
log_update :
    (p : IngestRow → Bool) (status : IngestStatus) (message : Option Text) (now : ℕ) (t : Tables)
    → IsWellFormed t
    → IsWellFormed (record t { log = update_where p (set_status status message now) t.log })
log_update p status message now t i =
    let f = set_status status message now in
    record {
      log_ids = update_where-IsUnique same_row_id p f (λ x y h. h) (λ x y h. h) t.log i.log_ids;
      keys = update_where-IsUnique same_key p f (λ x y h. h) (λ x y h. h) t.log i.keys;
      record_ids = i.record_ids;
      one_pending = i.one_pending;
      attempts_left = i.attempts_left;
      rows_exist =
          All-weaken (λ r h. any-update_where p f (with_id_is r.ingest_id) (λ x. refl) t.log ∙ h)
            t.outbox i.rows_exist;
    }

-- An update of the outbox that keeps ids, and makes no record pending nor overdue
outbox_update :
    (p : OutboxRow → Bool) (f : OutboxRow → OutboxRow) (t : Tables)
    → ((x : OutboxRow) → (f x).id ≡ x.id)
    → ((x : OutboxRow) → (f x).ingest_id ≡ x.ingest_id)
    → ((x : OutboxRow)
        → (is_pending (f x).status ≡ false) ⊎ (is_pending (f x).status ≡ is_pending x.status))
    → ((x : OutboxRow) → is_overdue x ≡ false → is_overdue (f x) ≡ false)
    → IsWellFormed t
    → IsWellFormed (record t { outbox = update_where p f t.outbox })
outbox_update p f t id_kept ingest_id_kept not_more overdue i = record {
  log_ids = i.log_ids;
  keys = i.keys;
  record_ids =
      update_where-IsUnique same_record_id p f (λ x y h. rw (id_kept y) h)
        (λ x y h. rw (id_kept x) h) t.outbox i.record_ids;
  one_pending =
      update_where-IsUnique both_pending p f
        (λ x y h. elim (not_more y) [ inl e ↦ rw e refl | inr e ↦ rw e (rw (ingest_id_kept y) h) ])
        (λ x y h. elim (not_more x) [
          | inl e ↦ rw e (false_right (is_pending y.status))
          | inr e ↦ rw e (rw (ingest_id_kept x) h)
        ])
        t.outbox i.one_pending;
  attempts_left = update_where-All (λ r. is_overdue r ≡ false) p f overdue t.outbox i.attempts_left;
  rows_exist =
      update_where-All (λ r. any (with_id_is r.ingest_id) t.log ≡ true) p f
        (λ x h. rw (ingest_id_kept x) h) t.outbox i.rows_exist;
}

log_append :
    (row : IngestRow) (t : Tables)
    → any (same_key row) t.log ≡ false
    → any (same_row_id row) t.log ≡ false
    → IsWellFormed t
    → IsWellFormed (record t { log = t.log ++ row ∷ [] })
log_append row t key id i = record {
  log_ids = append-IsUnique same_row_id t.log row i.log_ids id;
  keys = append-IsUnique same_key t.log row i.keys key;
  record_ids = i.record_ids;
  one_pending = i.one_pending;
  attempts_left = i.attempts_left;
  rows_exist =
      All-weaken (λ r h. any_append_true (with_id_is r.ingest_id) t.log (row ∷ []) h) t.outbox
        i.rows_exist;
}

outbox_append :
    (r : OutboxRow) (t : Tables)
    → any (same_record_id r) t.outbox ≡ false
    → any (both_pending r) t.outbox ≡ false
    → is_overdue r ≡ false
    → any (with_id_is r.ingest_id) t.log ≡ true
    → IsWellFormed t
    → IsWellFormed (record t { outbox = t.outbox ++ r ∷ [] })
outbox_append r t id others overdue exists i = record {
  log_ids = i.log_ids;
  keys = i.keys;
  record_ids = append-IsUnique same_record_id t.outbox r i.record_ids id;
  one_pending = append-IsUnique both_pending t.outbox r i.one_pending others;
  attempts_left = All-append _ t.outbox (r ∷ []) i.attempts_left (overdue, tt);
  rows_exist = All-append _ t.outbox (r ∷ []) i.rows_exist (exists, tt);
}

insert_cases :
    (row : IngestRow) (t t' : Tables) (a new_row : InsertDownloadingRowOutcome) (b c : Bool)
    → any (same_key row) t.log ≡ b
    → any (same_row_id row) t.log ≡ c
    → IsWellFormed t
    → (if b
        then done already_exists t
        else if c
        then err duplicate_key
        else done new_row (record t { log = t.log ++ row ∷ [] }))
      ≡ done a t'
    → IsWellFormed t'
insert_cases row t t' a new_row true c _ _ i e = by_ok IsWellFormed already_exists a t t' i e
insert_cases row t t' a new_row false true _ _ i e = cc
insert_cases row t t' a new_row false false key id i e =
    by_ok IsWellFormed new_row a _ t' (log_append row t key id i) e

pub insert-Keeps :
    (g : GranuleCandidate ℕ) (path : Text) (id : ℕ)
    → Keeps IsWellFormed (insert_downloading_row g path id)
unfolding insert_downloading_row
insert-Keeps g path id now t t' a i e =
    insert_cases (downloading_row id now g path) t t' a (created id) _ _ refl refl i e

new_record_cases :
    (r : OutboxRow) (t t' : Tables) (a : ℕ) (b c : Bool)
    → any (same_record_id r) t.outbox ≡ b
    → any (with_id_is r.ingest_id) t.log ≡ c
    → any (both_pending r) t.outbox ≡ false
    → is_overdue r ≡ false
    → IsWellFormed t
    → (if b
        then err duplicate_key
        else if not c
        then err (codes "insert violates foreign key constraint")
        else done r.id (record t { outbox = t.outbox ++ r ∷ [] }))
      ≡ done a t'
    → IsWellFormed t'
new_record_cases r t t' a true c _ _ _ _ i e = cc
new_record_cases r t t' a false false _ _ _ _ i e = cc
new_record_cases r t t' a false true id exists others overdue i e =
    by_ok IsWellFormed r.id a _ t' (outbox_append r t id others overdue exists i) e

pub create_new :
    (ingest_id : ℕ) (reason : Text) (id now : ℕ) (t : Tables)
    → find_first (is_pending_for ingest_id) t.outbox ≡ none
    → create_pending_enqueue_outbox ingest_id reason id now t ≡ (
        if any (λ r. r.id == id) t.outbox
        then err duplicate_key
        else if not (any (with_id_is ingest_id) t.log)
        then err (codes "insert violates foreign key constraint")
        else done id (record t { outbox = t.outbox ++ pending_row id ingest_id now reason ∷ [] }))
unfolding create_pending_enqueue_outbox
create_new ingest_id reason id now t h = rw (h, create_pending_enqueue_outbox) refl

pub create_again :
    (ingest_id : ℕ) (reason : Text) (id now : ℕ) (t : Tables) (r : OutboxRow)
    → find_first (is_pending_for ingest_id) t.outbox ≡ some r
    → create_pending_enqueue_outbox ingest_id reason id now t
      ≡ done r.id (record t {
        outbox = update_where (is_pending_for ingest_id) (renew now reason) t.outbox;
      })
unfolding create_pending_enqueue_outbox
create_again ingest_id reason id now t r h = rw (h, create_pending_enqueue_outbox) refl

create-Keeps :
    (ingest_id : ℕ) (reason : Text) (id : ℕ)
    → Keeps IsWellFormed (create_pending_enqueue_outbox ingest_id reason id)
create-Keeps ingest_id reason id now t t' a i e =
    elim (Option-cases (find_first (is_pending_for ingest_id) t.outbox)) [
      | inl none_found ↦
          new_record_cases (pending_row id ingest_id now reason) t t' a _ _ refl refl
            (find_first-none (is_pending_for ingest_id) t.outbox none_found) refl i
            (sym (create_new ingest_id reason id now t none_found) ∙ e)
      | inr (r, found) ↦
          by_ok IsWellFormed r.id a _ t'
            (outbox_update (is_pending_for ingest_id) (renew now reason) t (λ x. refl) (λ x. refl)
              (λ x. inr refl) (λ x h. h) i)
            (sym (create_again ingest_id reason id now t r found) ∙ e)
    ]

pub replay-Keeps : (id : ℕ) → Keeps IsWellFormed (set_replay_pending id)
unfolding set_replay_pending
replay-Keeps id now t t' a i e =
    by_ok IsWellFormed _ a _ t' (log_update (is_rejected_row id) replay_pending none now t i) e

given_up_cases :
    (last : Bool) (status : OutboxStatus)
    → (is_pending (if last then given_up else status) ≡ false)
      ⊎ (is_pending (if last then given_up else status) ≡ is_pending status)
given_up_cases true status = inl refl
given_up_cases false status = inr refl

no_overdue :
    (last : Bool) (status : OutboxStatus)
    → (is_pending (if last then given_up else status) && last) ≡ false
no_overdue true status = refl
no_overdue false status = false_right (is_pending status)

pub IsWellFormed-kept : (id : ℕ) → StatementsKeep IsWellFormed id
unfolding mark_success_status mark_failed_status mark_outbox_completed mark_outbox_failed
    truncate_error_message
IsWellFormed-kept id = record {
  success = λ status now t t' a i e.
      by_ok IsWellFormed _ a _ t' (log_update (with_id_is id) status none now t i) e;
  failure = λ status message now t t' a i e.
      by_ok IsWellFormed _ a _ t' (log_update (with_id_is id) status (some _) now t i) e;
  create = create-Keeps id;
  complete = λ outbox_id now t t' a i e.
      by_ok IsWellFormed _ a _ t'
        (outbox_update (outbox_id_is outbox_id) (complete now) t (λ x. refl) (λ x. refl)
          (λ x. inl refl) (λ x h. refl) i)
        e;
  count = λ outbox_id message now t t' a i e.
      by_ok IsWellFormed _ a _ t'
        (outbox_update (outbox_id_is outbox_id) (count_failure now (take 1000 message)) t
          (λ x. refl) (λ x. refl)
          (λ x. given_up_cases (leb outbox_max_attempts (x.attempts + 1)) x.status)
          (λ x h. no_overdue (leb outbox_max_attempts (x.attempts + 1)) x.status) i)
        e;
}
