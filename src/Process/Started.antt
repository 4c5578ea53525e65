-- ===== src/Process/Started.antt =====
-- The statements of a processing: what their answers say of the rows.
use lumen_horizon.Prelude.{
  ℕ, ◌+◌, ◌==◌, ◌^◌, ltb, Text, true, any, List, [], ◌∷◌, ◌++◌, Option, none, some, Result, ok, err,
  ◌≡◌, inl, inr, refl, ◌∙◌, Bool-cases, Option-cases, ok_injective, ==_iff,
}
use mathlib.Core.Path.{subst}
use lumen_horizon.Float.{Floating}
use lumen_horizon.Action.{lift}
use lumen_horizon.Message.Validate.{ProcessingMessage}
use lumen_horizon.Ingest.World.{Fate, applied, refused, answer_lost}
use lumen_horizon.Publish.Types.{Outside}
use lumen_horizon.Publish.Types as Publish
use lumen_horizon.Publish.Triple.{Outcome, Triple, bind-Triple}
use lumen_horizon.Generate.Types.{map_error}
use lumen_horizon.Generate.Manifest.{ManifestFields}
use lumen_horizon.Process.Log.{
  LogRow, DbError, connect_error, upsert_processing_log, of_ingest, find_row, Statement, answered,
  upsert_processing_started, started, restarted,
}
use lumen_horizon.Process.Types.{ServiceError, database, storage, Tools, World}
use lumen_horizon.Process.Gate.{call, execute, record_or_missing, start_processing}
use lumen_horizon.Process.Rows.{updated-any}

module _ (F : Floating) where
  abbrev pub HasRow : ℕ → List (LogRow F) → Type 0
  HasRow ingest_id rows = any (of_ingest F ingest_id) rows ≡ true

  -- The number of the attempt that starts on these rows
  abbrev pub next_attempt : ℕ → List (LogRow F) → ℕ
  next_attempt ingest_id rows = elim (find_row F ingest_id rows) [
    | none ↦ 1
    | some (_, attempts) ↦ attempts + 1
  ]

  -- The row is there, and the attempt is the next one of the rows before.
  abbrev pub IsAttempt : ℕ → List (LogRow F) → ℕ → List (LogRow F) → Type 0
  IsAttempt ingest_id before attempt rows =
      HasRow ingest_id rows × (attempt ≡ next_attempt ingest_id before)

  abbrev HasRowIf : ℕ → List (LogRow F) → Option (ℕ × ℕ) → List (LogRow F) → Type 0
  HasRowIf ingest_id before none rows = Unit
  HasRowIf ingest_id before (some found) rows = IsAttempt ingest_id before found.1 rows

  find_row-HasRow :
      (ingest_id : ℕ) (rows : List (LogRow F)) {found : ℕ × ℕ}
      → find_row F ingest_id rows ≡ some found
      → HasRow ingest_id rows
  find_row-HasRow ingest_id [] h = cc
  find_row-HasRow ingest_id (row ∷ rows) h = elim (Bool-cases (of_ingest F ingest_id row)) [
    | inl hit ↦ rw hit refl
    | inr miss ↦ rw miss (find_row-HasRow ingest_id rows (rw miss at h))
  ]

  appended-HasRow :
      (ingest_id : ℕ) (rows : List (LogRow F)) (row : LogRow F)
      → of_ingest F ingest_id row ≡ true
      → HasRow ingest_id (rows ++ row ∷ [])
  appended-HasRow ingest_id [] row h = rw h refl
  appended-HasRow ingest_id (r ∷ rows) row h = elim (Bool-cases (of_ingest F ingest_id r)) [
    | inl hit ↦ rw hit refl
    | inr miss ↦ rw miss (appended-HasRow ingest_id rows row h)
  ]

  upsert-HasRowIf :
      (ids : List ℕ) (id : ℕ) (m : ProcessingMessage ℕ ℕ) (rows : List (LogRow F))
      (found : Option (ℕ × ℕ)) (rows' : List (LogRow F))
      → upsert_processing_started F ids id m rows ≡ ok (found, rows')
      → HasRowIf m.ingest_id rows found rows'
  unfolding upsert_processing_started
  upsert-HasRowIf ids id m rows found rows' h =
      elim (Bool-cases (any (λ known. known == m.ingest_id) ids)) [
        | inr unknown ↦
            subst (λ p. HasRowIf m.ingest_id rows p.0 p.1)
              (ok_injective (rw (unknown, upsert_processing_started) at h)) tt
        | inl known ↦ elim (Option-cases (find_row F m.ingest_id rows)) [
          | inl fresh ↦
              subst (λ p. HasRowIf m.ingest_id rows p.0 p.1)
                (ok_injective (rw (known, fresh, upsert_processing_started) at h))
                (
                  appended-HasRow m.ingest_id rows (started F id m) ((==_iff _ _).1 refl),
                  rw (fresh, next_attempt) refl,
                )
          | inr ((row_id, attempts), there) ↦ elim (Bool-cases (ltb (attempts + 1) (2 ^ 31))) [
            | inr large ↦ cc (rw (known, there, large, upsert_processing_started) at h)
            | inl fits ↦
                subst (λ p. HasRowIf m.ingest_id rows p.0 p.1)
                  (ok_injective (rw (known, there, fits, upsert_processing_started) at h))
                  (
                    updated-any F m.ingest_id (of_ingest F m.ingest_id) (restarted F m)
                          (λ row. refl) rows
                        ∙ find_row-HasRow m.ingest_id rows there,
                    rw (there, next_attempt) refl,
                  )
          ]
        ]
      ]

  module _ {T S : Type 0} (tools : Tools F T) (o : Outside S (ManifestFields F))
      (X : World F T S → Type 0) (K : Publish.World S → Type 0)
      (safe : (w : World F T S) → K w.tiles → X w) where
    abbrev pub Both : (List (LogRow F) → Type 0) → World F T S → Type 0
    Both R w = K w.tiles × R w.log

    module _ {A : Type 0} (R : List (LogRow F) → Type 0) (D : A → List (LogRow F) → Type 0)
        (f : Text → DbError F) where
      fared :
          (w : World F T S) (r : Result Text (A × List (LogRow F))) (fate : Fate) (outer : T)
          → K w.tiles
          → ((a : A) (rows : List (LogRow F)) → r ≡ ok (a, rows) → D a rows)
          → (let (reply, log) = answered F w.log r fate in
              Outcome X
                (λ a. Both (D a))
                (
                  map_error (λ e. database (f e)) reply,
                  record { log = log; ingest_ids = w.ingest_ids; outer = outer; tiles = w.tiles },
                ))
      fared w r (refused e) outer k d = safe _ k
      fared w (err e) applied outer k d = safe _ k
      fared w (err e) (answer_lost lost) outer k d = safe _ k
      fared w (ok (a, rows)) applied outer k d = (k, d a rows refl)
      fared w (ok (a, rows)) (answer_lost lost) outer k d = safe _ k

      -- A statement: the answer that has come back tells of the rows behind it.
      pub execute-Triple :
          (st : Statement F A)
          → ((a : A) (rows rows' : List (LogRow F)) → R rows → st rows ≡ ok (a, rows') → D a rows')
          → Triple X (Both R) (execute F tools o f st) (λ a. Both (D a))
      execute-Triple st d w (k, r) =
          fared w (st w.log) (tools.statement w.outer).0 (tools.statement w.outer).1 k
            (λ a rows e. d a w.log rows r e)

    called :
        {A : Type 0} (f : Text → ServiceError F) (R : List (LogRow F) → Type 0) (w : World F T S)
        (r : Result Text A) (outer : T)
        → Both R w
        → Outcome X
            (λ a. Both R)
            (
              map_error f r,
              record { log = w.log; ingest_ids = w.ingest_ids; outer = outer; tiles = w.tiles },
            )
    called f R w (ok a) outer both = both
    called f R w (err e) outer (k, _) = safe _ k

    pub call-Triple :
        {A : Type 0} (f : Text → ServiceError F) (R : List (LogRow F) → Type 0)
        (action : T → Result Text A × T)
        → Triple X (Both R) (call F tools o f action) (λ a. Both R)
    call-Triple f R action w both = called f R w (action w.outer).0 (action w.outer).1 both

    found-Triple :
        (ingest_id : ℕ) (before : List (LogRow F)) (found : Option (ℕ × ℕ))
        → Triple X
            (Both (HasRowIf ingest_id before found))
            (lift (record_or_missing F tools o ingest_id found))
            (λ a. Both (IsAttempt ingest_id before a.1))
    found-Triple ingest_id before none w (k, _) = safe w k
    found-Triple ingest_id before (some a) w both = both

    -- A processing that has started has a row, and the number of the next attempt.
    pub start_processing-Triple :
        (m : ProcessingMessage ℕ ℕ) (before : List (LogRow F))
        → Triple X
            (Both (λ rows. rows ≡ before))
            (start_processing F tools o m)
            (λ a. Both (IsAttempt m.ingest_id before a.1))
    unfolding start_processing
    start_processing-Triple m before =
        let Same = λ (rows : List (LogRow F)). rows ≡ before in
        let End = λ (a : ℕ × ℕ). Both (IsAttempt m.ingest_id before a.1) in
        bind-Triple X (λ u. Both Same) End (Both Same)
          (call F tools o (λ e. database (connect_error e)) tools.connect) _
          (call-Triple (λ e. database (connect_error e)) Same tools.connect)
          (λ u.
            bind-Triple X (λ id. Both Same) End (Both Same)
              (call F tools o storage (λ t. let (id, t') = tools.new_v4 t in (ok id, t'))) _
              (call-Triple storage Same (λ t. let (id, t') = tools.new_v4 t in (ok id, t')))
              (λ id.
                bind-Triple X (λ found. Both (HasRowIf m.ingest_id before found)) End (Both Same)
                  (λ w.
                    execute F tools o upsert_processing_log
                      (upsert_processing_started F w.ingest_ids id m) w)
                  _
                  (λ w.
                    execute-Triple Same (HasRowIf m.ingest_id before) upsert_processing_log
                      (upsert_processing_started F w.ingest_ids id m)
                      (λ found rows rows' same e.
                        subst (λ rs. HasRowIf m.ingest_id rs found rows') same
                          (upsert-HasRowIf w.ingest_ids id m rows found rows' e))
                      w)
                  (found-Triple m.ingest_id before)))
