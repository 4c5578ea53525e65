-- ===== src/Ingest/JobsKeep.antt =====
-- A condition on the world that every statement on a row keeps is kept by the ingest of granules.
use lumen_horizon.Prelude.{ℕ, Text, List, [], ◌∷◌, Result, ok, err, ◌≡◌, refl, ap}
use mathlib.Core.Path.{subst}
use lumen_horizon.Action.{Action, then_do, Preserves, bind-Preserves}
use lumen_horizon.Message.Granule.{GranuleCandidate, raw_blob_path}
use lumen_horizon.Ingest.World.{Outside, World, with_id}
use lumen_horizon.Ingest.Statements.{
  insert_downloading_row, created, already_exists, InsertDownloadingRowOutcome,
}
use lumen_horizon.Ingest.Summary.{skipped}
use lumen_horizon.Ingest.Pipeline.{
  handled, outcome_of, leave, or_return, created_or_skipped, insert_or_skip, process_granule_inner,
  process_granule, process_granules,
}
use lumen_horizon.Ingest.Keeps.{StepsKeep, or_return-Preserves, ingest_row-Preserves}

-- What an ingest does keeps `P`, when the ids of new rows satisfy `Q`.
pub record IngestKeeps {S : Type 0} (o : Outside S) (P : World S → Type 0) (Q : ℕ → Type 0)
    : Type 1 where
  pub insert :
      (g : GranuleCandidate ℕ) (path : Text)
      → Preserves P (with_id o (insert_downloading_row g path))
  pub insert_known :
      (g : GranuleCandidate ℕ) (path : Text) (w : World S) (id : ℕ)
      → P w
      → (with_id o (insert_downloading_row g path) w).0 ≡ ok (created id)
      → Q id
  pub steps : (id : ℕ) → Q id → StepsKeep o P id

module _ {W E A B : Type 0} (P : W → Type 0) where
  -- As `then_do-Preserves`, with the value at hand.
  then_known :
      (next : A → Action W E B) (r : Result E A × W)
      → ((a : A) → r.0 ≡ ok a → Preserves P (next a))
      → P r.1
      → P (then_do next r).1
  then_known next (ok a, w) h p = h a refl w p
  then_known next (err e, w) h p = p

module _ {S : Type 0} (o : Outside S) (queue_name : Text) (P : World S → Type 0) where
  outcome_of-Preserves : {O : Type 0} (r : Result O O × World S) → P r.1 → P (outcome_of r).1
  outcome_of-Preserves (ok a, w) p = p
  outcome_of-Preserves (err e, w) p = p

  created_or_skipped-Preserves :
      (inserted : InsertDownloadingRowOutcome)
      → Preserves P (created_or_skipped o queue_name inserted)
  unfolding created_or_skipped
  created_or_skipped-Preserves (created id) w p = p
  created_or_skipped-Preserves already_exists w p = p

  module _ {Q : ℕ → Type 0} (keep : IngestKeeps o P Q) where
    insert_or_skip-Preserves :
        (g : GranuleCandidate ℕ) (path : Text) → Preserves P (insert_or_skip o queue_name g path)
    unfolding insert_or_skip
    insert_or_skip-Preserves g path =
        bind-Preserves P
          (or_return (leave o queue_name skipped) (with_id o (insert_downloading_row g path))) _
          (or_return-Preserves P (leave o queue_name skipped) _ (λ e w p. p) (keep.insert g path))
          created_or_skipped-Preserves

    -- The row that the pipeline goes on with is new.
    new_row :
        (r : Result Text InsertDownloadingRowOutcome × World S) (id : ℕ)
        → ((id : ℕ) → r.0 ≡ ok (created id) → Q id)
        → (then_do (created_or_skipped o queue_name) (handled (leave o queue_name skipped) r)).0
          ≡ ok id
        → Q id
    unfolding created_or_skipped
    new_row (err e, w) id h k = cc
    new_row (ok already_exists, w) id h k = cc
    new_row (ok (created new_id), w) id h k =
        subst Q (ap (λ r. elim r [ ok i ↦ i | err _ ↦ new_id ]) k) (h new_id refl)

    new_row_known :
        (g : GranuleCandidate ℕ) (path : Text) (w : World S) (id : ℕ)
        → P w
        → (insert_or_skip o queue_name g path w).0 ≡ ok id
        → Q id
    unfolding insert_or_skip
    new_row_known g path w id p e =
        new_row (with_id o (insert_downloading_row g path) w) id
          (λ i k. keep.insert_known g path w i p k) e

    pub process_granule-Preserves :
        (g : GranuleCandidate ℕ) (w : World S) → P w → P (process_granule o queue_name g w).1
    unfolding process_granule process_granule_inner
    process_granule-Preserves g w p =
        let path = raw_blob_path o.date_text g in
        outcome_of-Preserves _ (
          then_known P _ (insert_or_skip o queue_name g path w)
            (λ id e.
              ingest_row-Preserves o queue_name P id (keep.steps id (new_row_known g path w id p e))
                g path)
            (insert_or_skip-Preserves g path w p))

    pub process_granules-Preserves :
        (gs : List (GranuleCandidate ℕ)) (summary : _) (w : World S)
        → P w
        → P (process_granules o queue_name gs summary w).1
    unfolding process_granules
    process_granules-Preserves [] summary w p = p
    process_granules-Preserves (g ∷ gs) summary w p =
        process_granules-Preserves gs _ _ (process_granule-Preserves g w p)
