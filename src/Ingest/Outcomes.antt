-- ===== src/Ingest/Outcomes.antt =====
-- What the outcomes of a granule say: a known key is skipped, and the counts of a run add up.
use lumen_horizon.Prelude.{ℕ, suc, ◌+◌, Text, true, List, [], ◌∷◌, length, ok, ◌≡◌, refl, arith}
use lumen_horizon.Action.{then_do}
use lumen_horizon.Message.Granule.{GranuleCandidate, raw_blob_path}
use lumen_horizon.Ingest.Tables.{Tables}
use lumen_horizon.Ingest.World.{
  Outside, World, Fate, applied, refused, answer_lost, answer, query, with_id,
}
use lumen_horizon.Ingest.Statements.{already_exists, has_granule, insert_downloading_row}
use lumen_horizon.Ingest.Summary.{
  skipped, IngestSummary, new_summary, record_attempt, IsBalanced, new_summary-IsBalanced,
  record_attempt-IsBalanced, attempted-record_attempt,
}
use lumen_horizon.Ingest.Pipeline.{
  handled, leave, outcome_of, created_or_skipped, insert_or_skip, ingest_row, process_granule_inner,
  process_granule, process_granules,
}

sum_up : {a : ℕ} (b c d : ℕ) → a ≡ b + d → b ≡ c + 1 → a ≡ c + suc d
sum_up b c d h k = omega arith

no_more : {a : ℕ} (b : ℕ) → a ≡ 0 + b → a ≡ b
no_more b h = omega arith

module _ {S : Type 0} (o : Outside S) (queue_name : Text) where
  insert_existing :
      (g : GranuleCandidate ℕ) (path : Text) (id now : ℕ) (t : Tables)
      → has_granule g t.log ≡ true
      → insert_downloading_row g path id now t ≡ ok (already_exists, t)
  unfolding insert_downloading_row
  insert_existing g path id now t h = rw (h, insert_downloading_row) refl

  -- The three fates of the insert lead to the same end.
  skip_anyway :
      (g : GranuleCandidate ℕ) (path : Text) (t : Tables) (outer : S) (fate : Fate)
      → let (reply, t') = answer t (ok (already_exists, t)) fate in
        let end = outcome_of (
          then_do (ingest_row o queue_name g path) (
            then_do (created_or_skipped o queue_name) (
              handled
                (leave o queue_name skipped)
                (reply, record { tables = t'; outer = outer })))) in
        (end.0 ≡ skipped) × (end.1.tables ≡ t)
  unfolding created_or_skipped
  skip_anyway g path t outer applied = (refl, refl)
  skip_anyway g path t outer (refused e) = (refl, refl)
  skip_anyway g path t outer (answer_lost e) = (refl, refl)

  -- A granule whose product, tile and date are in the log is skipped and the tables stay as they
  -- are, whatever the status of that row and whatever becomes of the calls.
  pub process_granule-existing :
      (g : GranuleCandidate ℕ) (w : World S)
      → has_granule g w.tables.log ≡ true
      → ((process_granule o queue_name g w).0 ≡ skipped)
        × ((process_granule o queue_name g w).1.tables ≡ w.tables)
  unfolding process_granule process_granule_inner insert_or_skip with_id query
  process_granule-existing g w h =
      let path = raw_blob_path o.date_text g in
      let (id, outer) = o.new_v4 w.outer in
      let (fate, outer') = o.database outer in
      rw (insert_existing g path id (o.now outer') w.tables h)
        (skip_anyway g path w.tables outer' fate)

  run-IsBalanced :
      (gs : List (GranuleCandidate ℕ)) (s : IngestSummary) (w : World S)
      → IsBalanced s
      → IsBalanced (process_granules o queue_name gs s w).0
        × ((process_granules o queue_name gs s w).0.attempted ≡ s.attempted + length gs)
  unfolding process_granules
  run-IsBalanced [] s w b = (b, omega arith)
  run-IsBalanced (g ∷ gs) s w b =
      let (outcome, w') = process_granule o queue_name g w in
      let (balanced, counted) =
        run-IsBalanced gs (record_attempt outcome s) w' (record_attempt-IsBalanced outcome s b) in
      (balanced, sum_up _ s.attempted (length gs) counted (attempted-record_attempt outcome s))

  -- The counts of a run over granules add up, whatever becomes of its calls: each granule is
  -- attempted, and ends in exactly one of skipped, failed, rejected and enqueued.
  pub process_granules-IsBalanced :
      (gs : List (GranuleCandidate ℕ)) (n : ℕ) (w : World S)
      → IsBalanced (process_granules o queue_name gs (new_summary n) w).0
        × ((process_granules o queue_name gs (new_summary n) w).0.attempted ≡ length gs)
  process_granules-IsBalanced gs n w =
      let (balanced, counted) = run-IsBalanced gs (new_summary n) w (new_summary-IsBalanced n) in
      (balanced, no_more (length gs) counted)
