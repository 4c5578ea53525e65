-- ===== src/Ingest/RunKeeps.antt =====
-- A condition that the pipeline keeps is kept by the whole run of an ingest.
use lumen_horizon.Prelude.{ℕ, Text, List, Option, none, some, Result}
use lumen_horizon.Action.{Action, ◌>>=◌, Preserves, bind-Preserves}
use lumen_horizon.Discovery.Search.{ProductDiscovery, Catalogue, discover, total_granules}
use lumen_horizon.Ingest.World.{Outside, World, query, call}
use lumen_horizon.Ingest.Summary.{new_summary}
use lumen_horizon.Ingest.Recovery.{
  IngestError, database_error, storage_error, cmr_error, earthdata_error, map_err,
}
use lumen_horizon.Ingest.Run.{
  get_discovery_resume_points, run_granules, run_found, run_ingest, no_fuel, take_at_most,
  all_granules,
}
use lumen_horizon.Ingest.Keeps.{map_err-Preserves}
use lumen_horizon.Ingest.JobsKeep.{IngestKeeps, process_granules-Preserves}

-- A call of a client, and the query for the resume points
pub record ReadsKeep {S : Type 0} (o : Outside S) (P : World S → Type 0) : Type 1 where
  pub calls : {E A : Type 0} (f : S → Result E A × S) → Preserves P (call o f)
  pub resume_read :
      (products : List Text) → Preserves P (query o (get_discovery_resume_points products))

module _ {S : Type 0} (o : Outside S) (c : Catalogue S) (queue_name bounding_box : Text)
    (products : List Text) (max_granules : Option ℕ) (P : World S → Type 0) {Q : ℕ → Type 0}
    (keep : IngestKeeps o P Q) (reads : ReadsKeep o P) where
  called :
      {E A B : Type 0} (f : E → IngestError) (g : S → Result E A × S)
      (next : A → Action (World S) IngestError B)
      → ((a : A) → Preserves P (next a))
      → Preserves P (map_err f (call o g) >>= next)
  called f g next h =
      bind-Preserves P (map_err f (call o g)) next
        (map_err-Preserves P f (call o g) (reads.calls g)) h

  run_granules-Preserves :
      (discovery : List ProductDiscovery)
      → Preserves P (run_granules o c queue_name bounding_box products max_granules discovery)
  unfolding run_granules
  run_granules-Preserves discovery = called earthdata_error o.new_earthdata_client _ (λ _.
      called storage_error o.new_blob_client _ (λ _.
        called storage_error o.new_queue_client _ (λ _ w p.
          process_granules-Preserves o queue_name P keep
            (take_at_most max_granules (all_granules discovery))
            (new_summary (total_granules discovery)) w p)))

  run_found-Preserves :
      (found : Option (List ProductDiscovery))
      → Preserves P (run_found o c queue_name bounding_box products max_granules found)
  run_found-Preserves none w p = p
  run_found-Preserves (some discovery) w p =
      bind-Preserves P (run_granules o c queue_name bounding_box products max_granules discovery) _
        (run_granules-Preserves discovery) (λ _ w p. p) w p

  pub run_ingest-Preserves :
      (fuel : ℕ) → Preserves P (run_ingest o c queue_name bounding_box products max_granules fuel)
  unfolding run_ingest
  run_ingest-Preserves fuel =
      bind-Preserves P (map_err database_error (query o (get_discovery_resume_points products))) _
        (map_err-Preserves P database_error (query o (get_discovery_resume_points products))
          (reads.resume_read products))
        (λ resume_points. called cmr_error c.new_client _ (λ _.
          called cmr_error
            (λ s.
              no_fuel o c queue_name bounding_box products max_granules
                (discover c bounding_box fuel resume_points products s) s)
            _ run_found-Preserves))
