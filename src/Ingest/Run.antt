-- ===== src/Ingest/Run.antt =====
-- `run_ingest`: the resume points, the search, and the granules one by one.
use lumen_horizon.Prelude.{
  ℕ, max, Text, Bool, true, false, ◌&&◌, ◌||◌, not, any, List, [], ◌∷◌, ◌++◌, Option, none, some,
  if◌then◌else◌, Result, ok, err,
}
use lumen_horizon.Text.{text_eq}
use lumen_horizon.Action.{Action, return, ◌>>=◌, ◌>>◌}
use lumen_horizon.Message.Granule.{GranuleCandidate}
use lumen_horizon.Discovery.Search.{CmrError, ProductDiscovery, Catalogue, discover, total_granules}
use lumen_horizon.Ingest.Tables.{IngestRow, failed, rejected, same_status, take}
use lumen_horizon.Ingest.World.{Outside, World, Statement, query, call}
use lumen_horizon.Ingest.Summary.{IngestSummary, new_summary}
use lumen_horizon.Ingest.Pipeline.{process_granules}
use lumen_horizon.Ingest.Recovery.{
  IngestError, database_error, storage_error, cmr_error, earthdata_error, map_err,
}

abbrev is_nil : {A : Type 0} → List A → Bool
is_nil [] = true
is_nil (x ∷ xs) = false

-- `MAX`, where a missing value is less than every other
abbrev latest : ℕ → Option ℕ → Option ℕ
latest a none = some a
latest a (some b) = some (max a b)

-- `WHERE status NOT IN … AND (cardinality = 0 OR product = ANY …)`, for one product
abbrev is_resumable : List Text → Text → IngestRow → Bool
is_resumable products product r =
    not (same_status r.status failed)
    && (not (same_status r.status rejected)
        && ((is_nil products || any (text_eq r.product) products) && text_eq r.product product))

unfoldable pub resume_point : List Text → List IngestRow → Text → Option ℕ
resume_point products [] product = none
resume_point products (r ∷ rs) product =
    let rest = resume_point products rs product in
    if is_resumable products product r then latest r.granule_date rest else rest

unfoldable pub get_discovery_resume_points : List Text → Statement (Text → Option ℕ)
unfolding resume_point
get_discovery_resume_points products now t = ok (resume_point products t.log, t)

abbrev pub all_granules : List ProductDiscovery → List (GranuleCandidate ℕ)
all_granules [] = []
all_granules (p ∷ ps) = p.granules ++ all_granules ps

-- `take(ingest_max_granules.unwrap_or(usize::MAX))`: a list is never longer than that.
abbrev pub take_at_most : {A : Type 0} → Option ℕ → List A → List A
take_at_most none xs = xs
take_at_most (some n) xs = take n xs

module _ {S : Type 0} (o : Outside S) (c : Catalogue S) (azure_queue_name bounding_box : Text)
    (products : List Text) (max_granules : Option ℕ) where
  abbrev pub no_fuel :
      {A : Type 0} → Option (Result CmrError A × S) → S → Result CmrError (Option A) × S
  no_fuel none s = (ok none, s)
  no_fuel (some (ok a, s')) s = (ok (some a), s')
  no_fuel (some (err e, s')) s = (err e, s')

  -- The clients that are made after the search, and the loop
  unfoldable pub run_granules : List ProductDiscovery → Action (World S) IngestError IngestSummary
  unfolding process_granules total_granules
  run_granules discovery = do
    map_err earthdata_error (call o o.new_earthdata_client)
    map_err storage_error (call o o.new_blob_client)
    map_err storage_error (call o o.new_queue_client)
    λ w.
        let (summary, w') =
          process_granules o azure_queue_name (take_at_most max_granules (all_granules discovery))
            (new_summary (total_granules discovery)) w in
        (ok summary, w')

  abbrev pub run_found :
      Option (List ProductDiscovery) → Action (World S) IngestError (Option IngestSummary)
  run_found none = return none
  run_found (some discovery) = do summary ← run_granules discovery; return (some summary)

  -- `none` when the search runs out of fuel
  unfoldable pub run_ingest : ℕ → Action (World S) IngestError (Option IngestSummary)
  unfolding run_granules get_discovery_resume_points discover
  run_ingest fuel = do
    resume_points ← map_err database_error (query o (get_discovery_resume_points products))
    map_err cmr_error (call o c.new_client)
    found ←
        map_err cmr_error
          (call o (λ s. no_fuel (discover c bounding_box fuel resume_points products s) s))
    run_found found
