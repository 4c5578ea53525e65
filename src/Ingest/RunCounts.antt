-- ===== src/Ingest/RunCounts.antt =====
-- The summary that a run of the ingest returns.
use lumen_horizon.Prelude.{
  ℕ, zero, suc, ◌+◌, min, Text, List, [], ◌∷◌, length, length-append, Option, none, some, Result,
  ok, err, ◌≡◌, refl, sym, ap, ◌∙◌, arith,
}
use mathlib.Core.Path.{subst}
use lumen_horizon.Action.{Action, ◌>>=◌, then_do, return}
use lumen_horizon.Message.Granule.{GranuleCandidate}
use lumen_horizon.Discovery.Search.{ProductDiscovery, Catalogue, discover, total_granules}
use lumen_horizon.Ingest.Tables.{take}
use lumen_horizon.Ingest.World.{Outside, World, query, call}
use lumen_horizon.Ingest.Summary.{
  IngestSummary, new_summary, record_attempt, IsBalanced, discovered-record_attempt,
}
use lumen_horizon.Ingest.Pipeline.{process_granule, process_granules}
use lumen_horizon.Ingest.Outcomes.{process_granules-IsBalanced}
use lumen_horizon.Ingest.Recovery.{
  IngestError, database_error, storage_error, cmr_error, earthdata_error, map_err,
}
use lumen_horizon.Ingest.Run.{
  get_discovery_resume_points, run_granules, run_found, run_ingest, no_fuel, take_at_most,
  all_granules,
}

-- The number of granules that a run takes from those found
abbrev pub at_most : Option ℕ → ℕ → ℕ
at_most none n = n
at_most (some m) n = min m n

length-take : {A : Type 0} (n : ℕ) (xs : List A) → length (take n xs) ≡ min n (length xs)
length-take zero xs = omega arith
length-take (suc n) [] = omega arith
length-take (suc n) (x ∷ xs) = omega (arith, length-take n xs)

length-take_at_most :
    {A : Type 0} (m : Option ℕ) (xs : List A) → length (take_at_most m xs) ≡ at_most m (length xs)
length-take_at_most none xs = refl
length-take_at_most (some n) xs = length-take n xs

length-all_granules : (ds : List ProductDiscovery) → length (all_granules ds) ≡ total_granules ds
unfolding total_granules
length-all_granules [] = refl
length-all_granules (d ∷ ds) =
    length-append d.granules (all_granules ds)
    ∙ ap (λ n. length d.granules + n) (length-all_granules ds)

-- Every value that the action returns satisfies `Q`.
Returns : {W E A : Type 0} → (A → Type 0) → Action W E A → Type 0
Returns {W} {E} {A} Q action = (w : W) (a : A) → (action w).0 ≡ ok a → Q a

module _ {W E A B : Type 0} (Q : B → Type 0) where
  then_do-Returns :
      (next : A → Action W E B)
      → ((a : A) → Returns Q (next a))
      → (r : Result E A × W) (b : B) → (then_do next r).0 ≡ ok b
      → Q b
  unfolding Returns
  then_do-Returns next h (ok a, w) b e = h a w b e
  then_do-Returns next h (err x, w) b e = cc

  bind-Returns :
      (first : Action W E A) (next : A → Action W E B)
      → ((a : A) → Returns Q (next a))
      → Returns Q (first >>= next)
  unfolding Returns
  bind-Returns first next h w b e = then_do-Returns next h (first w) b e

-- A balanced summary that counts what was found and attempts as much of it as it may
pub record IsCounted (max_granules : Option ℕ) (s : IngestSummary) : Type 0 where
  pub balanced : IsBalanced s
  pub counted : s.attempted ≡ at_most max_granules s.discovered

abbrev IsCountedIfAny : Option ℕ → Option IngestSummary → Type 0
IsCountedIfAny max_granules none = Unit {0}
IsCountedIfAny max_granules (some s) = IsCounted max_granules s

module _ {S : Type 0} (o : Outside S) (c : Catalogue S) (queue_name bounding_box : Text)
    (products : List Text) (max_granules : Option ℕ) where
  discovered_kept :
      (gs : List (GranuleCandidate ℕ)) (s : IngestSummary) (w : World S)
      → (process_granules o queue_name gs s w).0.discovered ≡ s.discovered
  unfolding process_granules
  discovered_kept [] s w = refl
  discovered_kept (g ∷ gs) s w =
      let (outcome, w') = process_granule o queue_name g w in
      discovered_kept gs (record_attempt outcome s) w' ∙ discovered-record_attempt outcome s

  loop-IsCounted :
      (ds : List ProductDiscovery) (w : World S)
      → IsCounted max_granules
          (process_granules o queue_name
            (take_at_most max_granules (all_granules ds))
            (new_summary (total_granules ds))
            w).0
  loop-IsCounted ds w =
      let gs = take_at_most max_granules (all_granules ds) in
      let (balanced, attempts) =
        process_granules-IsBalanced o queue_name gs (total_granules ds) w in
      record {
        balanced = balanced;
        counted =
            attempts
            ∙ length-take_at_most max_granules (all_granules ds)
            ∙ ap (at_most max_granules) (
                length-all_granules ds
                ∙ sym (discovered_kept gs (new_summary (total_granules ds)) w));
      }

  run_granules-IsCounted :
      (ds : List ProductDiscovery)
      → Returns
          (IsCounted max_granules)
          (run_granules o c queue_name bounding_box products max_granules ds)
  unfolding run_granules Returns
  run_granules-IsCounted ds =
      bind-Returns (IsCounted max_granules)
        (map_err earthdata_error (call o o.new_earthdata_client)) _
        (λ _.
          bind-Returns (IsCounted max_granules) (map_err storage_error (call o o.new_blob_client)) _
            (λ _.
              bind-Returns (IsCounted max_granules)
                (map_err storage_error (call o o.new_queue_client)) _
                (λ _ w s e.
                  subst (λ r. elim r [ ok x ↦ IsCounted max_granules x | err _ ↦ Unit {0} ]) e
                    (loop-IsCounted ds w))))

  some-IsCounted :
      (r : Result IngestError IngestSummary × World S) (found : Option IngestSummary)
      → ((s : IngestSummary) → r.0 ≡ ok s → IsCounted max_granules s)
      → (then_do (λ s. return (some s)) r).0 ≡ ok found
      → IsCountedIfAny max_granules found
  some-IsCounted (ok s, w) found h e =
      subst (λ r. elim r [ ok x ↦ IsCountedIfAny max_granules x | err _ ↦ Unit {0} ]) e (h s refl)
  some-IsCounted (err x, w) found h e = cc

  run_found-IsCounted :
      (found : Option (List ProductDiscovery))
      → Returns
          (IsCountedIfAny max_granules)
          (run_found o c queue_name bounding_box products max_granules found)
  unfolding Returns
  run_found-IsCounted none w found e =
      subst (λ r. elim r [ ok x ↦ IsCountedIfAny max_granules x | err _ ↦ Unit {0} ]) e tt
  run_found-IsCounted (some ds) w found e =
      some-IsCounted (run_granules o c queue_name bounding_box products max_granules ds w) found
        (run_granules-IsCounted ds w) e

  returned-IsCounted :
      (fuel : ℕ)
      → Returns
          (IsCountedIfAny max_granules)
          (run_ingest o c queue_name bounding_box products max_granules fuel)
  unfolding run_ingest
  returned-IsCounted fuel =
      bind-Returns (IsCountedIfAny max_granules)
        (map_err database_error (query o (get_discovery_resume_points products))) _
        (λ resume_points.
          bind-Returns (IsCountedIfAny max_granules) (map_err cmr_error (call o c.new_client)) _
            (λ _.
              bind-Returns (IsCountedIfAny max_granules)
                (map_err cmr_error (
                  call o (λ s.
                    no_fuel o c queue_name bounding_box products max_granules
                      (discover c bounding_box fuel resume_points products s) s)))
                _ run_found-IsCounted))

  -- A summary that a run returns is balanced, and the run has attempted as many granules as were
  -- discovered, or as the configured maximum where that is less.
  pub run_ingest-IsCounted :
      (fuel : ℕ) (w : World S) (s : IngestSummary)
      → (run_ingest o c queue_name bounding_box products max_granules fuel w).0 ≡ ok (some s)
      → IsCounted max_granules s
  unfolding Returns
  run_ingest-IsCounted fuel w s e = returned-IsCounted fuel w (some s) e
