-- ===== src/Generate/Parallel.antt =====
-- The tiles of a plan, rendered by tasks in any order, are those of rendering job after job.
use lumen_horizon.Prelude.{
  ◌>>=◌, ℕ, suc, ◌≡◌, arith, max, true, List, [], ◌∷◌, length, map, any, All, Option, some, Result,
  ok, err, bind_elim, ok_injective, refl, ap, sym, ◌∙◌, Result-cases, inl, inr,
}
use mathlib.Core.List.{Mem, mem-cons_self, mem-cons_of_mem}
use mathlib.Core.Path.{subst}
use lumen_horizon.Float.{Floating}
use lumen_horizon.Publish.Types.{RenderedTile}
use lumen_horizon.Ingest.Columns.{All-weaken}
use lumen_horizon.Generate.Types.{GenerateError}
use lumen_horizon.Generate.Jobs.{Job, IsNumbered}
use lumen_horizon.Generate.JoinSet.{Indexed, tile_of, Joined, LoopState, render_jobs}
use lumen_horizon.Generate.Sorting.{Agrees, CountsFrom, sort-counted, value_in, All-value_in}
use lumen_horizon.Generate.Completion.{task}
use lumen_horizon.Generate.InOrder.{pair, IsGood, Holds, rounds-Ends}
use lumen_horizon.Generate.JoinFailure.{fails, rounds-EndsFailing}

module _ (F : Floating) (render : Job → Joined F) where
  -- One job after the other, up to the first that fails
  abbrev pub in_order : List Job → Result (GenerateError F) (List RenderedTile)
  in_order [] = ok []
  in_order (job ∷ jobs) = do t ← task F render job; ts ← in_order jobs; ok (t ∷ ts)

  in_order-fails :
      (jobs : List Job) {e : GenerateError F}
      → in_order jobs ≡ err e
      → any (fails F render) jobs ≡ true
  in_order-fails [] h = cc
  in_order-fails (job ∷ jobs) h = elim (Result-cases (task F render job)) [
    | inl (e, f) ↦ rw f refl
    | inr (t, f) ↦ elim (Result-cases (in_order jobs)) [
      | inl (e, g) ↦ rw f (in_order-fails jobs g)
      | inr (ts, g) ↦ cc (rw (f, g) at h)
    ]
  ]

  record AllGood (k : ℕ) (jobs : List Job) (tiles : List RenderedTile) : Type 0 where
    succeed : All (λ job. (t : RenderedTile) × (task F render job ≡ ok t)) jobs
    counts : CountsFrom k (map (pair F render) jobs)
    shown : map tile_of (map (pair F render) jobs) ≡ tiles

  in_order-AllGood :
      (k : ℕ) (jobs : List Job) (tiles : List RenderedTile)
      → IsNumbered k jobs
      → in_order jobs ≡ ok tiles
      → AllGood k jobs tiles
  in_order-AllGood k [] tiles _ h = record { succeed = tt; counts = tt; shown = ok_injective h }
  in_order-AllGood k (job ∷ jobs) tiles (same, ns) h =
      let (t, e, after) = bind_elim (task F render job) _ h in
      let (ts, f, last) = bind_elim (in_order jobs) _ after in
      let g = in_order-AllGood (suc k) jobs ts ns f in
      record {
        succeed = ((t, e), g.succeed);
        counts = (same, g.counts);
        shown = rw (e, g.shown) (ok_injective last);
      }

  -- What holds of every job's success and of every job's tile, together
  IsGood-both :
      (value : ℕ → RenderedTile) (pairs : List Indexed) (jobs : List Job)
      → All (λ job. (t : RenderedTile) × (task F render job ≡ ok t)) jobs
      → All (Agrees value) (map (pair F render) jobs)
      → All (IsGood F render value pairs) jobs
  IsGood-both value pairs [] _ _ = tt
  IsGood-both value pairs (job ∷ jobs) (h, hs) (a, rest) =
      ((h, a), IsGood-both value pairs jobs hs rest)

  All-Mem : (jobs : List Job) → All (λ job. Mem job jobs) jobs
  All-Mem [] = tt
  All-Mem (job ∷ jobs) =
      (mem-cons_self, All-weaken (λ a h. mem-cons_of_mem job h) jobs (All-Mem jobs))

  -- The result of the jobs: the tiles of the jobs in their order, or the error of one of them.
  abbrev pub IsResult :
      List Job
      → Result (GenerateError F) (List RenderedTile)
      → Option (Result (GenerateError F) (List RenderedTile))
      → Type 0
  IsResult jobs (ok tiles) result = result ≡ some (ok tiles)
  IsResult jobs (err _) result =
      (e : GenerateError F) × (job : Job) × Mem job jobs
      × (task F render job ≡ err e)
      × (result ≡ some (err e))

  module _ (schedule : ℕ → ℕ) (max_parallelism : ℕ) (jobs : List Job)
      (numbered : IsNumbered 0 jobs) where
    abbrev start : LoopState F
    start = record { jobs = jobs; running = []; tiles = [] }

    succeeded :
        (tiles : List RenderedTile)
        → in_order jobs ≡ ok tiles
        → render_jobs F render schedule max_parallelism jobs ≡ some (ok tiles)
    unfolding render_jobs
    succeeded tiles h =
        let g = in_order-AllGood 0 jobs tiles numbered h in
        let pairs = map (pair F render) jobs in
        let value = value_in pairs in
        let good = IsGood-both value pairs jobs g.succeed (All-value_in 0 pairs g.counts) in
        let held : Holds F render value pairs start = record {
          sorts = sort-counted 0 pairs g.counts;
          agree = tt;
          good = good;
        } in
        let (ps, e, f) =
          rounds-Ends F render value pairs (max max_parallelism 1) (omega arith) schedule
            (length jobs) start (omega arith) held in
        rw e (ap (λ l. some (ok (map tile_of l))) f ∙ ap (λ l. some (ok l)) g.shown)

    failed :
        {e : GenerateError F}
        → in_order jobs ≡ err e
        → IsResult jobs (err e) (render_jobs F render schedule max_parallelism jobs)
    unfolding render_jobs
    failed h =
        let (e, job, m, f, g) =
          rounds-EndsFailing F render (λ job. Mem job jobs) (max max_parallelism 1) (omega arith)
            schedule (length jobs) start (omega arith) (in_order-fails jobs h) (All-Mem jobs) in
        (e, job, m, f, rw g refl)

    -- However many tasks may run at once and in whatever order they end, the loop comes to its end, and
    -- its tiles are those of rendering the jobs one after the other, in the jobs' order; where that
    -- fails, the loop ends with the error of one of the jobs.
    pub render_jobs-IsResult :
        IsResult jobs (in_order jobs) (render_jobs F render schedule max_parallelism jobs)
    render_jobs-IsResult = elim (Result-cases (in_order jobs)) [
      | inl (e, h) ↦
          subst (λ r. IsResult jobs r (render_jobs F render schedule max_parallelism jobs)) (sym h)
            (failed h)
      | inr (tiles, h) ↦
          subst (λ r. IsResult jobs r (render_jobs F render schedule max_parallelism jobs)) (sym h)
            (succeeded tiles h)
    ]
