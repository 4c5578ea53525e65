-- ===== src/Generate/JoinSet.antt =====
-- `generate_tiles_for_plan_with_renderer`: the jobs are rendered by tasks, of which a bounded number
-- is in flight, and which end in any order.
use lumen_horizon.Prelude.{
  ℕ, zero, suc, ltb, max, Bool, true, false, if◌then◌else◌, List, [], ◌∷◌, ◌++◌, length, map,
  Option, none, some, Result, ok, err, Text,
}
use lumen_horizon.Float.{Floating}
use lumen_horizon.Tiles.Range.{GeographicBounds}
use lumen_horizon.Science.Mapping.{RasterShape}
use lumen_horizon.Publish.Types.{RenderedTile}
use lumen_horizon.Generate.Types.{GenerateError, render_worker, TileGenerationPlan}
use lumen_horizon.Generate.Jobs.{Job, tile_render_jobs}

abbrev pub Indexed : Type 0
Indexed = ℕ × RenderedTile

-- `sort_by_key(|(index, _)| *index)`: an element stays before the later ones that have its key.
abbrev pub insert_by_index : Indexed → List Indexed → List Indexed
insert_by_index x [] = x ∷ []
insert_by_index x (y ∷ ys) =
    let rest = insert_by_index x ys in if ltb y.0 x.0 then y ∷ rest else x ∷ y ∷ ys

abbrev pub sort_by_index : List Indexed → List Indexed
sort_by_index [] = []
sort_by_index (x ∷ xs) = insert_by_index x (sort_by_index xs)

abbrev pub tile_of : Indexed → RenderedTile
tile_of p = p.1

-- The element at a position, and the others.
abbrev pub take_at : {A : Type 0} → ℕ → List A → Option (A × List A)
take_at k [] = none
take_at zero (x ∷ xs) = some (x, xs)
take_at (suc k) (x ∷ xs) = elim (take_at k xs) [
  | none ↦ some (x, xs)
  | some (y, ys) ↦ some (y, x ∷ ys)
]

module _ (F : Floating) where
  -- What joining a task gives: its result, or that it panicked.
  pub data Joined : Type 0 where
    finished : Result (GenerateError F) RenderedTile → Joined
    panicked : Text → Joined

  -- `result.map_err(…)??`
  abbrev pub tile_of_task : Joined → Result (GenerateError F) RenderedTile
  tile_of_task (finished r) = r
  tile_of_task (panicked e) = err (render_worker e)

  -- The jobs behind `next_job`, the join set in the order of spawning, and the tiles.
  pub record LoopState : Type 0 where
    pub jobs : List Job
    pub running : List Job
    pub tiles : List Indexed

  -- The inner loop: spawn while there is a job and room for it.
  unfoldable pub spawn_jobs : ℕ → List Job → List Job → List Job × List Job
  spawn_jobs max_parallelism [] running = ([], running)
  spawn_jobs max_parallelism (job ∷ jobs) running =
      let spawned = spawn_jobs max_parallelism jobs (running ++ job ∷ []) in
      if ltb (length running) max_parallelism then spawned else (job ∷ jobs, running)

  abbrev pub is_done : LoopState → Bool
  is_done s = elim s.jobs [
    | job ∷ jobs ↦ false
    | [] ↦ elim s.running [ job ∷ jobs ↦ false | [] ↦ true ]
  ]

  -- `render` is what a job's task comes to, and `schedule` says which of the running tasks is the next
  -- to end, by the count of tasks that have been joined: the first, the second, …
  module _ (render : Job → Joined) (schedule : ℕ → ℕ) where
    abbrev pub keep_tile :
        List Job
        → List Job
        → List Indexed
        → Job
        → Result (GenerateError F) RenderedTile
        → Result (GenerateError F) LoopState
    keep_tile jobs running tiles job (ok t) =
        ok (record { jobs = jobs; running = running; tiles = tiles ++ (job.index, t) ∷ [] })
    keep_tile jobs running tiles job (err e) = err e

    abbrev pub joined :
        List Job
        → List Indexed
        → Option (Job × List Job)
        → List Job
        → Result (GenerateError F) LoopState
    joined jobs tiles none running = ok (record { jobs = jobs; running = running; tiles = tiles })
    joined jobs tiles (some (job, others)) running =
        keep_tile jobs others tiles job (tile_of_task (render job))

    -- One round of the outer loop
    unfoldable pub round : ℕ → LoopState → Result (GenerateError F) LoopState
    unfolding spawn_jobs
    round max_parallelism s =
        let (jobs, running) = spawn_jobs max_parallelism s.jobs s.running in
        joined jobs s.tiles (take_at (schedule (length s.tiles)) running) running

    -- The outer loop, on fuel: `none` is a run that is not over.
    unfoldable pub rounds : ℕ → ℕ → LoopState → Option (Result (GenerateError F) (List Indexed))
    unfolding round
    rounds max_parallelism zero s = if is_done s then some (ok s.tiles) else none
    rounds max_parallelism (suc fuel) s = elim (is_done s) [
      | true ↦ some (ok s.tiles)
      | false ↦ elim (round max_parallelism s) [
        | err e ↦ some (err e)
        | ok next ↦ rounds max_parallelism fuel next
      ]
    ]

    abbrev pub sorted :
        Option (Result (GenerateError F) (List Indexed))
        → Option (Result (GenerateError F) (List RenderedTile))
    sorted none = none
    sorted (some (err e)) = some (err e)
    sorted (some (ok tiles)) = some (ok (map tile_of (sort_by_index tiles)))

    -- The tiles of the jobs, with fuel for one round to a job.
    unfoldable pub render_jobs :
        ℕ → List Job → Option (Result (GenerateError F) (List RenderedTile))
    unfolding rounds
    render_jobs max_parallelism jobs = sorted (
        rounds (max max_parallelism 1) (length jobs)
          (record { jobs = jobs; running = []; tiles = [] }))

    unfoldable pub generate_tiles_for_plan_with_renderer :
        GeographicBounds F.Num
        → RasterShape
        → TileGenerationPlan
        → ℕ
        → Option (Result (GenerateError F) (List RenderedTile))
    unfolding tile_render_jobs render_jobs
    generate_tiles_for_plan_with_renderer source shape plan max_parallelism =
        elim (tile_render_jobs F source shape plan) [
          | err e ↦ some (err e)
          | ok jobs ↦ render_jobs max_parallelism jobs
        ]
