-- ===== src/Generate/Enumeration.antt =====
-- The jobs of a plan against the list of its tiles.
use lumen_horizon.Prelude.{
  ℕ, zero, suc, ◌+◌, ◌-◌, ◌*◌, ◌≡◌, ◌↔◌, arith, List, [], ◌∷◌, length, length-append, All, map, ok,
  refl, sym, ap, ◌∙◌,
}
use native.Mathlib.Nat.{zero-mul, suc-mul, add_comm}
use mathlib.Core.Path.{subst}
use lumen_horizon.Float.{Floating, IsOrdered}
use lumen_horizon.Tiles.Coord.{TileCoord}
use lumen_horizon.Tiles.Bounds.{
  tile_bounds, Overlaps, AreNumbers, Overlaps-clip_bounds, clip_bounds-Overlaps, Overlaps-touching,
}
use lumen_horizon.Tiles.Range.{GeographicBounds, TileRange}
use lumen_horizon.Science.Mapping.{RasterShape}
use lumen_horizon.Generate.Types.{TileGenerationPlan}
use lumen_horizon.Generate.Planning.{
  areas, IsPlanned, plan_tile_generation_for_bounds, plan-IsPlanned,
}
use lumen_horizon.Generate.Window.{raster_window_for_tile, HasClip}
use lumen_horizon.Generate.Jobs.{
  Job, tile_render_jobs, row_tiles, column_tiles, planned_tiles, IsNumbered, add_ranges-eq,
  add_all-Extended, add_all-total, clips,
}

length-row_tiles : (z x left y : ℕ) → length (row_tiles z x left y) ≡ left
length-row_tiles z x zero y = refl
length-row_tiles z x (suc left) y = ap suc (length-row_tiles z x left (suc y))

length-column_tiles :
    (range : TileRange) (left x : ℕ)
    → length (column_tiles range left x) ≡ left * (range.max_y + 1 - range.min_y)
length-column_tiles range zero x = sym (zero-mul (range.max_y + 1 - range.min_y))
length-column_tiles range (suc left) x =
    let height = range.max_y + 1 - range.min_y in
    length-append (row_tiles range.z x height range.min_y) (column_tiles range left (suc x))
    ∙ rw (length-row_tiles range.z x height range.min_y, length-column_tiles range left (suc x))
        (add_comm height (left * height) ∙ sym (suc-mul left height))

module _ (F : Floating) (bounds : GeographicBounds F.Num) where
  length-planned_tiles :
      (z : ℕ) (ranges : List TileRange)
      → IsPlanned F bounds z ranges
      → length (planned_tiles ranges) ≡ areas ranges
  length-planned_tiles z [] _ = refl
  length-planned_tiles z (r ∷ rs) (_, range, _, planned) =
      let columns : r.max_x + 1 - r.min_x ≡ r.max_x - r.min_x + 1 = omega (arith, range.columns) in
      let rows : r.max_y + 1 - r.min_y ≡ r.max_y - r.min_y + 1 = omega (arith, range.rows) in
      length-append (column_tiles r (r.max_x + 1 - r.min_x) r.min_x) (planned_tiles rs)
      ∙ rw
          (
            length-column_tiles r (r.max_x + 1 - r.min_x) r.min_x,
            length-planned_tiles (suc z) rs planned,
            columns,
            rows,
          )
          refl

pub length-map : (jobs : List Job) → length (map (λ (job : Job). job.coord) jobs) ≡ length jobs
length-map [] = refl
length-map (job ∷ jobs) = ap suc (length-map jobs)

module _ (F : Floating) (source : GeographicBounds F.Num) (shape : RasterShape) where
  -- The jobs show the tiles of the plan, each once and in the plan's order, with the tile's window,
  -- and are numbered in that order.
  pub record IsEnumeration (plan : TileGenerationPlan) (jobs : List Job) : Type 0 where
    pub numbered : IsNumbered 0 jobs
    pub shown : map (λ (job : Job). job.coord) jobs ≡ planned_tiles plan.ranges
    pub windows :
        All (λ (job : Job). (raster_window_for_tile F job.coord source shape ≡ ok job.window)) jobs

  pub tile_render_jobs-IsEnumeration :
      (plan : TileGenerationPlan) (jobs : List Job)
      → tile_render_jobs F source shape plan ≡ ok jobs
      → IsEnumeration plan jobs
  unfolding tile_render_jobs
  tile_render_jobs-IsEnumeration plan jobs h =
      let x =
        add_all-Extended F source shape (planned_tiles plan.ranges) [] jobs
          (sym (add_ranges-eq F source shape plan.ranges []) ∙ h) in
      subst (IsEnumeration plan) (sym x.split)
        (record { numbered = x.numbered; shown = x.shown; windows = x.windows })

  tile_render_jobs-HasClip :
      (plan : TileGenerationPlan)
      → ((jobs : List Job) × (tile_render_jobs F source shape plan ≡ ok jobs))
        ↔ All (HasClip F source) (planned_tiles plan.ranges)
  unfolding tile_render_jobs
  tile_render_jobs-HasClip plan = (
    λ (jobs, h).
        let e = tile_render_jobs-IsEnumeration plan jobs h in
        subst (All (HasClip F source)) e.shown (clips F source shape jobs e.windows),
    λ h.
        let (jobs, e) = add_all-total F source shape (planned_tiles plan.ranges) [] h in
        (jobs, add_ranges-eq F source shape plan.ranges [] ∙ e),
  )

  -- Planning followed by the listing of the jobs: they are as many as the plan counts, they show its
  -- tiles once each in the plan's order with their windows, and are numbered in that order.
  pub planned_jobs-IsEnumeration :
      (bounds : GeographicBounds F.Num) (min_zoom max_native_zoom : ℕ) (plan : TileGenerationPlan)
      (jobs : List Job)
      → plan_tile_generation_for_bounds F bounds min_zoom max_native_zoom ≡ ok plan
      → tile_render_jobs F source shape plan ≡ ok jobs
      → (length jobs ≡ plan.tile_count) × IsEnumeration plan jobs
  planned_jobs-IsEnumeration bounds min_zoom max_native_zoom plan jobs planned h =
      let (ranges, _, count, _) = plan-IsPlanned F bounds min_zoom max_native_zoom plan planned in
      let e = tile_render_jobs-IsEnumeration plan jobs h in
      (
        sym (length-map jobs)
            ∙ ap length e.shown
            ∙ length-planned_tiles F bounds min_zoom plan.ranges ranges
            ∙ sym count,
        e,
      )

-- The tile exists, and some area that is not empty lies in it and in the source.
pub record HasOverlap (F : Floating) (source : GeographicBounds F.Num) (coord : TileCoord)
    : Type 0 where
  pub tile : GeographicBounds F.Num
  pub exists : tile_bounds F coord ≡ ok tile
  pub overlaps : Overlaps F tile source

-- The edges of every tile are numbers.
abbrev pub HaveEdges : (F : Floating) → (F.Num → Type 0) → Type 0
HaveEdges F IsNumber =
    (coord : TileCoord) (tile : GeographicBounds F.Num)
    → tile_bounds F coord ≡ ok tile
    → AreNumbers IsNumber tile

module _ (F : Floating) (IsNumber : F.Num → Type 0) (o : IsOrdered F IsNumber)
    (edges : HaveEdges F IsNumber) (source : GeographicBounds F.Num)
    (numbers : AreNumbers IsNumber source) where
  overlaps_of_clips :
      (coords : List TileCoord) → All (HasClip F source) coords → All (HasOverlap F source) coords
  overlaps_of_clips [] _ = tt
  overlaps_of_clips (coord ∷ coords) (h, hs) = (
    record {
      tile = h.tile;
      exists = h.exists;
      overlaps =
          Overlaps-clip_bounds F IsNumber o h.tile source h.shared (edges coord h.tile h.exists)
            numbers h.overlaps;
    },
    overlaps_of_clips coords hs,
  )

  clips_of_overlaps :
      (coords : List TileCoord) → All (HasOverlap F source) coords → All (HasClip F source) coords
  clips_of_overlaps [] _ = tt
  clips_of_overlaps (coord ∷ coords) (h, hs) = (
    (let (k, e) = clip_bounds-Overlaps F IsNumber o h.tile source h.overlaps in
        record { tile = h.tile; shared = k; exists = h.exists; overlaps = e }),
    clips_of_overlaps coords hs,
  )

  -- Where the order of floats obeys its laws and the edges of the tiles and of the source are numbers:
  -- a plan has jobs exactly when each of its tiles exists and some area that is not empty lies in the
  -- tile and in the source; and a tile whose western edge is the source's eastern one has no such area.
  pub tile_render_jobs_iff :
      (shape : RasterShape) (plan : TileGenerationPlan)
      → (((jobs : List Job) × (tile_render_jobs F source shape plan ≡ ok jobs))
          ↔ All (HasOverlap F source) (planned_tiles plan.ranges))
        × ((tile : GeographicBounds F.Num) → tile.west ≡ source.east → Overlaps F tile source → ⊥)
  tile_render_jobs_iff shape plan =
      let (clip, list) = tile_render_jobs-HasClip F source shape plan in
      (
        (
          λ h. overlaps_of_clips (planned_tiles plan.ranges) (clip h),
          λ h. list (clips_of_overlaps (planned_tiles plan.ranges) h),
        ),
        λ tile. Overlaps-touching F IsNumber o tile source,
      )
