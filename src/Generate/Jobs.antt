-- ===== src/Generate/Jobs.antt =====
-- `tile_render_jobs`: the jobs of a plan, one for each of its tiles, numbered in the plan's order.
use lumen_horizon.Prelude.{
  ◌>>=◌, ℕ, zero, suc, ◌+◌, ◌-◌, ◌≡◌, arith, List, [], ◌∷◌, ◌++◌, length, length-append, All, map,
  Result, ok, bind_elim, ok_injective, refl, sym, ap, ◌∙◌, bind_cong, bind_assoc,
}
use mathlib.Core.List.{append-nil, append_assoc}
use mathlib.Core.Path.{subst}
use lumen_horizon.Float.{Floating}
use lumen_horizon.Tiles.Coord.{TileCoord}
use lumen_horizon.Tiles.Range.{GeographicBounds, TileRange}
use lumen_horizon.Science.Mapping.{RasterShape, RasterWindow}
use lumen_horizon.Generate.Types.{GenerateError, TileGenerationPlan}
use lumen_horizon.Generate.Window.{
  raster_window_for_tile, HasClip, raster_window-IsWindow, raster_window-HasClip,
}

-- `(usize, TileCoord, RasterWindow)`
pub record Job : Type 0 where
  pub index : ℕ
  pub coord : TileCoord
  pub window : RasterWindow

abbrev pub tile : ℕ → ℕ → ℕ → TileCoord
tile z x y = record { z = z; x = x; y = y }

module _ (F : Floating) (source : GeographicBounds F.Num) (shape : RasterShape) where
  unfoldable add_job : TileCoord → List Job → Result (GenerateError F) (List Job)
  add_job coord jobs = do
    window ← raster_window_for_tile F coord source shape
    ok (jobs ++ record { index = length jobs; coord = coord; window = window } ∷ [])

  -- The rounds that are left of `for y in range.min_y..=range.max_y`
  unfoldable pub add_rows : ℕ → ℕ → ℕ → ℕ → List Job → Result (GenerateError F) (List Job)
  unfolding add_job
  add_rows z x zero y jobs = ok jobs
  add_rows z x (suc left) y jobs = do
    jobs ← add_job (tile z x y) jobs
    add_rows z x left (suc y) jobs

  -- The rounds that are left of `for x in range.min_x..=range.max_x`
  unfoldable pub add_columns : TileRange → ℕ → ℕ → List Job → Result (GenerateError F) (List Job)
  unfolding add_rows
  add_columns range zero x jobs = ok jobs
  add_columns range (suc left) x jobs = do
    jobs ← add_rows range.z x (range.max_y + 1 - range.min_y) range.min_y jobs
    add_columns range left (suc x) jobs

  unfoldable pub add_ranges : List TileRange → List Job → Result (GenerateError F) (List Job)
  unfolding add_columns
  add_ranges [] jobs = ok jobs
  add_ranges (range ∷ ranges) jobs = do
    jobs ← add_columns range (range.max_x + 1 - range.min_x) range.min_x jobs
    add_ranges ranges jobs

  unfoldable pub tile_render_jobs : TileGenerationPlan → Result (GenerateError F) (List Job)
  unfolding add_ranges
  tile_render_jobs plan = add_ranges plan.ranges []

-- The tiles of a plan, column by column: an independent list of what the jobs have to show.
abbrev pub row_tiles : ℕ → ℕ → ℕ → ℕ → List TileCoord
row_tiles z x zero y = []
row_tiles z x (suc left) y = tile z x y ∷ row_tiles z x left (suc y)

abbrev pub column_tiles : TileRange → ℕ → ℕ → List TileCoord
column_tiles range zero x = []
column_tiles range (suc left) x =
    row_tiles range.z x (range.max_y + 1 - range.min_y) range.min_y
    ++ column_tiles range left (suc x)

abbrev pub planned_tiles : List TileRange → List TileCoord
planned_tiles [] = []
planned_tiles (range ∷ ranges) =
    column_tiles range (range.max_x + 1 - range.min_x) range.min_x ++ planned_tiles ranges

one_more : (jobs : List Job) (job : Job) → length (jobs ++ job ∷ []) ≡ suc (length jobs)
one_more jobs job = omega (arith, length-append jobs (job ∷ []))

-- The jobs are numbered from `k` on.
abbrev pub IsNumbered : ℕ → List Job → Type 0
IsNumbered k [] = Unit
IsNumbered k (job ∷ jobs) = (job.index ≡ k) × IsNumbered (suc k) jobs

module _ (F : Floating) (source : GeographicBounds F.Num) (shape : RasterShape) where
  -- One loop over a list of tiles
  unfoldable pub add_all : List TileCoord → List Job → Result (GenerateError F) (List Job)
  unfolding add_job
  add_all [] jobs = ok jobs
  add_all (coord ∷ coords) jobs = do jobs ← add_job F source shape coord jobs; add_all coords jobs

  add_all-append :
      (xs ys : List TileCoord) (jobs : List Job)
      → (do jobs ← add_all xs jobs; add_all ys jobs) ≡ add_all (xs ++ ys) jobs
  unfolding add_all
  add_all-append [] ys jobs = refl
  add_all-append (x ∷ xs) ys jobs =
      bind_assoc (add_job F source shape x jobs) (add_all xs) (add_all ys)
      ∙ bind_cong (add_job F source shape x jobs) _ _ (add_all-append xs ys)

  add_rows-eq :
      (z x left y : ℕ) (jobs : List Job)
      → add_rows F source shape z x left y jobs ≡ add_all (row_tiles z x left y) jobs
  unfolding add_rows add_all
  add_rows-eq z x zero y jobs = refl
  add_rows-eq z x (suc left) y jobs =
      bind_cong (add_job F source shape (tile z x y) jobs) _ _ (add_rows-eq z x left (suc y))

  add_columns-eq :
      (range : TileRange) (left x : ℕ) (jobs : List Job)
      → add_columns F source shape range left x jobs ≡ add_all (column_tiles range left x) jobs
  unfolding add_columns add_all
  add_columns-eq range zero x jobs = refl
  add_columns-eq range (suc left) x jobs =
      let rows = row_tiles range.z x (range.max_y + 1 - range.min_y) range.min_y in
      rw (add_rows-eq range.z x (range.max_y + 1 - range.min_y) range.min_y jobs) (
        bind_cong (add_all rows jobs) _ _ (add_columns-eq range left (suc x))
        ∙ add_all-append rows (column_tiles range left (suc x)) jobs)

  pub add_ranges-eq :
      (ranges : List TileRange) (jobs : List Job)
      → add_ranges F source shape ranges jobs ≡ add_all (planned_tiles ranges) jobs
  unfolding add_ranges add_all
  add_ranges-eq [] jobs = refl
  add_ranges-eq (range ∷ ranges) jobs =
      let columns = column_tiles range (range.max_x + 1 - range.min_x) range.min_x in
      rw (add_columns-eq range (range.max_x + 1 - range.min_x) range.min_x jobs) (
        bind_cong (add_all columns jobs) _ _ (add_ranges-eq ranges)
        ∙ add_all-append columns (planned_tiles ranges) jobs)

  -- What the loop leaves behind the jobs that it found
  pub record Extended (coords : List TileCoord) (jobs result : List Job) : Type 0 where
    pub new : List Job
    pub split : result ≡ jobs ++ new
    pub numbered : IsNumbered (length jobs) new
    pub shown : map (λ (job : Job). job.coord) new ≡ coords
    pub windows :
        All (λ (job : Job). (raster_window_for_tile F job.coord source shape ≡ ok job.window)) new

  Extended-cons :
      (coord : TileCoord) (coords : List TileCoord) (jobs result : List Job) (w : RasterWindow)
      → raster_window_for_tile F coord source shape ≡ ok w
      → Extended coords
          (jobs ++ record { index = length jobs; coord = coord; window = w } ∷ [])
          result
      → Extended (coord ∷ coords) jobs result
  Extended-cons coord coords jobs result w found x =
      let first : Job = record { index = length jobs; coord = coord; window = w } in
      record {
        new = first ∷ x.new;
        split = x.split ∙ append_assoc jobs (first ∷ []) x.new;
        numbered = (refl, subst (λ n. IsNumbered n x.new) (one_more jobs first) x.numbered);
        shown = ap (λ cs. coord ∷ cs) x.shown;
        windows = (found, x.windows);
      }

  pub add_all-Extended :
      (coords : List TileCoord) (jobs result : List Job)
      → add_all coords jobs ≡ ok result
      → Extended coords jobs result
  unfolding add_all add_job
  add_all-Extended [] jobs result h = record {
    new = [];
    split = sym (ok_injective h) ∙ sym (append-nil jobs);
    numbered = tt;
    shown = refl;
    windows = tt;
  }
  add_all-Extended (coord ∷ coords) jobs result h =
      let (more, e, after) = bind_elim (add_job F source shape coord jobs) _ h in
      let (w, found, last) = bind_elim (raster_window_for_tile F coord source shape) _ e in
      Extended-cons coord coords jobs result w found
        (add_all-Extended coords _ result (rw (← ok_injective last) at after))

  pub add_all-total :
      (coords : List TileCoord) (jobs : List Job)
      → All (HasClip F source) coords
      → (result : List Job) × (add_all coords jobs ≡ ok result)
  unfolding add_all add_job
  add_all-total [] jobs _ = (jobs, refl)
  add_all-total (coord ∷ coords) jobs (h, hs) =
      let (w, found) = raster_window-HasClip F source shape coord h in
      rw found (add_all-total coords _ hs)

  pub clips :
      (jobs : List Job)
      → All (λ (job : Job). (raster_window_for_tile F job.coord source shape ≡ ok job.window)) jobs
      → All (HasClip F source) (map (λ (job : Job). job.coord) jobs)
  clips [] _ = tt
  clips (job ∷ jobs) (h, hs) =
      ((raster_window-IsWindow F source shape job.coord h).0, clips jobs hs)
