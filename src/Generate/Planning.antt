-- ===== src/Generate/Planning.antt =====
-- `plan_tile_generation_for_bounds` and `tile_range_tile_count`.
use native.Mathlib.Nat.{mul-le-mul, pow-le-pow_right}
use lumen_horizon.Prelude.{
  ◌>>=◌, ℕ, zero, suc, ◌-◌, ◌+◌, ◌*◌, ◌^◌, ◌%◌, ◌≤◌, ◌<◌, ◌≡◌, arith, ltb, if◌then◌else◌, Result,
  ok, err, bind_elim, ok_injective, refl, List, [], ◌∷◌, ◌++◌, length, ap, sym, ◌∙◌,
}
use mathlib.Core.List.{append-nil, append_assoc}
use lumen_horizon.Float.{Floating}
use lumen_horizon.Tiles.Coord.{TileMathError}
use lumen_horizon.Generate.Types.{GenerateError, tile_math, tile_count_overflow, TileGenerationPlan}
use lumen_horizon.Tiles.Range.{
  GeographicBounds, TileRange, tile_range_for_bounds, IsRange, tile_range_for_bounds-IsRange,
  IsCover, tile_range_for_bounds-IsCover,
}

abbrev pub tile_error :
    {F : Floating} {A : Type 0} → Result TileMathError A → Result (GenerateError F) A
tile_error (ok a) = ok a
tile_error (err e) = err (tile_math e)

-- u32 subtraction and sum, and u64 product.
unfoldable pub tile_range_tile_count : TileRange → ℕ
tile_range_tile_count r =
    let width = (r.max_x + 2 ^ 32 - r.min_x + 1) % 2 ^ 32 in
    let height = (r.max_y + 2 ^ 32 - r.min_y + 1) % 2 ^ 32 in width * height % 2 ^ 64

module _ (F : Floating) (bounds : GeographicBounds F.Num) where
  -- The rounds of `for z in min_zoom..=max_native_zoom`, with the count of rounds left.
  unfoldable pub plan_zooms :
      ℕ → ℕ → List TileRange → ℕ → Result (GenerateError F) (List TileRange × ℕ)
  plan_zooms zero z ranges count = ok (ranges, count)
  plan_zooms (suc left) z ranges count = do
    range ← tile_error (tile_range_for_bounds F bounds z)
    plan_zooms left (suc z) (ranges ++ range ∷ []) ((count + tile_range_tile_count range) % 2 ^ 64)

  -- `u32::try_from`
  abbrev checked_plan : List TileRange × ℕ → Result (GenerateError F) TileGenerationPlan
  checked_plan (ranges, count) =
      if ltb count (2 ^ 32)
      then ok (record { ranges = ranges; tile_count = count })
      else err (tile_count_overflow count)

  unfoldable pub plan_tile_generation_for_bounds :
      ℕ → ℕ → Result (GenerateError F) TileGenerationPlan
  unfolding plan_zooms
  plan_tile_generation_for_bounds min_zoom max_native_zoom = do
    planned ← plan_zooms (max_native_zoom + 1 - min_zoom) min_zoom [] 0
    checked_plan planned

-- The count of tiles in ranges, with no bound on the numbers.
abbrev pub area : TileRange → ℕ
area r = (r.max_x - r.min_x + 1) * (r.max_y - r.min_y + 1)

abbrev pub areas : List TileRange → ℕ
areas [] = 0
areas (r ∷ rs) = area r + areas rs

area-le : (z : ℕ) (r : TileRange) → IsRange z r → area r ≤ 2 ^ 44
area-le z r h =
    let high : 2 ^ z ≤ 2 ^ 22 = pow-le-pow_right {n = 2} (omega arith) {j = 22} h.zoom in
    let w : r.max_x - r.min_x + 1 ≤ 2 ^ 22 = omega arith in
    let v : r.max_y - r.min_y + 1 ≤ 2 ^ 22 = omega arith in
    mul-le-mul {n₂ = 2 ^ 22} {m₂ = 2 ^ 22} w v

-- On a range of tiles nothing wraps around.
pub tile_range_tile_count-eq-area :
    (z : ℕ) (r : TileRange) → IsRange z r → tile_range_tile_count r ≡ area r
unfolding tile_range_tile_count
tile_range_tile_count-eq-area z r h =
    let high : 2 ^ z ≤ 2 ^ 22 = pow-le-pow_right {n = 2} (omega arith) {j = 22} h.zoom in
    let w : (r.max_x + 2 ^ 32 - r.min_x + 1) % 2 ^ 32 ≡ r.max_x - r.min_x + 1 = omega arith in
    let v : (r.max_y + 2 ^ 32 - r.min_y + 1) % 2 ^ 32 ≡ r.max_y - r.min_y + 1 = omega arith in
    rw (w, v) (omega (arith, area-le z r h))

module _ (F : Floating) (bounds : GeographicBounds F.Num) where
  -- One range for each zoom from `z` on, of tiles that exist there, which covers the bounds.
  abbrev pub IsPlanned : ℕ → List TileRange → Type 0
  IsPlanned z [] = Unit
  IsPlanned z (r ∷ rs) =
      (tile_range_for_bounds F bounds z ≡ ok r)
      × IsRange z r
      × IsCover F bounds r
      × IsPlanned (suc z) rs

  tile_error-eq-ok :
      (m : Result TileMathError TileRange) {r : TileRange} → tile_error {F = F} m ≡ ok r → m ≡ ok r
  tile_error-eq-ok (ok a) h = cc
  tile_error-eq-ok (err e) h = cc

  abbrev Added : List TileRange → ℕ → ℕ → ℕ → List TileRange × ℕ → Type 0
  Added acc count left z (ranges, total) =
      (new : List TileRange) × (ranges ≡ acc ++ new)
      × IsPlanned z new
      × (length new ≡ left)
      × (total ≡ count + areas new)

  Added-cons :
      (acc : List TileRange) (count left z : ℕ) (r : TileRange) (result : List TileRange × ℕ)
      → tile_range_for_bounds F bounds z ≡ ok r
      → IsRange z r
      → Added (acc ++ r ∷ []) (count + area r) left (suc z) result
      → Added acc count (suc left) z result
  Added-cons acc count left z r (ranges, total) found range (new, split, planned, same, sum) = (
    r ∷ new,
    split ∙ append_assoc acc (r ∷ []) new,
    (found, range, tile_range_for_bounds-IsCover F bounds z found, planned),
    ap suc same,
    omega arith,
  )

  plan_zooms-Added :
      (left z : ℕ) (acc : List TileRange) (count : ℕ) (result : List TileRange × ℕ)
      → count ≤ z * 2 ^ 44
      → plan_zooms F bounds left z acc count ≡ ok result
      → Added acc count left z result
  unfolding plan_zooms
  plan_zooms-Added zero z acc count result fits h =
      rw (← ok_injective h) ([], sym (append-nil acc), tt, refl, omega arith)
  plan_zooms-Added (suc left) z acc count result fits h =
      let (r, e, after) = bind_elim (tile_error (tile_range_for_bounds F bounds z)) _ h in
      let found = tile_error-eq-ok _ e in
      let range = tile_range_for_bounds-IsRange F bounds z found in
      let exact = tile_range_tile_count-eq-area z r range in
      let small = area-le z r range in
      let zoom = range.zoom in
      let sum : (count + tile_range_tile_count r) % 2 ^ 64 ≡ count + area r = omega arith in
      Added-cons acc count left z r result found range (
        plan_zooms-Added left (suc z) (acc ++ r ∷ []) (count + area r) result (omega arith)
          (rw sum at after))

  checked_plan_elim :
      (planned : List TileRange × ℕ) (plan : TileGenerationPlan)
      → checked_plan F bounds planned ≡ ok plan
      → (planned.0 ≡ plan.ranges) × (planned.1 ≡ plan.tile_count) × (plan.tile_count < 2 ^ 32)
  checked_plan_elim (ranges, count) plan h = ground arith

  IsPlanned-checked :
      (left z : ℕ) (planned : List TileRange × ℕ) (plan : TileGenerationPlan)
      → Added [] 0 left z planned
      → checked_plan F bounds planned ≡ ok plan
      → IsPlanned z plan.ranges
        × (length plan.ranges ≡ left)
        × (plan.tile_count ≡ areas plan.ranges)
        × (plan.tile_count < 2 ^ 32)
  IsPlanned-checked left z (ranges, count) plan (new, split, planned, same, sum) h =
      let (e, f, fits) = checked_plan_elim (ranges, count) plan h in
      let g : new ≡ plan.ranges = sym split ∙ e in rw (← g) (planned, same, omega arith, fits)

  -- A plan that is returned has one range for each zoom from `min_zoom` to `max_native_zoom`, in that
  -- order, of tiles that exist at the zoom. The columns and rows of the four edges of the bounds lie in
  -- the range, which is no wider and no higher than they ask for. The plan's tile count is the count of
  -- all these tiles: neither the products nor the u64 sum has wrapped around, and the count is a u32.
  pub plan-IsPlanned :
      (min_zoom max_native_zoom : ℕ) (plan : TileGenerationPlan)
      → plan_tile_generation_for_bounds F bounds min_zoom max_native_zoom ≡ ok plan
      → IsPlanned min_zoom plan.ranges
        × (length plan.ranges ≡ max_native_zoom + 1 - min_zoom)
        × (plan.tile_count ≡ areas plan.ranges)
        × (plan.tile_count < 2 ^ 32)
  unfolding plan_tile_generation_for_bounds
  plan-IsPlanned min_zoom max_native_zoom plan h =
      let (planned, e, checked) =
        bind_elim (plan_zooms F bounds (max_native_zoom + 1 - min_zoom) min_zoom [] 0) _ h in
      IsPlanned-checked _ min_zoom planned plan
        (plan_zooms-Added _ min_zoom [] 0 planned (omega arith) e) checked
