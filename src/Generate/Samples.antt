-- ===== src/Generate/Samples.antt =====
-- backend/processing-svc/src/generate/rendering.rs: from the samples of a tile's window to its image.
use lumen_horizon.Prelude.{
  ◌>>=◌, ℕ, zero, suc, ◌+◌, ◌≤◌, ◌<◌, ◌≡◌, ◌==◌, ◌&&◌, arith, Bool, true, not, if◌then◌else◌, List,
  [], ◌∷◌, length, Text, Option, none, some, Result, ok, err, refl, ap, Bool-cases, Result-cases,
  ==_iff, inl, inr,
}
use lumen_horizon.Float.{Floating}
use lumen_horizon.Tiles.Coord.{TileCoord}
use lumen_horizon.Science.Mapping.{DatasetMapping, RasterWindow}
use lumen_horizon.Science.Pixel.{
  classify_pixel_sample, is_renderable_sample, PixelSampleClassification,
}
use lumen_horizon.Publish.Types.{RenderedTile}
use lumen_horizon.Generate.Types.{
  GenerateError, hdf_cli, render_tile_error, sample_count_mismatch, science_error, map_error,
}
use lumen_horizon.Generate.Render.{RenderPixel, render_png_tile}

-- `samples.get(index)`
abbrev pub get_elem? : {A : Type 0} → List A → ℕ → Option A
get_elem? [] index = none
get_elem? (x ∷ xs) zero = some x
get_elem? (x ∷ xs) (suc index) = get_elem? xs index

module _ (F : Floating) where
  pub record RasterSample : Type 0 where
    pub x : F.Num
    pub y : F.Num
    pub value : F.Num

  abbrev is_none_or : ℕ → Option ℕ → Bool
  is_none_or expected none = true
  is_none_or expected (some count) = count == expected

  unfoldable pub validate_aligned_sample_counts :
      ℕ → ℕ → Option ℕ → Option ℕ → Result (GenerateError F) (Unit {0})
  validate_aligned_sample_counts radiance quality cloud observation_count =
      if radiance == quality && is_none_or radiance cloud && is_none_or radiance observation_count
      then ok tt
      else err (sample_count_mismatch radiance quality cloud observation_count)

  abbrev pub count_of : Option (List RasterSample) → Option ℕ
  count_of none = none
  count_of (some samples) = some (length samples)

  abbrev value_of : Option RasterSample → Option F.Num
  value_of none = none
  value_of (some sample) = some sample.value

  -- `samples.and_then(|samples| samples.get(index)).map(|sample| sample.value)`
  abbrev pub value_at : Option (List RasterSample) → ℕ → Option F.Num
  value_at none index = none
  value_at (some samples) index = value_of (get_elem? samples index)

  abbrev pub pixel_of : F.Num → PixelSampleClassification → RenderPixel F
  pixel_of radiance classification =
      let rejected = not (is_renderable_sample classification) in
      record { radiance = if not rejected then some radiance else none; rejected = rejected }

  -- The pixel of one index, where there is a sample of the quality: `none` is a panic.
  abbrev pub pixel_at :
      DatasetMapping F
      → F.Num
      → Option F.Num
      → Option F.Num
      → Option F.Num
      → Option (Result (GenerateError F) (RenderPixel F))
  pixel_at mapping radiance none cloud observation_count = none
  pixel_at mapping radiance (some quality) cloud observation_count = some (do
    classification ←
        map_error science_error
          (classify_pixel_sample F mapping radiance quality cloud observation_count)
    ok (pixel_of radiance classification))

  -- The pixel, and then those of the later samples
  abbrev pub and_later :
      Option (Result (GenerateError F) (RenderPixel F))
      → Option (Result (GenerateError F) (List (RenderPixel F)))
      → Option (Result (GenerateError F) (List (RenderPixel F)))
  and_later none later = none
  and_later (some (err e)) later = some (err e)
  and_later (some (ok pixel)) none = none
  and_later (some (ok pixel)) (some (err e)) = some (err e)
  and_later (some (ok pixel)) (some (ok pixels)) = some (ok (pixel ∷ pixels))

  module _ (mapping : DatasetMapping F) (quality : List RasterSample)
      (cloud observation_count : Option (List RasterSample)) where
    -- The loop from an index on
    unfoldable pub pixels_from :
        ℕ → List RasterSample → Option (Result (GenerateError F) (List (RenderPixel F)))
    pixels_from index [] = some (ok [])
    pixels_from index (sample ∷ samples) =
        and_later
          (pixel_at mapping sample.value (value_of (get_elem? quality index)) (value_at cloud index)
            (value_at observation_count index))
          (pixels_from (suc index) samples)

    unfoldable pub render_pixels_from_samples :
        List RasterSample → Option (Result (GenerateError F) (List (RenderPixel F)))
    unfolding pixels_from validate_aligned_sample_counts
    render_pixels_from_samples radiance =
        elim (validate_aligned_sample_counts (length radiance) (length quality) (count_of cloud)
          (count_of observation_count)) [ err e ↦ some (err e) | ok _ ↦ pixels_from 0 radiance ]

    -- There is a sample of the quality for each of the radiances, from the index on.
    get_elem?-some :
        (samples : List RasterSample) (index : ℕ)
        → index < length samples
        → (s : RasterSample) × (get_elem? samples index ≡ some s)
    get_elem?-some [] index h = absurd (omega arith)
    get_elem?-some (s ∷ samples) zero h = (s, refl)
    get_elem?-some (s ∷ samples) (suc index) h = get_elem?-some samples index (omega arith)

    abbrev pub IsRendered : ℕ → Option (Result (GenerateError F) (List (RenderPixel F))) → Type 0
    IsRendered n none = ⊥
    IsRendered n (some (err e)) = Unit
    IsRendered n (some (ok pixels)) = length pixels ≡ n

    and_later-IsRendered :
        (n : ℕ) (r : Result (GenerateError F) (RenderPixel F))
        (later : Option (Result (GenerateError F) (List (RenderPixel F))))
        → IsRendered n later
        → IsRendered (suc n) (and_later (some r) later)
    and_later-IsRendered n (err e) later h = tt
    and_later-IsRendered n (ok pixel) none h = h
    and_later-IsRendered n (ok pixel) (some (err e)) h = tt
    and_later-IsRendered n (ok pixel) (some (ok pixels)) h = ap suc h

    pixels_from-IsRendered :
        (index : ℕ) (samples : List RasterSample)
        → index + length samples ≤ length quality
        → IsRendered (length samples) (pixels_from index samples)
    unfolding pixels_from
    pixels_from-IsRendered index [] h = refl
    pixels_from-IsRendered index (sample ∷ samples) h =
        let (q, found) = get_elem?-some quality index (omega arith) in
        rw found (
          and_later-IsRendered (length samples) _ (pixels_from (suc index) samples)
            (pixels_from-IsRendered (suc index) samples (omega arith)))

    aligned_count :
        (radiance quality : ℕ) (cloud counts : Option ℕ)
        → validate_aligned_sample_counts radiance quality cloud counts ≡ ok tt
        → radiance ≡ quality
    unfolding validate_aligned_sample_counts
    aligned_count radiance quality cloud counts h = elim (Bool-cases (radiance == quality)) [
      | inl same ↦ (==_iff _ _).0 same
      | inr differ ↦ cc (rw differ at h)
    ]

    -- No index is out of bounds, and the pixels that are returned are as many as the samples.
    pub render_pixels_from_samples-IsRendered :
        (radiance : List RasterSample)
        → IsRendered (length radiance) (render_pixels_from_samples radiance)
    unfolding render_pixels_from_samples
    render_pixels_from_samples-IsRendered radiance =
        elim (Result-cases (
          validate_aligned_sample_counts (length radiance) (length quality) (count_of cloud)
            (count_of observation_count))) [
              | inl (e, f) ↦ rw (f, IsRendered) tt
              | inr (_, f) ↦
                  let same = aligned_count (length radiance) (length quality) _ _ f in
                  rw (f, IsRendered) (pixels_from-IsRendered 0 radiance (omega arith))
            ]

-- The tile at a coordinate with these samples, over the PNG encoder. `none` is a panic.
module _ (F : Floating) (write_image : List ℕ → ℕ → ℕ → Option (List ℕ)) where
  abbrev pub tile_with :
      TileCoord
      → ℕ
      → Result (GenerateError F) (List (RenderPixel F))
      → Result (GenerateError F) RenderedTile
  tile_with coord tile_size pixels = do
    pixels ← pixels
    png_bytes ← map_error (render_tile_error coord) (render_png_tile F write_image tile_size pixels)
    ok (record { coord = coord; png_bytes = png_bytes })

  abbrev pub map_some : {A B : Type 0} → (A → B) → Option A → Option B
  map_some f none = none
  map_some f (some a) = some (f a)

  unfoldable pub render_tile_from_samples :
      DatasetMapping F
      → TileCoord
      → ℕ
      → List (RasterSample F)
      → List (RasterSample F)
      → Option (List (RasterSample F))
      → Option (List (RasterSample F))
      → Option (Result (GenerateError F) RenderedTile)
  unfolding render_pixels_from_samples render_png_tile
  render_tile_from_samples mapping coord tile_size radiance quality cloud observation_count =
      map_some (tile_with coord tile_size)
        (render_pixels_from_samples F mapping quality cloud observation_count radiance)

  -- `dataset_window_samples_resized` of the granule's file: a dataset, a window and the output's size
  module _ (resized : Text → RasterWindow → ℕ × ℕ → Result Text (List (RasterSample F))) where
    abbrev optional_samples :
        Option Text
        → RasterWindow
        → ℕ × ℕ
        → Result (GenerateError F) (Option (List (RasterSample F)))
    optional_samples none window size = ok none
    optional_samples (some name) window size = do
      samples ← map_error hdf_cli (resized name window size)
      ok (some samples)

    -- The samples of the four datasets
    unfoldable pub tile_samples :
        DatasetMapping F
        → RasterWindow
        → ℕ
        → Result (GenerateError F) (
            List (RasterSample F)
            × List (RasterSample F)
            × Option (List (RasterSample F))
            × Option (List (RasterSample F)))
    tile_samples mapping window tile_size = do
      radiance ← map_error hdf_cli (resized mapping.radiance_dataset window (tile_size, tile_size))
      quality ← map_error hdf_cli (resized mapping.quality_dataset window (tile_size, tile_size))
      cloud ← optional_samples mapping.cloud_dataset window (tile_size, tile_size)
      observation_count ←
          optional_samples mapping.observation_count_dataset window (tile_size, tile_size)
      ok (radiance, quality, cloud, observation_count)

    unfoldable pub render_tile_window_from_granule :
        DatasetMapping F
        → TileCoord
        → RasterWindow
        → ℕ
        → Option (Result (GenerateError F) RenderedTile)
    unfolding tile_samples render_tile_from_samples
    render_tile_window_from_granule mapping coord window tile_size =
        elim (tile_samples mapping window tile_size) [
          | err e ↦ some (err e)
          | ok (radiance, quality, cloud, observation_count) ↦
              render_tile_from_samples mapping coord tile_size radiance quality cloud
                observation_count
        ]
