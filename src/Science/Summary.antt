-- ===== src/Science/Summary.antt =====
-- The counts of the quality gate.
use lumen_horizon.Prelude.{
  ℕ, suc, ◌+◌, ◌-◌, ◌≤◌, Text, codes, Bool, ◌&&◌, Option, none, some, if◌then◌else◌, ◌==◌, List, [],
  ◌∷◌, length, ◌≡◌, arith, refl,
}
use lumen_horizon.Float.{Floating}
use lumen_horizon.Science.Pixel.{
  PixelSampleClassification, is_valid, is_some_true, is_renderable_sample,
}

pub record QualitySummary (F : Floating) : Type 0 where
  pub total_pixel_count : ℕ
  pub valid_pixel_count : ℕ
  pub rejected_pixel_count : ℕ
  pub cloud_contaminated_valid_pixel_count : ℕ
  pub cloud_fraction : F.Num

abbrev pub is_valid_sample : PixelSampleClassification → Bool
is_valid_sample c = is_valid c.radiance_quality && is_valid c.quality_mask_quality

-- The two counters of the loop
unfoldable pub count_valid : List PixelSampleClassification → ℕ → ℕ → ℕ × ℕ
count_valid [] valid cloudy = (valid, cloudy)
count_valid (c ∷ cs) valid cloudy =
    if is_valid_sample c
    then count_valid cs (valid + 1)
        (if is_some_true c.cloud_contaminated then cloudy + 1 else cloudy)
    else count_valid cs valid cloudy

module _ (F : Floating) where
  -- `as f32` of the two counters, where there is a valid pixel
  unfoldable pub cloud_fraction_of : ℕ → ℕ → F.Num
  cloud_fraction_of valid cloudy =
      if valid == 0 then F.literal 0 1 else F.div (F.of_nat cloudy) (F.of_nat valid)

  unfoldable pub summarize_quality : List PixelSampleClassification → QualitySummary F
  unfolding count_valid cloud_fraction_of
  summarize_quality cs =
      let (valid, cloudy) = count_valid cs 0 0 in
      record {
        total_pixel_count = length cs;
        valid_pixel_count = valid;
        rejected_pixel_count = length cs - valid;
        cloud_contaminated_valid_pixel_count = cloudy;
        cloud_fraction = cloud_fraction_of valid cloudy;
      }

  unfoldable pub exceeds_max_cloud_fraction : QualitySummary F → F.Num → Bool
  exceeds_max_cloud_fraction summary max_cloud_fraction =
      F.lt max_cloud_fraction summary.cloud_fraction

  unfoldable pub cloud_rejection_reason : QualitySummary F → F.Num → Option Text
  unfolding exceeds_max_cloud_fraction
  cloud_rejection_reason summary max_cloud_fraction =
      if exceeds_max_cloud_fraction summary max_cloud_fraction
      then some (codes "cloud fraction exceeds configured maximum")
      else none

-- How many elements pass a test
abbrev pub count : {A : Type 0} → (A → Bool) → List A → ℕ
count p [] = 0
count p (x ∷ xs) = let rest = count p xs in if p x then suc rest else rest

abbrev is_cloudy : PixelSampleClassification → Bool
is_cloudy c = is_valid_sample c && is_some_true c.cloud_contaminated

count_valid-count :
    (cs : List PixelSampleClassification) (valid cloudy : ℕ)
    → ((count_valid cs valid cloudy).0 ≡ valid + count is_valid_sample cs)
      × ((count_valid cs valid cloudy).1 ≡ cloudy + count is_cloudy cs)
unfolding count_valid
count_valid-count [] valid cloudy = (omega arith, omega arith)
count_valid-count (c ∷ cs) valid cloudy =
    let more =
      count_valid-count cs (valid + 1)
        (if is_some_true c.cloud_contaminated then cloudy + 1 else cloudy) in
    let same = count_valid-count cs valid cloudy in
    (ground (arith, more, same), ground (arith, more, same))

count_renderable :
    (cs : List PixelSampleClassification)
    → count is_renderable_sample cs + count is_cloudy cs ≡ count is_valid_sample cs
unfolding is_renderable_sample
count_renderable [] = refl
count_renderable (c ∷ cs) = ground (arith, count_renderable cs)

count_le : (cs : List PixelSampleClassification) → count is_valid_sample cs ≤ length cs
count_le [] = omega arith
count_le (c ∷ cs) = ground (arith, count_le cs)

module _ (F : Floating) where
  -- The summary's counts fit together: the valid and the rejected pixels are all pixels, and the valid
  -- pixels without the cloudy ones are those that the renderer will use.
  pub summarize_quality-count :
      (cs : List PixelSampleClassification)
      → (let s = summarize_quality F cs in
          (s.total_pixel_count ≡ length cs)
          × (s.valid_pixel_count + s.rejected_pixel_count ≡ s.total_pixel_count)
          × (count is_renderable_sample cs + s.cloud_contaminated_valid_pixel_count
              ≡ s.valid_pixel_count))
  unfolding summarize_quality
  summarize_quality-count cs =
      let (v, c) = count_valid-count cs 0 0 in
      let bound = count_le cs in
      let parts = count_renderable cs in (refl, omega (arith, v, bound), omega (arith, v, c, parts))
