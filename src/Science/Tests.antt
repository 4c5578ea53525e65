-- ===== src/Science/Tests.antt =====
-- Samples in fixed-point numbers, and the witnesses.
use lumen_horizon.Prelude.{
  ℕ, ◌+◌, ◌/◌, ◌%◌, codes, Bool, true, false, Option, none, some, ok, List, [], ◌∷◌, ◌≡◌, ◌↔◌, refl,
}
use lumen_horizon.Prelude.Int.{ℤ}
use lumen_horizon.Float.Fixed.{fixed}
use lumen_horizon.Message.Product.{vnp46a2}
use lumen_horizon.Science.Mapping.{daily_mapping, dataset, sample_value_as_u16}
use lumen_horizon.Science.Pixel.{
  PixelSampleClassification, PixelQuality, valid, invalid, is_renderable_sample,
  classify_pixel_sample, classify_pixel_sample-daily, classify_radiance,
}
use lumen_horizon.Science.Summary.{summarize_quality, summarize_quality-count, count}

-- a clear and a cloudy pixel, and one with a bad flag
abbrev sample : PixelQuality → Option Bool → PixelSampleClassification
sample flag cloud = record {
  radiance_quality = valid;
  quality_mask_quality = flag;
  quality_sample = 0;
  cloud_contaminated = cloud;
  observation_count_sample = none;
}

abbrev samples : List PixelSampleClassification
samples = sample valid (some false) ∷ sample valid (some true) ∷ sample invalid none ∷ []

summarize_quality-count_example :
    (let s = summarize_quality fixed samples in
      (s.total_pixel_count ≡ 3)
      × (s.valid_pixel_count + s.rejected_pixel_count ≡ s.total_pixel_count)
      × (count is_renderable_sample samples + s.cloud_contaminated_valid_pixel_count
          ≡ s.valid_pixel_count))
summarize_quality-count_example = summarize_quality-count fixed samples

abbrev number : ℕ → ℤ
number n = fixed.of_nat n

flag_0 : sample_value_as_u16 fixed (daily_mapping fixed vnp46a2).quality_dataset (number 0) ≡ ok 0
unfolding sample_value_as_u16
flag_0 = refl

mask_64 : sample_value_as_u16 fixed (dataset (codes "QF_Cloud_Mask")) (number 64) ≡ ok 64
unfolding sample_value_as_u16
mask_64 = refl

classify_pixel_sample-daily_example :
    (c : PixelSampleClassification) × (classify_pixel_sample fixed
        (daily_mapping fixed vnp46a2)
        (number 3)
        (number 0)
        (some (number 64))
        none
      ≡ ok c)
    × ((is_renderable_sample c ≡ true) ↔ (
        (classify_radiance fixed (daily_mapping fixed vnp46a2) (number 3) ≡ valid)
        × (let n : ℕ = 0 in n ≡ 0)
        × (64 / 128 % 2 ≡ 0)))
classify_pixel_sample-daily_example =
    classify_pixel_sample-daily fixed vnp46a2 (number 3) (number 0) (number 64) 0 64 flag_0 mask_64
