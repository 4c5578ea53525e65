-- ===== src/Science/Pixel.antt =====
-- The classes of one sample.
use lumen_horizon.Prelude.{
  ℕ, ◌/◌, ◌%◌, Text, codes, Bool, true, false, ◌&&◌, ◌||◌, not, Option, none, some, Result, ok,
  ◌>>=◌, if◌then◌else◌, ◌==◌, min, ◌≡◌, ◌↔◌, arith, refl,
}
use lumen_horizon.Float.{Floating}
use lumen_horizon.Message.Product.{ProcessingProduct, ProductCadence, daily, monthly}
use lumen_horizon.Science.Mapping.{
  daily_mapping, dataset, DatasetMapping, ScienceError, sample_value_as_u16,
}

pub data PixelQuality : Type 0 where
  valid invalid : PixelQuality

unfoldable pub classify_daily_quality : ℕ → PixelQuality
classify_daily_quality quality_flag = if quality_flag == 0 then valid else invalid

unfoldable pub classify_monthly_quality : ℕ → PixelQuality
classify_monthly_quality quality_flag =
    if quality_flag == 0 || quality_flag == 2 then valid else invalid

-- `(qf_cloud_mask >> 6) & 0b11` is 2 or 3.
unfoldable pub is_cloud_contaminated : ℕ → Bool
is_cloud_contaminated qf_cloud_mask =
    let cloud_detection_bits = qf_cloud_mask / 64 % 4 in
    cloud_detection_bits == 2 || cloud_detection_bits == 3

pub record PixelSampleClassification : Type 0 where
  pub radiance_quality : PixelQuality
  pub quality_mask_quality : PixelQuality
  pub quality_sample : ℕ
  pub cloud_contaminated : Option Bool
  pub observation_count_sample : Option ℕ

abbrev pub is_valid : PixelQuality → Bool
is_valid valid = true
is_valid invalid = false

-- `== Some(true)`
abbrev pub is_some_true : Option Bool → Bool
is_some_true none = false
is_some_true (some b) = b

unfoldable pub is_renderable_sample : PixelSampleClassification → Bool
is_renderable_sample c =
    is_valid c.radiance_quality
    && is_valid c.quality_mask_quality
    && not (is_some_true c.cloud_contaminated)

module _ (F : Floating) where
  unfoldable pub classify_radiance : DatasetMapping F → F.Num → PixelQuality
  classify_radiance mapping radiance =
      if F.eq radiance mapping.radiance_fill_value || F.lt radiance mapping.radiance_valid_min
      then invalid
      else valid

  abbrev pub classify_quality : ProductCadence → ℕ → PixelQuality
  classify_quality daily flag = classify_daily_quality flag
  classify_quality monthly flag = classify_monthly_quality flag

  -- A sample that the mapping has no dataset for, or that is missing, stays `none`.
  unfoldable pub optional_u16 : Option Text → Option F.Num → Result (ScienceError F) (Option ℕ)
  optional_u16 (some name) (some value) = do n ← sample_value_as_u16 F name value; ok (some n)
  optional_u16 (some name) none = ok none
  optional_u16 none value = ok none

  abbrev pub cloud_of : Option ℕ → Option Bool
  cloud_of none = none
  cloud_of (some mask) = some (is_cloud_contaminated mask)

  unfoldable pub classify_pixel_sample :
      DatasetMapping F
      → F.Num
      → F.Num
      → Option F.Num
      → Option F.Num
      → Result (ScienceError F) PixelSampleClassification
  classify_pixel_sample mapping radiance quality cloud observation_count = do
    quality_sample ← sample_value_as_u16 F mapping.quality_dataset quality
    cloud_mask ← optional_u16 mapping.cloud_dataset cloud
    observation_count_sample ← optional_u16 mapping.observation_count_dataset observation_count
    ok (record {
      radiance_quality = classify_radiance mapping radiance;
      quality_mask_quality = classify_quality mapping.cadence (min quality_sample 255);
      quality_sample = quality_sample;
      cloud_contaminated = cloud_of cloud_mask;
      observation_count_sample = observation_count_sample;
    })

-- A cloud mask is contaminated exactly when its bit 7 is set.
pub is_cloud_contaminated_iff :
    (mask : ℕ) → (is_cloud_contaminated mask ≡ true) ↔ (mask / 128 % 2 ≡ 1)
unfolding is_cloud_contaminated
is_cloud_contaminated_iff mask = (λ h. ground arith, λ h. ground arith)

renderable_cases :
    (radiance : PixelQuality) (n mask : ℕ) (counts : Option ℕ)
    → (is_renderable_sample (record {
      radiance_quality = radiance;
      quality_mask_quality = classify_daily_quality (min n 255);
      quality_sample = n;
      cloud_contaminated = some (is_cloud_contaminated mask);
      observation_count_sample = counts;
    })
        ≡ true)
      ↔ ((radiance ≡ valid) × (n ≡ 0) × (mask / 128 % 2 ≡ 0))
unfolding is_renderable_sample classify_daily_quality is_cloud_contaminated
renderable_cases valid n mask counts =
    (λ h. (refl, ground arith, ground arith), λ (_, zero_flag, clear). ground arith)
renderable_cases invalid n mask counts = (λ h. cc, λ (h, _, _). cc)

module _ (F : Floating) where
  -- A daily sample whose quality and cloud values are u16 numbers is classified, and it is rendered
  -- exactly when its radiance is valid, its quality flag is 0 and bit 7 of its cloud mask is clear.
  pub classify_pixel_sample-daily :
      (p : ProcessingProduct) (radiance quality cloud : F.Num) (n mask : ℕ)
      → sample_value_as_u16 F (daily_mapping F p).quality_dataset quality ≡ ok n
      → sample_value_as_u16 F (dataset (codes "QF_Cloud_Mask")) cloud ≡ ok mask
      → (c : PixelSampleClassification) × (classify_pixel_sample F
            (daily_mapping F p)
            radiance
            quality
            (some cloud)
            none
          ≡ ok c)
        × ((is_renderable_sample c ≡ true) ↔ (
            (classify_radiance F (daily_mapping F p) radiance ≡ valid)
            × (n ≡ 0)
            × (mask / 128 % 2 ≡ 0)))
  unfolding classify_pixel_sample optional_u16
  classify_pixel_sample-daily p radiance quality cloud n mask q m = (
    _,
    rw (q, m) refl,
    renderable_cases (classify_radiance F (daily_mapping F p) radiance) n mask none,
  )
