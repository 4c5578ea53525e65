-- ===== src/Science/Mapping.antt =====
-- Which datasets a product has, and the checks that datasets are aligned.
use lumen_horizon.Prelude.{
  ℕ, ◌*◌, ◌^◌, ◌%◌, Text, codes, ◌++◌, ◌&&◌, ◌||◌, not, Option, none, some, Result, ok, err,
  if◌then◌else◌, ◌==◌, min,
}
use lumen_horizon.Float.{Floating}
use lumen_horizon.Message.Product.{
  ProcessingProduct, vnp46a2, vj146a2, vnp46a3, ProductCadence, daily, monthly,
}

pub record RasterShape : Type 0 where
  pub width : ℕ
  pub height : ℕ

pub record RasterWindow : Type 0 where
  pub x_offset : ℕ
  pub y_offset : ℕ
  pub width : ℕ
  pub height : ℕ

abbrev pub dataset : Text → Text
dataset name = codes "//HDFEOS/GRIDS/VIIRS_Grid_DNB_2d/Data_Fields/" ++ name

module _ (F : Floating) where
  pub record DatasetMapping : Type 0 where
    pub product : ProcessingProduct
    pub cadence : ProductCadence
    pub radiance_dataset : Text
    pub quality_dataset : Text
    pub cloud_dataset : Option Text
    pub observation_count_dataset : Option Text
    pub radiance_fill_value : F.Num
    pub radiance_valid_min : F.Num
    pub radiance_scale_factor : F.Num
    pub radiance_offset : F.Num
    pub radiance_units : Text
    pub quality_fill_value : ℕ
    pub cloud_fill_value : Option ℕ
    pub observation_count_fill_value : Option ℕ

  -- The two daily products differ in their name only.
  abbrev pub daily_mapping : ProcessingProduct → DatasetMapping
  daily_mapping p = record {
    product = p;
    cadence = daily;
    radiance_dataset = dataset (codes "Gap_Filled_DNB_BRDF-Corrected_NTL");
    quality_dataset = dataset (codes "Mandatory_Quality_Flag");
    cloud_dataset = some (dataset (codes "QF_Cloud_Mask"));
    observation_count_dataset = none;
    radiance_fill_value = F.neg (F.literal 9999 1);
    radiance_valid_min = F.literal 0 1;
    radiance_scale_factor = F.literal 10 1;
    radiance_offset = F.literal 0 1;
    radiance_units = codes "nWatts/(cm^2 sr)";
    quality_fill_value = 255;
    cloud_fill_value = some 65535;
    observation_count_fill_value = none;
  }

  abbrev pub monthly_mapping : DatasetMapping
  monthly_mapping = record {
    product = vnp46a3;
    cadence = monthly;
    radiance_dataset = dataset (codes "AllAngle_Composite_Snow_Free");
    quality_dataset = dataset (codes "AllAngle_Composite_Snow_Free_Quality");
    cloud_dataset = none;
    observation_count_dataset = some (dataset (codes "AllAngle_Composite_Snow_Free_Num"));
    radiance_fill_value = F.neg (F.literal 9999 1);
    radiance_valid_min = F.literal 0 1;
    radiance_scale_factor = F.literal 10 1;
    radiance_offset = F.literal 0 1;
    radiance_units = codes "nWatts/(cm^2 sr)";
    quality_fill_value = 255;
    cloud_fill_value = none;
    observation_count_fill_value = some 65535;
  }

  abbrev pub dataset_mapping_for_product : ProcessingProduct → DatasetMapping
  dataset_mapping_for_product vnp46a2 = daily_mapping vnp46a2
  dataset_mapping_for_product vj146a2 = daily_mapping vj146a2
  dataset_mapping_for_product vnp46a3 = monthly_mapping

  pub data ScienceError : Type 0 where
    dataset_shape_mismatch : Text → Text → RasterShape → RasterShape → ScienceError
    invalid_integer_sample : Text → F.Num → ScienceError
    sample_window_count_mismatch : Text → RasterWindow → ℕ → ℕ → ScienceError

  unfoldable pub validate_matching_shape :
      Text → RasterShape → Text → RasterShape → Result ScienceError (Unit {0})
  validate_matching_shape reference_dataset reference compared_dataset compared =
      if not (reference.width == compared.width && reference.height == compared.height)
      then err (dataset_shape_mismatch reference_dataset compared_dataset reference compared)
      else ok tt

  unfoldable pub validate_sample_count : Text → RasterWindow → ℕ → Result ScienceError (Unit {0})
  validate_sample_count name window actual =
      let expected = window.width * window.height % 2 ^ 64 in
      if not (actual == expected)
      then err (sample_window_count_mismatch name window expected actual)
      else ok tt

  -- `value as u16` saturates.
  unfoldable pub sample_value_as_u16 : Text → F.Num → Result ScienceError ℕ
  sample_value_as_u16 name value =
      if not (F.is_finite value)
        || F.lt value (F.literal 0 1)
        || not (F.eq (F.fract value) (F.literal 0 1))
        || F.lt (F.of_nat 65535) value
      then err (invalid_integer_sample name value)
      else ok (min (F.floor value) 65535)
