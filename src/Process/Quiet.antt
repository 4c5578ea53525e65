-- ===== src/Process/Quiet.antt =====
-- The steps before the publication change neither a row nor a published blob.
use lumen_horizon.Prelude.{ℕ, suc, Text, List, [], ◌∷◌, Option, none, some, Result, ◌≡◌}
use lumen_horizon.Float.{Floating}
use lumen_horizon.Action.{Preserves, bind-Preserves, lift, ◌>>=◌, ◌>>◌}
use lumen_horizon.Science.Mapping.{DatasetMapping, ScienceError}
use lumen_horizon.Publish.Types.{Outside}
use lumen_horizon.Publish.Types as Publish
use lumen_horizon.Generate.Samples.{RasterSample, get_elem?, value_at}
use lumen_horizon.Generate.Manifest.{ManifestFields}
use lumen_horizon.Generate.Types.{map_error}
use lumen_horizon.Process.Log.{LogRow}
use lumen_horizon.Process.Types.{science, Config, Tools, World}
use lumen_horizon.Process.Gate.{
  Process, optional, check_optional, shape_of, same_shape, samples_of, full_window, classified,
  check_shapes, classify_from, sample_quality,
}

module _ (F : Floating) {T S : Type 0} (tools : Tools F T) (o : Outside S (ManifestFields F))
    (log : List (LogRow F)) (tiles : Publish.World S) where
  abbrev pub Kept : World F T S → Type 0
  Kept w = (w.log ≡ log) × (w.tiles ≡ tiles)

  abbrev pub Quiet : {A : Type 0} → Process F tools o A → Type 0
  Quiet action = Preserves Kept action

  -- What `do` joins is quiet, where its parts are.
  bind-Quiet :
      {A B : Type 0} (first : Process F tools o A) (next : A → Process F tools o B)
      → Quiet first
      → ((a : A) → Quiet (next a))
      → Quiet (first >>= next)
  bind-Quiet first next f h = bind-Preserves Kept first next f h

  optional-Quiet :
      {A : Type 0} (name : Option Text) (action : Text → Process F tools o A)
      → ((n : Text) → Quiet (action n))
      → Quiet (optional F tools o name action)
  optional-Quiet none action h = λ w k. k
  optional-Quiet (some n) action h = bind-Quiet (action n) _ (h n) (λ a w k. k)

  check_optional-Quiet :
      {A : Type 0} (a : Option A) (name : Option Text)
      (check : Text → A → Result (ScienceError F) (Unit {0}))
      → Quiet (check_optional F tools o a name check)
  check_optional-Quiet (some a) (some n) check w k = k
  check_optional-Quiet (some a) none check w k = k
  check_optional-Quiet none name check w k = k

  -- Two datasets that a mapping has, and two that it may have
  four-Quiet :
      {A B : Type 0} (mapping : DatasetMapping F) (of : Text → Process F tools o A)
      (next : A → A → Option A → Option A → Process F tools o B)
      → ((n : Text) → Quiet (of n))
      → ((a b : A) (c d : Option A) → Quiet (next a b c d))
      → Quiet (do
        a ← of mapping.radiance_dataset
        b ← of mapping.quality_dataset
        c ← optional F tools o mapping.cloud_dataset of
        d ← optional F tools o mapping.observation_count_dataset of
        next a b c d)
  four-Quiet mapping of next h k =
      bind-Quiet (of mapping.radiance_dataset) _ (h mapping.radiance_dataset) (λ a.
        bind-Quiet (of mapping.quality_dataset) _ (h mapping.quality_dataset) (λ b.
          bind-Quiet (optional F tools o mapping.cloud_dataset of) _
            (optional-Quiet mapping.cloud_dataset of h)
            (λ c.
              bind-Quiet (optional F tools o mapping.observation_count_dataset of) _
                (optional-Quiet mapping.observation_count_dataset of h) (k a b c))))

  -- The checks of the two datasets that a mapping may have
  checks-Quiet :
      {A B : Type 0} (mapping : DatasetMapping F) (c d : Option A)
      (check : Text → A → Result (ScienceError F) (Unit {0})) (next : Process F tools o B)
      → Quiet next
      → Quiet (do
        check_optional F tools o c mapping.cloud_dataset check
        check_optional F tools o d mapping.observation_count_dataset check
        next)
  checks-Quiet mapping c d check next h =
      bind-Quiet (check_optional F tools o c mapping.cloud_dataset check) _
        (check_optional-Quiet c mapping.cloud_dataset check)
        (λ u.
          bind-Quiet (check_optional F tools o d mapping.observation_count_dataset check) _
            (check_optional-Quiet d mapping.observation_count_dataset check) (λ u. h))

  pub check_shapes-Quiet : (mapping : DatasetMapping F) → Quiet (check_shapes F tools o mapping)
  unfolding check_shapes
  check_shapes-Quiet mapping =
      four-Quiet mapping (shape_of F tools o) _ (λ n w k. k)
        (λ a b c d.
          bind-Quiet
            (lift (map_error science (same_shape F tools o mapping a mapping.quality_dataset b))) _
            (λ w k. k)
            (λ u. checks-Quiet mapping c d (same_shape F tools o mapping a) _ (λ w k. k)))

  classify_from-Quiet :
      (mapping : DatasetMapping F) (quality : List (RasterSample F))
      (cloud counts : Option (List (RasterSample F))) (index : ℕ) (samples : List (RasterSample F))
      → Quiet (classify_from F tools o mapping quality cloud counts index samples)
  unfolding classify_from
  classify_from-Quiet mapping quality cloud counts index [] = λ w k. k
  classify_from-Quiet mapping quality cloud counts index (sample ∷ samples) =
      bind-Quiet
        (lift (
          classified F tools o mapping sample.value (get_elem? quality index)
            (value_at F cloud index) (value_at F counts index)))
        _ (λ w k. k)
        (λ c.
          bind-Quiet (classify_from F tools o mapping quality cloud counts (suc index) samples) _
            (classify_from-Quiet mapping quality cloud counts (suc index) samples) (λ cs w k. k))

  pub sample_quality-Quiet :
      (config : Config F) (mapping : DatasetMapping F)
      → Quiet (sample_quality F tools o config mapping)
  unfolding sample_quality
  sample_quality-Quiet config mapping =
      four-Quiet mapping (samples_of F tools o) _ (λ n w k. k)
        (λ a b c d.
          bind-Quiet (lift (map_error science (full_window F tools o mapping.radiance_dataset a))) _
            (λ w k. k)
            (λ u.
              bind-Quiet
                (lift (map_error science (full_window F tools o mapping.quality_dataset b))) _
                (λ w k. k)
                (λ u. checks-Quiet mapping c d (full_window F tools o) _ (
                  bind-Quiet (classify_from F tools o mapping b c d 0 a) _
                    (classify_from-Quiet mapping b c d 0 a) (λ cs w k. k)))))
