-- ===== src/Generate/Manifest.antt =====
-- backend/processing-svc/src/manifest.rs: the manifest of a tile set, with its checksum. serde's JSON
-- and SHA-256 are parameters.
use lumen_horizon.Prelude.{
  ◌>>=◌, ◌>>◌, ℕ, ◌≡◌, ◌==◌, ◌&&◌, Bool, true, false, if◌then◌else◌, List, [], ◌∷◌, ◌++◌, Text,
  codes, Result, ok, bind_elim, ok_injective, refl,
}
use mathlib.Core.Path.{subst}
use lumen_horizon.Float.{Floating}
use lumen_horizon.Tiles.Range.{GeographicBounds}
use lumen_horizon.Tiles.Paths.{manifest_blob_path}
use lumen_horizon.Publish.Types.{TileManifest}
use lumen_horizon.Generate.Types.{ManifestError, serialize_manifest, manifest_tile_math, map_error}

-- `trim_end_matches('/')`
abbrev is_empty : Text → Bool
is_empty [] = true
is_empty (c ∷ s) = false

unfoldable pub trim_end_slashes : Text → Text
trim_end_slashes [] = []
trim_end_slashes (c ∷ s) =
    let rest = trim_end_slashes s in if c == b'/' && is_empty rest then [] else c ∷ rest

unfoldable pub build_tile_url_template : Text → Text → Result ManifestError Text
unfolding trim_end_slashes
build_tile_url_template cdn_base_url tile_set_id = do
  map_error manifest_tile_math (manifest_blob_path tile_set_id)
  ok (trim_end_slashes cdn_base_url ++ codes "/tiles/" ++ tile_set_id ++ codes "/{z}/{x}/{y}.png")

pub record SourceGranule : Type 0 where
  pub ingest_id : ℕ
  pub product : Text
  pub blob_path : Text

module _ (F : Floating) where
  -- The fields of `AppConfig` that the generation reads
  pub record AppConfig : Type 0 where
    pub processing_max_parallelism : ℕ
    pub tile_min_zoom : ℕ
    pub tile_max_native_zoom : ℕ
    pub tile_max_display_zoom : ℕ
    pub tile_size : ℕ
    pub tile_format : Text
    pub tile_classification_version : Text
    pub tile_render_version : Text
    pub tile_cdn_base_url : Text
    pub tile_bounds : GeographicBounds F.Num

  -- The fields of the manifest that the publication does not read
  pub record ManifestFields : Type 0 where
    pub dataset_date : ℕ
    pub generated_at : ℕ
    pub classification_version : Text
    pub render_version : Text
    pub processor_version : Text
    pub format : Text
    pub tile_size : ℕ
    pub min_zoom : ℕ
    pub max_native_zoom : ℕ
    pub max_display_zoom : ℕ
    pub bounds : GeographicBounds F.Num
    pub tile_url_template : Text
    pub source_granules : List SourceGranule

  pub record TileManifestInput : Type 0 where
    pub tile_set_id : Text
    pub dataset_date : ℕ
    pub generated_at : ℕ
    pub processor_version : Text
    pub bounds : GeographicBounds F.Num
    pub tile_count : ℕ
    pub source_granules : List SourceGranule

  -- `serde_json::to_string`, and the hexadecimal SHA-256 of a text
  module _ (to_string : TileManifest ManifestFields → Result Text Text)
      (sha256_hex : Text → Text) where
    abbrev pub without_checksum : TileManifest ManifestFields → TileManifest ManifestFields
    without_checksum manifest = record manifest { manifest_sha256 = [] }

    unfoldable pub compute_manifest_sha256 : TileManifest ManifestFields → Result ManifestError Text
    compute_manifest_sha256 manifest = do
      json ← map_error serialize_manifest (to_string (without_checksum manifest))
      ok (sha256_hex json)

    abbrev unsigned : AppConfig → TileManifestInput → Text → TileManifest ManifestFields
    unsigned config input tile_url_template = record {
      tile_set_id = input.tile_set_id;
      tile_count = input.tile_count;
      manifest_sha256 = [];
      rest = record {
        dataset_date = input.dataset_date;
        generated_at = input.generated_at;
        classification_version = config.tile_classification_version;
        render_version = config.tile_render_version;
        processor_version = input.processor_version;
        format = config.tile_format;
        tile_size = config.tile_size;
        min_zoom = config.tile_min_zoom;
        max_native_zoom = config.tile_max_native_zoom;
        max_display_zoom = config.tile_max_display_zoom;
        bounds = input.bounds;
        tile_url_template = tile_url_template;
        source_granules = input.source_granules;
      };
    }

    unfoldable pub from_config :
        AppConfig → TileManifestInput → Result ManifestError (TileManifest ManifestFields)
    unfolding build_tile_url_template compute_manifest_sha256
    from_config config input = do
      tile_url_template ← build_tile_url_template config.tile_cdn_base_url input.tile_set_id
      let manifest = unsigned config input tile_url_template
      checksum ← compute_manifest_sha256 manifest
      ok (record manifest { manifest_sha256 = checksum })

    -- The checksum of a manifest is the one that computing it again gives, and the manifest has the
    -- id and the count that it was asked for.
    pub from_config-checksum :
        (config : AppConfig) (input : TileManifestInput) (m : TileManifest ManifestFields)
        → from_config config input ≡ ok m
        → (compute_manifest_sha256 m ≡ ok m.manifest_sha256)
          × (m.tile_set_id ≡ input.tile_set_id)
          × (m.tile_count ≡ input.tile_count)
    unfolding from_config compute_manifest_sha256
    from_config-checksum config input m h =
        let (template, _, after) =
          bind_elim (build_tile_url_template config.tile_cdn_base_url input.tile_set_id) _ h in
        let unsigned_manifest = unsigned config input template in
        let (checksum, e, last) = bind_elim (compute_manifest_sha256 unsigned_manifest) _ after in
        subst
          (λ (m : TileManifest ManifestFields).
            (compute_manifest_sha256 m ≡ ok m.manifest_sha256)
            × (m.tile_set_id ≡ input.tile_set_id)
            × (m.tile_count ≡ input.tile_count))
          (ok_injective last) (e, refl, refl)
