-- ===== src/Process/Tests.antt =====
-- The processing of one message at concrete inputs.
use lumen_horizon.Prelude.{
  ℕ, ◌*◌, ◌^◌, ◌≡◌, arith, refl, List, [], ◌∷◌, Text, codes, none, some, Result, ok, err,
}
use lumen_horizon.Prelude.Int.{pos}
use lumen_horizon.Float.Fixed.{fixed}
use lumen_horizon.Message.Validate.{ProcessingMessage}
use lumen_horizon.Ingest.World.{applied}
use lumen_horizon.Publish.Types.{Outside}
use lumen_horizon.Publish.Triple.{Outcome}
use lumen_horizon.Generate.Samples.{RasterSample}
use lumen_horizon.Generate.Manifest.{ManifestFields}
use lumen_horizon.Process.Log.{missing_ingest_log, upsert_processing_started}
use lumen_horizon.Process.TileSetId.{tile_set_id_for_message, tile_set_id_for_message_injective}
use lumen_horizon.Process.Types.{Config, Tools, World, database}
use lumen_horizon.Process.Message.{process_parsed_message}
use lumen_horizon.Process.Accepted.{IsSafe, IsDone}
use lumen_horizon.Process.Done.{process_parsed_message-IsDone}

abbrev message : ProcessingMessage ℕ ℕ
message = record {
  ingest_id = 7;
  blob_path = codes "VNP46A2/2026-05-21/h18v08.h5";
  product = codes "VNP46A2";
  granule_date = 20260521;
  tile_h = pos 18;
  tile_v = pos 8;
}

abbrev done : ℕ → Result Text (Unit {0}) × ℕ
done t = (ok tt, t)

abbrev sample : RasterSample fixed
sample = record { x = pos 0; y = pos 0; value = pos 0 }

abbrev tools : Tools fixed ℕ
tools = record {
  connect = done;
  statement = λ t. (applied, t);
  new_v4 = λ t. (t, t);
  now = λ t. t;
  verify_gdalinfo_available = done;
  create_dir_all = done;
  new_blob_client = done;
  download_raw_blob_to_path = λ path. done;
  dataset_shape = λ name t. (ok (record { width = 10; height = 10 }), t);
  dataset_window_samples = λ name window t. (ok (sample ∷ sample ∷ sample ∷ sample ∷ []), t);
  resized = λ t name window size. ok (sample ∷ []);
  schedule = λ t k. 0;
  remove_dir_all = λ t. t;
  write_image = λ rgba width height. some rgba;
  to_string = λ m. ok m.tile_set_id;
  sha256_hex = λ s. s;
  date_naive = λ d. d;
  date_text = λ d. codes "2026-05-21";
  simple = λ id. codes "a1b2c3d4e5";
  cargo_version = codes "1";
}

abbrev outside : Outside ℕ (ManifestFields fixed)
outside = record {
  storage = λ n. (applied, n);
  database = λ n. (applied, n);
  manifest_json = λ m. ok m.tile_set_id;
  pointer_json = λ p. ok p.tile_set_id;
  bounds_json = λ m. ok [];
}

abbrev config : Config fixed
config = record {
  app = record {
    processing_max_parallelism = 1;
    tile_min_zoom = 0;
    tile_max_native_zoom = 0;
    tile_max_display_zoom = 2;
    tile_size = 1;
    tile_format = codes "png";
    tile_classification_version = codes "v1";
    tile_render_version = codes "r1";
    tile_cdn_base_url = codes "https://t/";
    tile_bounds = record {
      west = pos 0;
      south = pos (1 * 10 ^ 8);
      east = pos (10 * 10 ^ 8);
      north = pos (3 * 10 ^ 8);
    };
  };
  max_cloud_fraction = pos (10 ^ 8);
}

abbrev world : List ℕ → World fixed ℕ ℕ
world known = record {
  log = [];
  ingest_ids = known;
  outer = 0;
  tiles = record { blobs = λ p. none; tile_sets = []; outer = 0 };
}

refuses_unknown_ingest :
    (process_parsed_message fixed tools outside config message (world [])).0
    ≡ err (database (missing_ingest_log 7))
unfolding process_parsed_message upsert_processing_started
refuses_unknown_ingest = refl

process_parsed_message-IsDone_example :
    Outcome
      (IsSafe fixed tools outside config message (world (7 ∷ [])).tiles [])
      (λ u. IsDone fixed tools outside config message (world (7 ∷ [])).tiles [])
      (process_parsed_message fixed tools outside config message (world (7 ∷ [])))
process_parsed_message-IsDone_example =
    process_parsed_message-IsDone fixed tools outside config message (world (7 ∷ []))

abbrev second_id : Text
second_id = codes "2026-05-21-v1-a1b2c3d4-a2"

names_second_attempt :
    tile_set_id_for_message tools.date_text tools.simple (codes "v1") message 2 ≡ second_id
unfolding tile_set_id_for_message
names_second_attempt = refl

tile_set_id_for_message_injective_example : let n : ℕ = 2 in n ≡ 2
tile_set_id_for_message_injective_example =
    tile_set_id_for_message_injective tools.date_text tools.simple (codes "v1") message 2 2
      (omega arith) (omega arith) refl
