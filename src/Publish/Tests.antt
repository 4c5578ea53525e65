-- ===== src/Publish/Tests.antt =====
-- A publication of one tile, where every fourth call is refused, and the witness.
use lumen_horizon.Prelude.{
  ℕ, suc, ◌%◌, ◌==◌, Text, codes, List, [], ◌∷◌, none, ok, if◌then◌else◌, ◌≡◌, ◌≢◌, ◌⊎◌, ◌++◌,
  arith,
}
use lumen_horizon.Tiles.Paths.{manifest_blob_path, latest_manifest_blob_path}
use lumen_horizon.Ingest.World.{Fate, applied, refused}
use lumen_horizon.Publish.Types.{TileManifest, RenderedTile, Outside, World}
use lumen_horizon.Publish.Steps.{publish_tile_set}
use lumen_horizon.Publish.Triple.{Outcome}
use lumen_horizon.Publish.Stored.{IsInPlace, PointsTo}
use lumen_horizon.Publish.Order.{publish_tile_set-IsInPlace}

abbrev fate_at : ℕ → Fate
fate_at t = if t % 4 == 3 then refused (codes "busy") else applied

abbrev outside : Outside ℕ (Unit {0})
outside = record {
  storage = λ t. (fate_at t, suc t);
  database = λ t. (fate_at t, suc t);
  manifest_json = λ m. ok (codes "{}");
  pointer_json = λ p. ok (codes "{}");
  bounds_json = λ m. ok (codes "[]");
}

abbrev manifest : TileManifest (Unit {0})
manifest = record {
  tile_set_id = codes "a";
  tile_count = 1;
  manifest_sha256 = codes "0";
  rest = tt;
}

abbrev tiles : List RenderedTile
tiles = record { coord = record { z = 5; x = 8; y = 12 }; png_bytes = 137 ∷ [] } ∷ []

abbrev empty : World ℕ
empty = record { blobs = λ p. none; tile_sets = []; outer = 0 }

path_of :
    (id path : Text)
    → manifest_blob_path id ≡ ok path
    → path ≡ codes "manifests/" ++ (id ++ codes ".json")
unfolding manifest_blob_path
path_of id path h = ground arith

unlike : latest_manifest_blob_path ≡ codes "manifests/a.json" → ⊥
unfolding latest_manifest_blob_path
unlike h = absurd (cc h)

other_path : manifest_blob_path manifest.tile_set_id ≢ ok latest_manifest_blob_path
other_path e = unlike (path_of manifest.tile_set_id latest_manifest_blob_path e)

publish_tile_set-IsInPlace_example :
    Outcome
      (λ w'.
        (w'.blobs latest_manifest_blob_path ≡ empty.blobs latest_manifest_blob_path)
        ⊎ IsInPlace outside manifest tiles w')
      (λ pointer w'. IsInPlace outside manifest tiles w' × PointsTo outside manifest pointer w')
      (publish_tile_set outside manifest tiles 7 empty)
publish_tile_set-IsInPlace_example =
    publish_tile_set-IsInPlace outside manifest tiles 7 empty other_path
