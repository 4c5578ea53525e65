-- ===== src/Publish/Types.antt =====
-- The manifest, the blobs of the container and the rows of `tile_sets`, as far as a publication reads
-- and writes them. Of a row, the columns that are only stored are left out.
use lumen_horizon.Prelude.{ℕ, Text, Bool, List, Option, Result}
use lumen_horizon.Tiles.Coord.{TileCoord, TileMathError}
use lumen_horizon.Ingest.World.{Fate}

-- The fields that the publication uses; the others are in `rest`.
pub record TileManifest (R : Type 0) : Type 0 where
  pub tile_set_id : Text
  pub tile_count : ℕ
  pub manifest_sha256 : Text
  pub rest : R

pub record LatestManifestPointer : Type 0 where
  pub tile_set_id : Text
  pub manifest_blob_path : Text
  pub manifest_sha256 : Text
  pub updated_at : ℕ

pub record RenderedTile : Type 0 where
  pub coord : TileCoord
  pub png_bytes : List ℕ

pub data DbError : Type 0 where
  begin_transaction_error : Text → DbError
  commit_transaction_error : Text → DbError
  insert_tile_set_error : Text → DbError
  promote_tile_set_error : Text → DbError
  serialize_bounds_error : Text → DbError
  manifest_path_error : TileMathError → DbError
  tile_count_too_large : ℕ → DbError
  tile_set_not_found : Text → DbError

pub data PublishError : Type 0 where
  database_error : DbError → PublishError
  serialize_error : Text → PublishError
  storage_error : Text → PublishError
  tile_math_error : TileMathError → PublishError

pub record TileSetRow : Type 0 where
  pub id : Text
  pub tile_count : ℕ
  pub manifest_blob_path : Text
  pub latest : Bool

-- Whether a call reaches the blobs or the database is decided outside, over the state `S`; the JSON
-- texts are serde's.
pub record Outside (S R : Type 0) : Type 0 where
  pub storage : S → Fate × S
  pub database : S → Fate × S
  pub manifest_json : TileManifest R → Result Text Text
  pub pointer_json : LatestManifestPointer → Result Text Text
  pub bounds_json : TileManifest R → Result Text Text

pub record World (S : Type 0) : Type 0 where
  pub blobs : Text → Option (List ℕ)
  pub tile_sets : List TileSetRow
  pub outer : S
