-- ===== src/Message/Granule.antt =====
-- The granule that ingest-svc takes from the catalogue, and the message it makes of it.
-- How a date prints (`%Y-%m-%d`) is chrono's: a parameter.
use lumen_horizon.Prelude.{
  ℕ, ◌<◌, ◌≡◌, refl, if◌then◌else◌, Result, ok, err, Text, codes, ◌++◌, some, ◌↔◌, false, ◌||◌,
  arith, All-append,
}
use lumen_horizon.Prelude.Int.{pos}
use lumen_horizon.Text.{starts_with, text_eq_iff}
use lumen_horizon.Text.Split.{Lacks}
use lumen_horizon.Message.Product.{
  ProcessingProduct, vnp46a2, vj146a2, vnp46a3, parse_product, product_text,
}
use lumen_horizon.Message.Tile.{parse_first_tile, parse_first_tile-print, print_tile}
use lumen_horizon.Message.Validate.{
  ValidationError, ProcessingMessage, new, new_complete, is_empty, is_bad_path,
}
use mathlib.Core.List.{append_assoc}

pub record TileCoordinate : Type 0 where
  pub h : ℕ
  pub v : ℕ

pub record GranuleCandidate (Date : Type 0) : Type 0 where
  pub product : Text
  pub title : Text
  pub producer_granule_id : Text
  pub data_href : Text
  pub granule_date : Date
  pub tile : TileCoordinate

pub record BlobPathValidationError : Type 0 where
  pub blob_path : Text
  pub reason : Text

unfoldable pub validate_raw_blob_path : Text → Result BlobPathValidationError (Unit {0})
unfolding is_empty starts_with
validate_raw_blob_path path =
    if is_empty path
    then err (record { blob_path = path; reason = codes "path must not be empty" })
    else if starts_with (codes "/") path
    then err (record { blob_path = path; reason = codes "path must be relative" })
    else if starts_with (codes "https://") path || starts_with (codes "http://") path
    then err (record { blob_path = path; reason = codes "path must not be a URL" })
    else if starts_with (codes "raw-viirs/") path
    then err (record {
      blob_path = path;
      reason = codes "path must not include the raw blob container prefix";
    })
    else ok tt

parse_product_elim :
    (s : Text) (p : ProcessingProduct) → parse_product s ≡ some p → s ≡ product_text p
unfolding parse_product
parse_product_elim s p h = ground (arith, text_eq_iff s (product_text p))

-- The raw path validation of ingest-svc accepts exactly the paths that the message's validation
-- in processing-svc does not call bad.
pub validate_raw_blob_path_iff :
    (path : Text) → (validate_raw_blob_path path ≡ ok tt) ↔ (is_bad_path path ≡ false)
unfolding validate_raw_blob_path is_bad_path
validate_raw_blob_path_iff path = ground arith

product_prefix : (p : ProcessingProduct) (s : Text) → is_bad_path (product_text p ++ s) ≡ false
unfolding is_bad_path
product_prefix vnp46a2 s = refl
product_prefix vj146a2 s = refl
product_prefix vnp46a3 s = refl

product-Lacks : (p : ProcessingProduct) → Lacks b'h' (product_text p)
product-Lacks vnp46a2 = ground arith
product-Lacks vj146a2 = ground arith
product-Lacks vnp46a3 = ground arith

-- `i16::from` of the two coordinates
unfoldable pub processing_message_from_granule :
    {Uuid Date : Type 0}
    → Uuid
    → GranuleCandidate Date
    → Text
    → Result ValidationError (ProcessingMessage Uuid Date)
unfolding new
processing_message_from_granule ingest_id g path = new (record {
  ingest_id = ingest_id;
  blob_path = path;
  product = g.product;
  granule_date = g.granule_date;
  tile_h = pos g.tile.h;
  tile_v = pos g.tile.v;
})

module _ {Date : Type 0} (date_text : Date → Text) where
  unfoldable pub raw_blob_path : GranuleCandidate Date → Text
  raw_blob_path g =
      g.product
      ++ (codes "/"
          ++ (date_text g.granule_date
              ++ (codes "/" ++ (print_tile g.tile.h g.tile.v ++ codes ".h5"))))

  path_in_product :
      (g : GranuleCandidate Date) (p : ProcessingProduct)
      → g.product ≡ product_text p
      → is_bad_path (raw_blob_path g) ≡ false
  unfolding raw_blob_path
  path_in_product g p same = rw same (product_prefix p _)

  -- the path up to its tile
  before_tile : GranuleCandidate Date → Text
  before_tile g = g.product ++ (codes "/" ++ (date_text g.granule_date ++ codes "/"))

  raw_blob_path-eq-tile :
      (g : GranuleCandidate Date)
      → raw_blob_path g ≡ before_tile g ++ (print_tile g.tile.h g.tile.v ++ codes ".h5")
  unfolding raw_blob_path before_tile
  raw_blob_path-eq-tile g = simp (append_assoc)

  before_tile-Lacks :
      (g : GranuleCandidate Date) (p : ProcessingProduct)
      → g.product ≡ product_text p
      → Lacks b'h' (date_text g.granule_date)
      → Lacks b'h' (before_tile g)
  unfolding before_tile
  before_tile-Lacks g p same date = All-append _ g.product _ (rw same (product-Lacks p)) (
      All-append _ (codes "/") _ (ground arith)
        (All-append _ (date_text g.granule_date) _ date (ground arith)))

  tile_in_path :
      (g : GranuleCandidate Date) (p : ProcessingProduct)
      → g.product ≡ product_text p
      → Lacks b'h' (date_text g.granule_date)
      → g.tile.h < 100
      → g.tile.v < 100
      → parse_first_tile (raw_blob_path g) ≡ some (g.tile.h, g.tile.v)
  tile_in_path g p same date h v = rw (raw_blob_path-eq-tile g) (
      parse_first_tile-print (before_tile g) (codes ".h5") g.tile.h g.tile.v
        (before_tile-Lacks g p same date) h v)

  -- What ingest-svc sends, processing-svc accepts: for a granule of a supported product with tile
  -- coordinates below 100, and a date that prints without an `h`, the message made from the granule's own raw
  -- path is built, with the fields of the granule.
  pub processing_message_from_granule-raw_blob_path :
      {Uuid : Type 0} (ingest_id : Uuid) (g : GranuleCandidate Date) (p : ProcessingProduct)
      → parse_product g.product ≡ some p
      → Lacks b'h' (date_text g.granule_date)
      → g.tile.h < 100
      → g.tile.v < 100
      → processing_message_from_granule ingest_id g (raw_blob_path g)
        ≡ ok (record {
          ingest_id = ingest_id;
          blob_path = raw_blob_path g;
          product = g.product;
          granule_date = g.granule_date;
          tile_h = pos g.tile.h;
          tile_v = pos g.tile.v;
        })
  unfolding processing_message_from_granule
  processing_message_from_granule-raw_blob_path ingest_id g p supported date h v =
      let same = parse_product_elim g.product p supported in
      new_complete _ (record {
        path = path_in_product g p same;
        kind = p;
        supported = supported;
        h = g.tile.h;
        v = g.tile.v;
        in_path = tile_in_path g p same date h v;
        same_h = refl;
        same_v = refl;
      })
