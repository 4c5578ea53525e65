-- ===== src/Message/Tests.antt =====
-- A granule of the catalogue, its message, and the witnesses.
use lumen_horizon.Prelude.{ℕ, ◌≡◌, refl, ok, Text, codes, some, true, arith, ◌↔◌, ◌⊎◌, none}
use lumen_horizon.Prelude.Int.{pos}
use lumen_horizon.Text.Decimal.{two_digits, decimal}
use lumen_horizon.Message.Product.{
  vnp46a2, vnp46a3, parse_product, ProductDefinition, monthly, product_definition,
}
use lumen_horizon.Message.Tile.{parse_first_tile, parse_first_tile_decides, Spells, print_tile}
use lumen_horizon.Message.Validate.{ProcessingMessage, new, new_iff, IsChecked}
use lumen_horizon.Message.Granule.{
  GranuleCandidate, raw_blob_path, processing_message_from_granule,
  processing_message_from_granule-raw_blob_path,
}

abbrev date_text : Unit {0} → Text
date_text u = codes "2026-05-21"

abbrev granule : GranuleCandidate (Unit {0})
granule = record {
  product = codes "VNP46A2";
  title = codes "VNP46A2.A2026141.h11v06.002";
  producer_granule_id = codes "VNP46A2.h5";
  data_href = codes "https://example.org/a.h5";
  granule_date = tt;
  tile = record { h = 11; v = 6 };
}

abbrev message : ProcessingMessage ℕ (Unit {0})
message = record {
  ingest_id = 7;
  blob_path = raw_blob_path date_text granule;
  product = codes "VNP46A2";
  granule_date = tt;
  tile_h = pos 11;
  tile_v = pos 6;
}

raw_path : raw_blob_path date_text granule ≡ codes "VNP46A2/2026-05-21/h11v06.h5"
unfolding raw_blob_path print_tile two_digits decimal
raw_path = refl

is_supported : parse_product (codes "VNP46A2") ≡ some vnp46a2
unfolding parse_product
is_supported = refl

processing_message_from_granule-raw_blob_path_example :
    processing_message_from_granule 7 granule (raw_blob_path date_text granule) ≡ ok message
processing_message_from_granule-raw_blob_path_example =
    processing_message_from_granule-raw_blob_path date_text 7 granule vnp46a2 is_supported
      (ground arith) (ground arith) (ground arith)

new_iff_example : (new message ≡ ok message) ↔ ((message ≡ message) × IsChecked message)
new_iff_example = new_iff message message

parse_first_tile_decides_example :
    ((h : ℕ) × (v : ℕ) × (parse_first_tile (codes "ab/h11v06.h5") ≡ some (h, v))
      × Spells (codes "ab/h11v06.h5") h v)
    ⊎ ((parse_first_tile (codes "ab/h11v06.h5") ≡ none)
        × ((h v : ℕ) → ¬ Spells (codes "ab/h11v06.h5") h v))
parse_first_tile_decides_example = parse_first_tile_decides (codes "ab/h11v06.h5")

abbrev monthly_definition : ProductDefinition
monthly_definition = record {
  product = vnp46a3;
  short_name = codes "VNP46A3";
  cadence = monthly;
  science_mapping_verified = true;
}

is_defined : product_definition (codes "VNP46A3") ≡ some monthly_definition
unfolding product_definition
is_defined = refl
