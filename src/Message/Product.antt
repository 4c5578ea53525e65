-- ===== src/Message/Product.antt =====
-- Products and their cadences.
use lumen_horizon.Prelude.{
  ◌≡◌, Bool, if◌then◌else◌, Option, none, some, Text, codes, List, [], ◌∷◌, true, false, ◌||◌, ◌↔◌,
  arith,
}
use lumen_horizon.Text.{text_eq, text_eq_iff}

pub data ProductCadence : Type 0 where
  daily monthly : ProductCadence

pub data ProcessingProduct : Type 0 where
  vnp46a2 vj146a2 vnp46a3 : ProcessingProduct

-- `ProductCadence::as_str` and `ProductCadence::parse`
unfoldable pub cadence_text : ProductCadence → Text
cadence_text daily = codes "daily"
cadence_text monthly = codes "monthly"

unfoldable pub parse_cadence : Text → Option ProductCadence
unfolding text_eq
parse_cadence s =
    if text_eq s (codes "daily")
    then some daily
    else if text_eq s (codes "monthly")
    then some monthly
    else none

-- `ProcessingProduct::as_str` and `ProcessingProduct::parse`
abbrev pub product_text : ProcessingProduct → Text
product_text vnp46a2 = codes "VNP46A2"
product_text vj146a2 = codes "VJ146A2"
product_text vnp46a3 = codes "VNP46A3"

unfoldable pub parse_product : Text → Option ProcessingProduct
unfolding text_eq
parse_product s =
    if text_eq s (codes "VNP46A2")
    then some vnp46a2
    else if text_eq s (codes "VJ146A2")
    then some vj146a2
    else if text_eq s (codes "VNP46A3")
    then some vnp46a3
    else none

-- `VERIFIED_DAILY_PRODUCTS` and `VERIFIED_MONTHLY_PRODUCTS`, by cadence
abbrev pub default_products : ProductCadence → List Text
default_products daily = codes "VNP46A2" ∷ codes "VJ146A2" ∷ []
default_products monthly = codes "VNP46A3" ∷ []

pub record ProductDefinition : Type 0 where
  pub product : ProcessingProduct
  pub short_name : Text
  pub cadence : ProductCadence
  pub science_mapping_verified : Bool

abbrev pub product_definitions : List ProductDefinition
product_definitions =
    record {
      product = vnp46a2;
      short_name = codes "VNP46A2";
      cadence = daily;
      science_mapping_verified = true;
    }
    ∷ record {
      product = vj146a2;
      short_name = codes "VJ146A2";
      cadence = daily;
      science_mapping_verified = true;
    }
    ∷ record {
      product = vnp46a3;
      short_name = codes "VNP46A3";
      cadence = monthly;
      science_mapping_verified = true;
    }
    ∷ []

find_definition : Text → List ProductDefinition → Option ProductDefinition
find_definition name [] = none
find_definition name (d ∷ ds) =
    if text_eq d.short_name name then some d else find_definition name ds

unfoldable pub product_definition : Text → Option ProductDefinition
unfolding find_definition text_eq
product_definition short_name = find_definition short_name product_definitions

unfoldable pub is_in : Text → List Text → Bool
is_in name [] = false
is_in name (x ∷ xs) = text_eq x name || is_in name xs

abbrev pub product_of_definition : Option ProductDefinition → Option ProcessingProduct
product_of_definition none = none
product_of_definition (some d) = some d.product

text_eq_same : (s t : Text) → text_eq s t ≡ text_eq t s
text_eq_same s t = ground (arith, text_eq_iff s t, text_eq_iff t s)

-- The table of products and the parser know the same names, and name the same products by them.
pub product_definition-parse_product :
    (s : Text) → product_of_definition (product_definition s) ≡ parse_product s
unfolding product_definition parse_product find_definition
product_definition-parse_product s =
    rw
      (
        text_eq_same s (codes "VNP46A2"),
        text_eq_same s (codes "VJ146A2"),
        text_eq_same s (codes "VNP46A3"),
      )
      (ground arith)

-- A name with a definition is among the default products of the definition's cadence, and of no other.
pub product_definition-default_products :
    (s : Text) (d : ProductDefinition) (cadence : ProductCadence)
    → product_definition s ≡ some d
    → (is_in s (default_products cadence) ≡ true) ↔ (d.cadence ≡ cadence)
unfolding product_definition find_definition is_in
product_definition-default_products s d cadence e = ground arith
