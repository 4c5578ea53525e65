-- ===== src/Discovery/Entry.antt =====
-- An entry of the catalogue, and the granule that is read from it. How a time is read (RFC 3339)
-- is chrono's: a parameter.
use lumen_horizon.Prelude.{
  ℕ, ◌+◌, leb, Text, codes, Bool, false, ◌&&◌, ◌||◌, List, [], ◌∷◌, map, Option, none, some,
  if◌then◌else◌,
}
use lumen_horizon.Text.{text_eq}
use lumen_horizon.Message.Tile.{parse_first_tile}
use lumen_horizon.Message.Granule.{GranuleCandidate, TileCoordinate}
use lumen_horizon.Ingest.Tables.{find_first}

pub record CmrLink : Type 0 where
  pub href : Text
  pub rel : Option Text

pub record CmrEntry : Type 0 where
  pub title : Text
  pub producer_granule_id : Option Text
  pub time_start : Text
  pub links : List CmrLink

-- `?` on an `Option`
abbrev pub and_then : {A B : Type 0} → Option A → (A → Option B) → Option B
and_then none f = none
and_then (some a) f = f a

abbrev pub or_else : {A : Type 0} → Option A → Option A → Option A
or_else none other = other
or_else (some a) other = some a

abbrev pub unwrap_or : {A : Type 0} → A → Option A → A
unwrap_or a none = a
unwrap_or a (some b) = b

-- `char::to_ascii_lowercase`
abbrev lower : ℕ → ℕ
lower c = if leb b'A' c && leb c b'Z' then c + 32 else c

unfoldable pub to_ascii_lowercase : Text → Text
to_ascii_lowercase s = map lower s

unfoldable pub ends_with : Text → Text → Bool
unfolding text_eq
ends_with suffix [] = text_eq [] suffix
ends_with suffix (c ∷ s) = text_eq (c ∷ s) suffix || ends_with suffix s

abbrev pub cmr_data_link_rel : Text
cmr_data_link_rel = codes "http://esipfed.org/ns/fedsearch/1.1/data#"

abbrev has_data_rel : Option Text → Bool
has_data_rel none = false
has_data_rel (some rel) = text_eq rel cmr_data_link_rel

unfoldable pub is_data_link : CmrLink → Bool
unfolding ends_with to_ascii_lowercase
is_data_link link = has_data_rel link.rel && ends_with (codes ".h5") (to_ascii_lowercase link.href)

unfoldable pub data_href : CmrEntry → Option Text
unfolding is_data_link
data_href entry = and_then (find_first is_data_link entry.links) (λ link. some link.href)

-- The scan is the one of `parse_first_tile`.
unfoldable pub parse_from : Text → Option TileCoordinate
unfolding parse_first_tile
parse_from value = and_then (parse_first_tile value) (λ (h, v). some (record { h = h; v = v }))

unfoldable pub parse_entry : (Text → Option ℕ) → Text → CmrEntry → Option (GranuleCandidate ℕ)
unfolding data_href parse_from
parse_entry parse_time product entry = and_then (data_href entry) (λ href.
    let id = unwrap_or entry.title entry.producer_granule_id in
    and_then (or_else (or_else (parse_from id) (parse_from entry.title)) (parse_from href)) (λ tile.
      and_then (parse_time entry.time_start) (λ date. some (record {
        product = product;
        title = entry.title;
        producer_granule_id = id;
        data_href = href;
        granule_date = date;
        tile = tile;
      }))))
