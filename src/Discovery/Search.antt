-- ===== src/Discovery/Search.antt =====
-- The search, page by page. The request of a page, with its retries, its status and its JSON, is a
-- parameter: it answers a query with the page's entries or an error. Logging is left out.
use lumen_horizon.Prelude.{
  ℕ, zero, suc, ◌+◌, leb, Text, codes, Bool, List, [], ◌∷◌, ◌++◌, length, Option, none, some,
  if◌then◌else◌, Result, ok, err,
}
use lumen_horizon.Text.Decimal.{decimal}
use lumen_horizon.Message.Granule.{GranuleCandidate}
use lumen_horizon.Discovery.Entry.{CmrEntry, parse_entry, unwrap_or, and_then}

-- An error of reqwest or url is its text.
pub data CmrError : Type 0 where
  build_client : Text → CmrError
  decode : Text → CmrError
  request_error : Text → CmrError
  status_error : Text → ℕ → CmrError
  url_error : Text → CmrError

pub record ProductDiscovery : Type 0 where
  pub product : Text
  pub granules : List (GranuleCandidate ℕ)
  pub skipped_entries : ℕ
  pub pages_fetched : ℕ

abbrev pub empty_product_discovery : Text → ProductDiscovery
empty_product_discovery product = record {
  product = product;
  granules = [];
  skipped_entries = 0;
  pages_fetched = 0;
}

abbrev pub page_size : ℕ
page_size = 200

unfoldable pub should_fetch_next_page : ℕ → Bool
should_fetch_next_page page_entries = leb page_size page_entries

-- The catalogue over the state `S`, and the time formats
pub record Catalogue (S : Type 0) : Type 0 where
  pub request_page : Text → List (Text × Text) → S → Result CmrError (List CmrEntry) × S
  pub new_client : S → Result CmrError (Unit {0}) × S
  pub parse_time : Text → Option ℕ
  pub time_text : ℕ → Text

-- What the loop makes of one more entry, and of the rest
abbrev pub add_entry :
    Option (GranuleCandidate ℕ) → List (GranuleCandidate ℕ) × ℕ → List (GranuleCandidate ℕ) × ℕ
add_entry (some g) (gs, skipped) = (g ∷ gs, skipped)
add_entry none (gs, skipped) = (gs, skipped + 1)

abbrev with_first :
    ProductDiscovery
    → Result CmrError (List ProductDiscovery)
    → Result CmrError (List ProductDiscovery)
with_first d (ok ds) = ok (d ∷ ds)
with_first d (err error) = err error

module _ {S : Type 0} (c : Catalogue S) where
  unfoldable pub parse_entries : Text → List CmrEntry → List (GranuleCandidate ℕ) × ℕ
  unfolding parse_entry
  parse_entries product [] = ([], 0)
  parse_entries product (e ∷ es) =
      add_entry (parse_entry c.parse_time product e) (parse_entries product es)

  abbrev parse_product_response : Text → List CmrEntry → ProductDiscovery
  parse_product_response product entries =
      let (granules, skipped) = parse_entries product entries in
      record {
        product = product;
        granules = granules;
        skipped_entries = skipped;
        pages_fetched = 1;
      }

  -- The new aggregate; the caller counts the page's entries itself.
  unfoldable pub append_page_discovery : ProductDiscovery → List CmrEntry → ℕ → ProductDiscovery
  unfolding parse_entries
  append_page_discovery d entries page_num =
      let page = parse_product_response d.product entries in
      record d {
        granules = d.granules ++ page.granules;
        skipped_entries = d.skipped_entries + page.skipped_entries;
        pages_fetched = page_num;
      }

  -- The pairs of `discovery_url`
  unfoldable pub discovery_query : Text → Text → ℕ → Option ℕ → List (Text × Text)
  unfolding decimal
  discovery_query bounding_box product page_num resume_from =
      (codes "short_name", product)
      ∷ (
        codes "temporal",
        unwrap_or (codes "2024-01-01T00:00:00Z") (and_then resume_from (λ t. some (c.time_text t)))
            ++ codes ",",
      )
      ∷ (codes "bounding_box", bounding_box)
      ∷ (codes "page_size", codes "200")
      ∷ (codes "page_num", decimal page_num)
      ∷ (codes "sort_key", codes "-start_date")
      ∷ []

  module _ (bounding_box : Text) where
    -- The loop, for at most the given number of pages: `none` when that is not enough.
    unfoldable pub fetch_pages :
        ℕ → ProductDiscovery → ℕ → Option ℕ → S → Option (Result CmrError ProductDiscovery × S)
    unfolding append_page_discovery should_fetch_next_page discovery_query
    fetch_pages zero d page_num resume_from s = none
    fetch_pages (suc fuel) d page_num resume_from s =
        let (reply, s') =
          c.request_page d.product (discovery_query bounding_box d.product page_num resume_from)
            s in
        elim reply [
          | err error ↦ some (err error, s')
          | ok entries ↦
              let d' = append_page_discovery d entries page_num in
              let rest = fetch_pages fuel d' (page_num + 1) resume_from s' in
              if should_fetch_next_page (length entries) then rest else some (ok d', s')
        ]

    unfoldable pub discover_product :
        ℕ → Text → Option ℕ → S → Option (Result CmrError ProductDiscovery × S)
    unfolding fetch_pages
    discover_product fuel product resume_from s =
        fetch_pages fuel (empty_product_discovery product) 1 resume_from s

    -- `CmrClient::discover`; a `DiscoverySummary` is its list. `?` leaves with the first error.
    unfoldable pub discover :
        ℕ → (Text → Option ℕ) → List Text → S → Option (Result CmrError (List ProductDiscovery) × S)
    unfolding discover_product
    discover fuel resume_points [] s = some (ok [], s)
    discover fuel resume_points (product ∷ products) s =
        and_then (discover_product fuel product (resume_points product) s) (λ (reply, s').
          elim reply [
            | err error ↦ some (err error, s')
            | ok discovery ↦
                and_then (discover fuel resume_points products s')
                  (λ (others, s''). some (with_first discovery others, s''))
          ])

unfoldable pub total_granules : List ProductDiscovery → ℕ
total_granules [] = 0
total_granules (p ∷ ps) = length p.granules + total_granules ps
