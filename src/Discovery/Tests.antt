-- ===== src/Discovery/Tests.antt =====
-- A catalogue of two entries, and the witness.
use lumen_horizon.Prelude.{
  ℕ, suc, ◌+◌, ◌-◌, ◌*◌, Text, codes, List, [], ◌∷◌, none, some, ok, ◌≡◌, ap, ◌∙◌, arith,
}
use lumen_horizon.Text.Decimal.{decimal, read, read-decimal}
use lumen_horizon.Ingest.Tables.{take}
use lumen_horizon.Discovery.Entry.{CmrEntry}
use lumen_horizon.Discovery.Search.{
  Catalogue, discover_product, discovery_query, append_page_discovery, empty_product_discovery,
  page_size,
}
use lumen_horizon.Discovery.Paging.{drop, discover_product-listing}

abbrev entry : CmrEntry
entry = record {
  title = codes "t";
  producer_granule_id = some (codes "g.h18v04.h5");
  time_start = codes "x";
  links =
      record { href = codes "u.H5"; rel = some (codes "http://esipfed.org/ns/fedsearch/1.1/data#") }
      ∷ [];
}

-- The page whose number the query names
abbrev page_of : List CmrEntry → List (Text × Text) → List CmrEntry
page_of listing (_ ∷ _ ∷ _ ∷ _ ∷ (_, number) ∷ _) =
    take page_size (drop ((read number - 1) * page_size) listing)
page_of listing _ = []

abbrev catalogue : List CmrEntry → Catalogue ℕ
catalogue listing = record {
  request_page = λ product query s. (ok (page_of listing query), suc s);
  new_client = λ s. (ok tt, s);
  parse_time = λ s. some 5;
  time_text = λ t. decimal t;
}

serves :
    (listing : List CmrEntry) (k : ℕ) (s : ℕ)
    → ((catalogue listing).request_page
        (codes "VNP46A2")
        (discovery_query (catalogue listing) [] (codes "VNP46A2") (k + 1) none)
        s).0
      ≡ ok (take page_size (drop (k * page_size) listing))
unfolding discovery_query
serves listing k s =
    ap (λ n. ok (take page_size (drop ((n - 1) * page_size) listing))) (read-decimal (k + 1))
    ∙ ap (λ n. ok (take page_size (drop (n * page_size) listing))) (omega arith)

discover_product-listing_example :
    (s' : ℕ) × (discover_product (catalogue (entry ∷ entry ∷ [])) [] 3 (codes "VNP46A2") none 0
      ≡ some (
        ok (
            append_page_discovery
              (catalogue (entry ∷ entry ∷ []))
              (empty_product_discovery (codes "VNP46A2"))
              (entry ∷ entry ∷ [])
              1),
        s',
      ))
discover_product-listing_example =
    discover_product-listing (catalogue (entry ∷ entry ∷ [])) [] (codes "VNP46A2") none 3
      (entry ∷ entry ∷ []) 0 (serves (entry ∷ entry ∷ [])) (ground arith)
