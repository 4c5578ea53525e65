-- ===== src/Discovery/Paging.antt =====
-- The search over pages reads the whole listing of the catalogue.
use lumen_horizon.Prelude.{
  ℕ, zero, suc, ◌+◌, ◌*◌, ◌/◌, ◌<◌, ◌≤◌, leb, Text, Bool, true, false, List, [], ◌∷◌, ◌++◌, length,
  Option, none, some, if◌then◌else◌, ok, ◌≡◌, refl, sym, ap, ◌∙◌, inl, inr, Bool-cases, arith,
}
use mathlib.Core.Path.{subst}
use mathlib.Core.List.{append_assoc}
use lumen_horizon.Message.Granule.{GranuleCandidate}
use lumen_horizon.Ingest.Tables.{take}
use lumen_horizon.Discovery.Entry.{CmrEntry, parse_entry}
use lumen_horizon.Discovery.Search.{
  ProductDiscovery, Catalogue, empty_product_discovery, page_size, should_fetch_next_page,
  add_entry, parse_entries, append_page_discovery, discovery_query, fetch_pages, discover_product,
}

module _ {A : Type 0} where
  abbrev pub drop : ℕ → List A → List A
  drop zero xs = xs
  drop (suc n) [] = []
  drop (suc n) (x ∷ xs) = drop n xs

  take-drop : (n : ℕ) (xs : List A) → take n xs ++ drop n xs ≡ xs
  take-drop zero xs = refl
  take-drop (suc n) [] = refl
  take-drop (suc n) (x ∷ xs) = ap (λ ys. x ∷ ys) (take-drop n xs)

  drop_nil : (n : ℕ) → drop n [] ≡ []
  drop_nil zero = refl
  drop_nil (suc n) = refl

  drop-drop : (m n : ℕ) (xs : List A) → drop m (drop n xs) ≡ drop (n + m) xs
  drop-drop m zero xs = ap (λ k. drop k xs) (omega arith)
  drop-drop m (suc n) [] = drop_nil m ∙ sym (drop_nil (suc n + m))
  drop-drop m (suc n) (x ∷ xs) = drop-drop m n xs ∙ ap (λ k. drop k (x ∷ xs)) (suc_left n m)
    where
      suc_left : (n m : ℕ) → suc (n + m) ≡ suc n + m
      suc_left n m = omega arith

  length-take_short : (n : ℕ) (xs : List A) → length xs < n → length (take n xs) ≡ length xs
  length-take_short zero xs h = ground arith
  length-take_short (suc n) [] h = refl
  length-take_short (suc n) (x ∷ xs) h = ap suc (length-take_short n xs (omega (arith, h)))

  length-take_full : (n : ℕ) (xs : List A) → n ≤ length xs → length (take n xs) ≡ n
  length-take_full zero xs h = refl
  length-take_full (suc n) [] h = ground arith
  length-take_full (suc n) (x ∷ xs) h = ap suc (length-take_full n xs (omega (arith, h)))

  length-drop : (n : ℕ) (xs : List A) → n ≤ length xs → length (drop n xs) + n ≡ length xs
  length-drop zero xs h = omega arith
  length-drop (suc n) [] h = ground arith
  length-drop (suc n) (x ∷ xs) h = omega (arith, length-drop n xs (omega (arith, h)))

  take_short : (n : ℕ) (xs : List A) → length xs < n → take n xs ≡ xs
  take_short zero xs h = ground arith
  take_short (suc n) [] h = refl
  take_short (suc n) (x ∷ xs) h = ap (λ ys. x ∷ ys) (take_short n xs (omega (arith, h)))

leb→le : (n : ℕ) → leb page_size n ≡ true → page_size ≤ n
leb→le n h = ground arith

leb→lt : (n : ℕ) → leb page_size n ≡ false → n < page_size
leb→lt n h = ground arith

fewer : (m n fuel : ℕ) → m + page_size ≡ n → n < suc fuel * page_size → m < fuel * page_size
fewer m n fuel h k = omega arith

page_count : (p m n : ℕ) → m + page_size ≡ n → p + 1 + m / page_size ≡ p + n / page_size
page_count p m n h = omega arith

last_page : (p n : ℕ) → n < page_size → p ≡ p + n / page_size
last_page p n h = omega arith

asks_more : (n : ℕ) → n ≡ page_size → should_fetch_next_page n ≡ true
unfolding should_fetch_next_page
asks_more n h = ground arith

asks_no_more : (n m : ℕ) → n ≡ m → leb page_size m ≡ false → should_fetch_next_page n ≡ false
unfolding should_fetch_next_page
asks_no_more n m h k = ground arith

if_true : {A : Type 0} {b : Bool} (x y : A) → b ≡ true → (if b then x else y) ≡ x
if_true x y h = rw h refl

if_false : {A : Type 0} {b : Bool} (x y : A) → b ≡ false → (if b then x else y) ≡ y
if_false x y h = rw h refl

plus_assoc : (a b c : ℕ) → a + b + c ≡ a + (b + c)
plus_assoc a b c = omega arith

module _ {S : Type 0} (c : Catalogue S) where
  join_entries :
      (o : Option (GranuleCandidate ℕ)) (gs hs : List (GranuleCandidate ℕ)) (m n : ℕ)
      → add_entry o (gs ++ hs, m + n) ≡ ((add_entry o (gs, m)).0 ++ hs, (add_entry o (gs, m)).1 + n)
  join_entries none gs hs m n = ap (λ k. (gs ++ hs, k)) (omega arith)
  join_entries (some g) gs hs m n = refl

  parse_entries-append :
      (product : Text) (xs ys : List CmrEntry)
      → parse_entries c product (xs ++ ys) ≡ (
        (parse_entries c product xs).0 ++ (parse_entries c product ys).0,
        (parse_entries c product xs).1 + (parse_entries c product ys).1,
      )
  unfolding parse_entries
  parse_entries-append product [] ys = ap (λ k. ((parse_entries c product ys).0, k)) (omega arith)
  parse_entries-append product (x ∷ xs) ys =
      ap (add_entry (parse_entry c.parse_time product x)) (parse_entries-append product xs ys)
      ∙ join_entries (parse_entry c.parse_time product x) (parse_entries c product xs).0
          (parse_entries c product ys).0 (parse_entries c product xs).1
          (parse_entries c product ys).1

  product-append_page :
      (d : ProductDiscovery) (xs : List CmrEntry) (n : ℕ)
      → (append_page_discovery c d xs n).product ≡ d.product
  unfolding append_page_discovery
  product-append_page d xs n = refl

  -- Two pages one after the other read as one.
  pub append_page-append :
      (d : ProductDiscovery) (xs ys : List CmrEntry) (m n : ℕ)
      → append_page_discovery c (append_page_discovery c d xs m) ys n
        ≡ append_page_discovery c d (xs ++ ys) n
  unfolding append_page_discovery
  append_page-append d xs ys m n =
      let (gx, sx) = parse_entries c d.product xs in
      let (gy, sy) = parse_entries c d.product ys in
      let made : List (GranuleCandidate ℕ) → ℕ → ProductDiscovery =
        λ gs k. record d { granules = gs; skipped_entries = k; pages_fetched = n } in
      ap (λ gs. made gs (d.skipped_entries + sx + sy)) (append_assoc d.granules gx gy)
      ∙ ap (made (d.granules ++ (gx ++ gy))) (plus_assoc d.skipped_entries sx sy)
      ∙ sym (
          ap (λ r. made (d.granules ++ r.0) (d.skipped_entries + r.1))
            (parse_entries-append d.product xs ys))

  module _ (bounding_box : Text) where
    fetch_step :
        (fuel : ℕ) (d : ProductDiscovery) (p : ℕ) (r : Option ℕ) (s : S) (entries : List CmrEntry)
        → (c.request_page d.product (discovery_query c bounding_box d.product p r) s).0 ≡ ok entries
        → fetch_pages c bounding_box (suc fuel) d p r s ≡ (
            if should_fetch_next_page (length entries)
            then fetch_pages c bounding_box fuel
                (append_page_discovery c d entries p)
                (p + 1)
                r
                (c.request_page d.product (discovery_query c bounding_box d.product p r) s).1
            else some (
              ok (append_page_discovery c d entries p),
              (c.request_page d.product (discovery_query c bounding_box d.product p r) s).1,
            ))
    unfolding fetch_pages
    fetch_step fuel d p r s entries h = rw (h, fetch_pages) refl

    module _ (product : Text) (r : Option ℕ) where
      -- The catalogue serves the listing from page `p` on.
      Serves : ℕ → List CmrEntry → Type 0
      Serves p listing =
          (k n : ℕ) (s : S)
          → n ≡ p + k
          → (c.request_page product (discovery_query c bounding_box product n r) s).0
            ≡ ok (take page_size (drop (k * page_size) listing))

      Serves-rest :
          (p : ℕ) (listing : List CmrEntry)
          → Serves p listing
          → Serves (p + 1) (drop page_size listing)
      unfolding Serves
      Serves-rest p listing h k n s e =
          h (suc k) n s (omega (arith, e)) ∙ ap (λ xs. ok (take page_size xs)) (next_page k)
        where
          next_page :
              (k : ℕ)
              → drop (suc k * page_size) listing ≡ drop (k * page_size) (drop page_size listing)
          next_page k =
              ap (λ j. drop j listing) (omega arith)
              ∙ sym (drop-drop (k * page_size) page_size listing)

      fetch_all :
          (fuel p : ℕ) (d : ProductDiscovery) (listing : List CmrEntry) (s : S)
          → d.product ≡ product
          → Serves p listing
          → length listing < fuel * page_size
          → (s' : S) × (fetch_pages c bounding_box fuel d p r s
              ≡ some (ok (append_page_discovery c d listing (p + length listing / page_size)), s'))
      unfolding Serves
      fetch_all zero p d listing s same serves enough = ground arith
      fetch_all (suc fuel) p d listing s same serves enough =
          let first = take page_size listing in
          let answered : (c.request_page d.product (discovery_query c bounding_box d.product p r)
                s).0
              ≡ ok first =
            subst (λ q. (c.request_page q (discovery_query c bounding_box q p r) s).0 ≡ ok first)
              (sym same) (serves 0 p s (omega arith)) in
          elim (Bool-cases (leb page_size (length listing))) [
            | inl full ↦
                let (s', e) =
                  fetch_all fuel (p + 1) (append_page_discovery c d first p)
                    (drop page_size listing) _ (product-append_page d first p ∙ same)
                    (Serves-rest p listing serves)
                    (fewer (length (drop page_size listing)) (length listing) fuel
                      (length-drop page_size listing (leb→le (length listing) full)) enough) in
                (
                  s',
                  fetch_step fuel d p r s first answered
                      ∙ if_true _ _ (
                          asks_more (length first)
                            (length-take_full page_size listing (leb→le (length listing) full)))
                      ∙ e
                      ∙ ap (λ x. some (ok x, s'))
                          (append_page-append d first (drop page_size listing) p
                              (p + 1 + length (drop page_size listing) / page_size)
                            ∙ ap
                                (λ xs.
                                  append_page_discovery c d xs
                                    (p + 1 + length (drop page_size listing) / page_size))
                                (take-drop page_size listing)
                            ∙ ap (append_page_discovery c d listing) (
                                page_count p (length (drop page_size listing)) (length listing)
                                  (length-drop page_size listing (leb→le (length listing) full)))),
                )
            | inr short ↦ (
              _,
              fetch_step fuel d p r s first answered
                  ∙ if_false _ _ (
                      asks_no_more (length first) (length listing)
                        (length-take_short page_size listing (leb→lt (length listing) short)) short)
                  ∙ ap
                      (λ x. some (
                        ok x,
                        (c.request_page d.product (discovery_query c bounding_box d.product p r)
                            s).1,
                      ))
                      (ap (λ xs. append_page_discovery c d xs p)
                          (take_short page_size listing (leb→lt (length listing) short))
                        ∙ ap (append_page_discovery c d listing)
                            (last_page p (length listing) (leb→lt (length listing) short))),
            )
          ]

      -- When the catalogue answers every query for a page with that page of a listing, the search
      -- returns what the whole listing read as a single page gives, with the number of pages, for any
      -- fuel above the number of full pages.
      pub discover_product-listing :
          (fuel : ℕ) (listing : List CmrEntry) (s : S)
          → ((k : ℕ) (s : S)
              → (c.request_page product (discovery_query c bounding_box product (k + 1) r) s).0
                ≡ ok (take page_size (drop (k * page_size) listing)))
          → length listing / page_size < fuel
          → (s' : S) × (discover_product c bounding_box fuel product r s
              ≡ some (
                ok (
                    append_page_discovery c
                      (empty_product_discovery product)
                      listing
                      (1 + length listing / page_size)),
                s',
              ))
      unfolding Serves discover_product
      discover_product-listing fuel listing s serves enough =
          fetch_all fuel 1 (empty_product_discovery product) listing s refl
            (λ k n s e.
              subst
                (λ m.
                  (c.request_page product (discovery_query c bounding_box product m r) s).0
                  ≡ ok (take page_size (drop (k * page_size) listing)))
                (sym (e ∙ flip k)) (serves k s))
            (enough_pages (length listing) fuel enough)
        where
          flip : (k : ℕ) → 1 + k ≡ k + 1
          flip k = omega arith

          enough_pages : (n fuel : ℕ) → n / page_size < fuel → n < fuel * page_size
          enough_pages n fuel h = omega arith
