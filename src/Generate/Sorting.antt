-- ===== src/Generate/Sorting.antt =====
-- Sorting by index, where an index decides its tile: the order of the elements does not matter.
use lumen_horizon.Prelude.{
  ℕ, suc, ◌<◌, ◌≡◌, ◌==◌, arith, ltb, true, false, if◌then◌else◌, Bool-cases, inl, inr, List, [],
  ◌∷◌, ◌++◌, All, refl, ap, sym, ◌∙◌,
}
use lumen_horizon.Publish.Types.{RenderedTile}
use lumen_horizon.Generate.JoinSet.{Indexed, insert_by_index, sort_by_index}

module _ (value : ℕ → RenderedTile) where
  -- The element is the one of its index.
  abbrev pub Agrees : Indexed → Type 0
  Agrees p = p.1 ≡ value p.0

  same_element : (p q : Indexed) → Agrees p → Agrees q → p.0 ≡ q.0 → p ≡ q
  same_element (i, t) (j, u) g h e = cc

  insert_comm-lt :
      (a b : Indexed) (s : List Indexed)
      → ltb a.0 b.0 ≡ true
      → insert_by_index a (insert_by_index b s) ≡ insert_by_index b (insert_by_index a s)
  insert_comm-lt a b [] less =
      let later : ltb b.0 a.0 ≡ false = ground arith in rw (less, later) refl
  insert_comm-lt a b (c ∷ s) less =
      let later : ltb b.0 a.0 ≡ false = ground arith in
      elim (Bool-cases (ltb c.0 a.0)) [
        | inl before ↦
            let first : ltb c.0 b.0 ≡ true = ground arith in
            rw (before, first) (rw before (ap (λ l. c ∷ l) (insert_comm-lt a b s less)))
        | inr behind ↦ elim (Bool-cases (ltb c.0 b.0)) [
          | inl between ↦ rw (behind, between) (rw (behind, less) refl)
          | inr last ↦ rw (behind, last) (rw (later, less) refl)
        ]
      ]

  insert_comm :
      (a b : Indexed) (s : List Indexed)
      → Agrees a
      → Agrees b
      → insert_by_index a (insert_by_index b s) ≡ insert_by_index b (insert_by_index a s)
  insert_comm a b s g h = elim (Bool-cases (ltb a.0 b.0)) [
    | inl less ↦ insert_comm-lt a b s less
    | inr more ↦ elim (Bool-cases (ltb b.0 a.0)) [
      | inl less ↦ sym (insert_comm-lt b a s less)
      | inr equal ↦ let same = same_element a b g h (ground arith) in rw same refl
    ]
  ]

  -- An element may be sorted in from any place.
  pub sort-middle :
      (xs : List Indexed) (x : Indexed) (ys : List Indexed)
      → All Agrees xs
      → Agrees x
      → sort_by_index (xs ++ x ∷ ys) ≡ insert_by_index x (sort_by_index (xs ++ ys))
  sort-middle [] x ys _ g = refl
  sort-middle (a ∷ xs) x ys (h, hs) g =
      ap (insert_by_index a) (sort-middle xs x ys hs g) ∙ insert_comm a x _ h g

-- The indexes count up from `k`.
abbrev pub CountsFrom : ℕ → List Indexed → Type 0
CountsFrom k [] = Unit
CountsFrom k (p ∷ ps) = (p.0 ≡ k) × CountsFrom (suc k) ps

insert-first :
    (k : ℕ) (p : Indexed) (ps : List Indexed)
    → p.0 ≡ k
    → CountsFrom (suc k) ps
    → insert_by_index p ps ≡ p ∷ ps
insert-first k p [] e _ = refl
insert-first k p (q ∷ ps) e (f, _) = let later : ltb q.0 p.0 ≡ false = ground arith in rw later refl

pub sort-counted : (k : ℕ) (ps : List Indexed) → CountsFrom k ps → sort_by_index ps ≡ ps
sort-counted k [] _ = refl
sort-counted k (p ∷ ps) (e, es) =
    ap (insert_by_index p) (sort-counted (suc k) ps es) ∙ insert-first k p ps e es

-- Some tile, and the tile of an index.
abbrev pub no_tile : RenderedTile
no_tile = record { coord = record { z = 0; x = 0; y = 0 }; png_bytes = [] }

abbrev pub value_in : List Indexed → ℕ → RenderedTile
value_in [] n = no_tile
value_in (p ∷ ps) n = let later = value_in ps n in if n == p.0 then p.1 else later

All-later :
    (k : ℕ) (p : Indexed) (all ps : List Indexed)
    → p.0 < k
    → CountsFrom k ps
    → All (Agrees (value_in all)) ps
    → All (Agrees (value_in (p ∷ all))) ps
All-later k p all [] less _ _ = tt
All-later k p all (q ∷ ps) less (e, es) (g, gs) =
    let other : (q.0 == p.0) ≡ false = ground arith in
    (rw other g, All-later (suc k) p all ps (omega arith) es gs)

pub All-value_in : (k : ℕ) (ps : List Indexed) → CountsFrom k ps → All (Agrees (value_in ps)) ps
All-value_in k [] _ = tt
All-value_in k (p ∷ ps) (e, es) =
    let same : (p.0 == p.0) ≡ true = ground arith in
    (rw same refl, All-later (suc k) p ps ps (omega arith) es (All-value_in (suc k) ps es))
