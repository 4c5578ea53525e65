-- ===== src/Process/Rows.antt =====
-- Updates of the rows of one ingest.
use lumen_horizon.Prelude.{
  ℕ, Bool, true, any, List, [], ◌∷◌, All, ◌≡◌, inl, inr, refl, ◌∙◌, Bool-cases,
}
use lumen_horizon.Float.{Floating}
use lumen_horizon.Ingest.Tables.{update_where}
use lumen_horizon.Process.Log.{LogRow, of_ingest}

module _ (F : Floating) where
  -- The rows of the ingest, of which there is one, end like this.
  abbrev pub Ends : ℕ → (LogRow F → Type 0) → List (LogRow F) → Type 0
  Ends ingest_id P log =
      (any (of_ingest F ingest_id) log ≡ true)
      × All (λ row. (of_ingest F ingest_id row ≡ true → P row)) log

  pub updated-any :
      (ingest_id : ℕ) (p : LogRow F → Bool) (f : LogRow F → LogRow F)
      → ((row : LogRow F) → (f row).ingest_id ≡ row.ingest_id)
      → (rows : List (LogRow F))
      → any (of_ingest F ingest_id) (update_where p f rows) ≡ any (of_ingest F ingest_id) rows
  updated-any ingest_id p f same [] = refl
  updated-any ingest_id p f same (row ∷ rows) = elim (Bool-cases (p row)) [
    | inl hit ↦ rw hit (rw (same row, updated-any ingest_id p f same rows) refl)
    | inr miss ↦ rw miss (rw (updated-any ingest_id p f same rows) refl)
  ]

  updated-All :
      (ingest_id : ℕ) (f : LogRow F → LogRow F) (P : LogRow F → Type 0)
      → ((row : LogRow F) → P (f row))
      → (rows : List (LogRow F))
      → All
          (λ row. (of_ingest F ingest_id row ≡ true → P row))
          (update_where (of_ingest F ingest_id) f rows)
  updated-All ingest_id f P h [] = tt
  updated-All ingest_id f P h (row ∷ rows) = elim (Bool-cases (of_ingest F ingest_id row)) [
    | inl hit ↦ rw hit ((λ _. h row), updated-All ingest_id f P h rows)
    | inr miss ↦ rw miss ((λ there. cc (there, miss)), updated-All ingest_id f P h rows)
  ]

  -- An update of the rows of an ingest that has one
  pub updated-Ends :
      (ingest_id : ℕ) (f : LogRow F → LogRow F) (P : LogRow F → Type 0)
      → ((row : LogRow F) → (f row).ingest_id ≡ row.ingest_id)
      → ((row : LogRow F) → P (f row))
      → (rows : List (LogRow F)) → any (of_ingest F ingest_id) rows ≡ true
      → Ends ingest_id P (update_where (of_ingest F ingest_id) f rows)
  updated-Ends ingest_id f P same h rows there = (
    updated-any ingest_id (of_ingest F ingest_id) f same rows ∙ there,
    updated-All ingest_id f P h rows,
  )
