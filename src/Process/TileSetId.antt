-- ===== src/Process/TileSetId.antt =====
-- `tile_set_id_for_message`. The texts of a date and of an id are chrono's and uuid's: parameters.
use lumen_horizon.Prelude.{
  ℕ, max, ◌≤◌, ◌≡◌, ◌≢◌, arith, Text, codes, [], ◌∷◌, ◌++◌, ok, bind_elim, ok_injective, sym, ◌∙◌,
  refl,
}
use mathlib.Core.List.{append_assoc, append_cancel_left, append_cancel_right}
use lumen_horizon.Message.Validate.{ProcessingMessage}
use lumen_horizon.Text.Decimal.{decimal, decimal_injective}
use lumen_horizon.Text.Split.{Lacks}
use lumen_horizon.Tiles.Paths.{validate_tile_set_id, manifest_blob_path, latest_manifest_blob_path}
use lumen_horizon.Ingest.Tables.{take}

-- Everything before the attempt
abbrev pub id_prefix : (ℕ → Text) → (ℕ → Text) → Text → ProcessingMessage ℕ ℕ → Text
id_prefix date_text simple version m =
    date_text m.granule_date
    ++ (codes "-" ++ (version ++ codes "-" ++ take 8 (simple m.ingest_id) ++ codes "-a"))

unfoldable pub tile_set_id_for_message :
    (ℕ → Text) → (ℕ → Text) → Text → ProcessingMessage ℕ ℕ → ℕ → Text
unfolding decimal
tile_set_id_for_message date_text simple version m attempt =
    id_prefix date_text simple version m ++ decimal (max attempt 1)

-- Two attempts at one message have different tile sets.
pub tile_set_id_for_message_injective :
    (date_text simple : ℕ → Text) (version : Text) (m : ProcessingMessage ℕ ℕ) (a b : ℕ)
    → 1 ≤ a
    → 1 ≤ b
    → tile_set_id_for_message date_text simple version m a
      ≡ tile_set_id_for_message date_text simple version m b
    → a ≡ b
unfolding tile_set_id_for_message
tile_set_id_for_message_injective date_text simple version m a b some_a some_b h =
    let same = append_cancel_left (id_prefix date_text simple version m) _ _ h in
    omega (arith, decimal_injective (max a 1) (max b 1) same)

dash_there : (s t u : Text) → s ++ b'-' ∷ t ≡ u → Lacks b'-' u → ⊥
dash_there [] t [] h l = cc
dash_there [] t (c ∷ u) h l = l.0 (ground arith)
dash_there (d ∷ s) t [] h l = cc
dash_there (d ∷ s) t (c ∷ u) h l = dash_there s t u (ground arith) l.1

latest-Lacks : Lacks b'-' (codes "latest")
latest-Lacks = (
  λ h. omega arith,
  (
    λ h. omega arith,
    (λ h. omega arith, (λ h. omega arith, (λ h. omega arith, (λ h. omega arith, tt)))),
  ),
)

path_of :
    (id path : Text)
    → manifest_blob_path id ≡ ok path
    → codes "manifests/" ++ (id ++ codes ".json") ≡ path
unfolding manifest_blob_path
path_of id path h = let (_, _, e) = bind_elim (validate_tile_set_id id) _ h in ok_injective e

latest_split : latest_manifest_blob_path ≡ codes "manifests/" ++ (codes "latest" ++ codes ".json")
unfolding latest_manifest_blob_path
latest_split = refl

-- The manifest of a message's tile set is never the pointer.
pub manifest_blob_path-elsewhere :
    (date_text simple : ℕ → Text) (version : Text) (m : ProcessingMessage ℕ ℕ) (attempt : ℕ)
    → manifest_blob_path (tile_set_id_for_message date_text simple version m attempt)
      ≢ ok latest_manifest_blob_path
unfolding tile_set_id_for_message
manifest_blob_path-elsewhere date_text simple version m attempt h =
    let id = tile_set_id_for_message date_text simple version m attempt in
    let same = path_of id latest_manifest_blob_path h ∙ latest_split in
    let name = append_cancel_left (codes "manifests/") _ _ same in
    let latest = append_cancel_right id (codes "latest") (codes ".json") name in
    let rest = version ++ codes "-" ++ take 8 (simple m.ingest_id) ++ codes "-a" in
    let split = append_assoc (date_text m.granule_date) (b'-' ∷ rest) (decimal (max attempt 1)) in
    dash_there (date_text m.granule_date) (rest ++ decimal (max attempt 1)) (codes "latest")
      (sym split ∙ latest) latest-Lacks
