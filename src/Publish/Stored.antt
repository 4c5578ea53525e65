-- ===== src/Publish/Stored.antt =====
-- What uploads and statements leave: the blobs that are stored, and the row that is latest.
use lumen_horizon.Prelude.{
  ==_iff, ◌||◌, ℕ, ◌==◌, Text, true, false, any, List, [], ◌∷◌, map, Option, some, if◌then◌else◌,
  Result, ok, err, All, ◌≡◌, inl, inr, refl, sym, ap, ◌∙◌, Bool-cases, arith,
}
use mathlib.Core.Path.{subst}
use mathlib.Core.List.{Mem, mem-cons_self, mem-cons_of_mem}
use lumen_horizon.Ingest.Columns.{All-weaken}
use lumen_horizon.Text.{text_eq, text_eq_iff}
use lumen_horizon.Action.{Preserves}
use lumen_horizon.Tiles.Coord.{TileCoord, TileMathError}
use lumen_horizon.Tiles.Paths.{tile_blob_path, manifest_blob_path, latest_manifest_blob_path}
use lumen_horizon.Ingest.World.{Fate, applied, refused, answer_lost}
use lumen_horizon.Publish.Types.{
  TileManifest, LatestManifestPointer, RenderedTile, DbError, TileSetRow, Outside, World,
}
use lumen_horizon.Publish.Steps.{
  map_error, put, uploaded, upload_processed_blob, clear_latest, set_latest, has_id, count_where,
}

-- A blob with such bytes stands at the path, if it is one.
abbrev pub IsStored :
    {S : Type 0} → (List ℕ → Type 0) → Result TileMathError Text → World S → Type 0
IsStored P (ok path) w = (bytes : List ℕ) × (w.blobs path ≡ some bytes) × P bytes
IsStored P (err e) w = ⊥

-- The bytes are those of a tile of the list with this coordinate.
abbrev pub AreBytesOf : List RenderedTile → TileCoord → List ℕ → Type 0
AreBytesOf tiles coord bytes =
    (tile : RenderedTile) × Mem tile tiles × (tile.coord ≡ coord) × (tile.png_bytes ≡ bytes)

-- At the path of each tile stand the bytes of a tile of the list with its coordinate, at the manifest's
-- path stands its JSON text, and the row is there and the only latest one.
pub record IsInPlace {S R : Type 0} (o : Outside S R) (manifest : TileManifest R)
    (tiles : List RenderedTile) (w : World S) : Type 0 where
  pub tiles_stored :
      All
        (λ tile.
          IsStored (AreBytesOf tiles tile.coord) (tile_blob_path manifest.tile_set_id tile.coord) w)
        tiles
  pub manifest_stored :
      IsStored
        (λ bytes. o.manifest_json manifest ≡ ok bytes)
        (manifest_blob_path manifest.tile_set_id)
        w
  pub has_row : any (has_id manifest.tile_set_id) w.tile_sets ≡ true
  pub only_latest : All (λ r. r.latest ≡ text_eq r.id manifest.tile_set_id) w.tile_sets

-- The pointer names the manifest, and its JSON text stands at the pointer's path.
pub record PointsTo {S R : Type 0} (o : Outside S R) (manifest : TileManifest R)
    (pointer : LatestManifestPointer) (w : World S) : Type 0 where
  pub named : pointer.tile_set_id ≡ manifest.tile_set_id
  pub path : manifest_blob_path manifest.tile_set_id ≡ ok pointer.manifest_blob_path
  pub stored :
      IsStored (λ bytes. o.pointer_json pointer ≡ ok bytes) (ok latest_manifest_blob_path) w

pub each-Mem : (tiles : List RenderedTile) → All (λ tile. Mem tile tiles) tiles
each-Mem [] = tt
each-Mem (t ∷ ts) = (mem-cons_self, All-weaken (λ a h. mem-cons_of_mem t h) ts (each-Mem ts))

put_stored :
    (P : List ℕ → Type 0) (path : Text) (bytes : List ℕ) (blobs : Text → Option (List ℕ)) (p : Text)
    → (p ≡ path → P bytes)
    → (b : List ℕ) × (blobs p ≡ some b) × P b
    → (b : List ℕ) × (put path bytes blobs p ≡ some b) × P b
put_stored P path bytes blobs p same (b, there, holds) = elim (Bool-cases (text_eq p path)) [
  | inl e ↦ (bytes, rw e refl, same ((text_eq_iff p path).0 e))
  | inr e ↦ (b, rw e there, holds)
]

pub put_there :
    (path : Text) (bytes : List ℕ) (blobs : Text → Option (List ℕ))
    → put path bytes blobs path ≡ some bytes
put_there path bytes blobs =
    subst (λ b. (if b then some bytes else blobs path) ≡ some bytes)
      (sym ((text_eq_iff path path).1 refl)) refl

pub put_elsewhere :
    (path : Text) (bytes : List ℕ) (blobs : Text → Option (List ℕ)) (p : Text)
    → text_eq p path ≡ false
    → put path bytes blobs p ≡ blobs p
put_elsewhere path bytes blobs p e = rw e refl

pub All-set :
    (id : Text) (rows : List TileSetRow)
    → All (λ r. r.latest ≡ text_eq r.id id) (map (set_latest id) (map clear_latest rows))
All-set id [] = tt
All-set id (r ∷ rs) = (ground arith, All-set id rs)

module _ {S R : Type 0} (o : Outside S R) where
  stored_whatever :
      (P : List ℕ → Type 0) (p path : Text) (bytes : List ℕ) (w : World S) (fate : Fate)
      → (p ≡ path → P bytes)
      → (b : List ℕ) × (w.blobs p ≡ some b) × P b
      → (b : List ℕ) × ((uploaded o path bytes w fate).1 p ≡ some b) × P b
  stored_whatever P p path bytes w applied same h = put_stored P path bytes w.blobs p same h
  stored_whatever P p path bytes w (refused e) same h = h
  stored_whatever P p path bytes w (answer_lost e) same h = put_stored P path bytes w.blobs p same h

  -- A stored blob stays as it has to be, where an upload to its path brings such bytes too.
  pub upload-IsStored :
      (P : List ℕ → Type 0) (p : Result TileMathError Text) (path : Text) (bytes : List ℕ)
      → (p ≡ ok path → P bytes)
      → Preserves (IsStored P p) (upload_processed_blob o path bytes)
  unfolding upload_processed_blob
  upload-IsStored P (ok p) path bytes same w h =
      stored_whatever P p path bytes w (o.storage w.outer).0 (λ e. same (ap ok e)) h
  upload-IsStored P (err e) path bytes same w h = h

  -- An upload elsewhere leaves the pointer alone, and an upload that succeeds has stored its blob.
  pub pointer_whatever :
      (pointer path : Text) (bytes : List ℕ) (w : World S) (fate : Fate)
      → text_eq pointer path ≡ false
      → (uploaded o path bytes w fate).1 pointer ≡ w.blobs pointer
  pointer_whatever pointer path bytes w applied e = put_elsewhere path bytes w.blobs pointer e
  pointer_whatever pointer path bytes w (refused _) e = refl
  pointer_whatever pointer path bytes w (answer_lost _) e =
      put_elsewhere path bytes w.blobs pointer e

  pub stored_if_ok :
      (path : Text) (bytes : List ℕ) (w : World S) (fate : Fate) (u : Unit {0})
      → (uploaded o path bytes w fate).0 ≡ ok u
      → (uploaded o path bytes w fate).1 path ≡ some bytes
  stored_if_ok path bytes w applied u e = put_there path bytes w.blobs
  stored_if_ok path bytes w (refused _) u e = cc
  stored_if_ok path bytes w (answer_lost _) u e = cc

pub promoted_rows :
    (r : Result DbError (List TileSetRow)) (rows rows' : List TileSetRow)
    → r ≡ ok rows
    → r ≡ ok rows'
    → rows ≡ rows'
promoted_rows r rows rows' h k = ap (λ x. elim x [ ok rs ↦ rs | err _ ↦ rows ]) (sym h ∙ k)

set_keeps_id : (id : Text) (r : TileSetRow) → has_id id (set_latest id r) ≡ has_id id r
set_keeps_id id r = elim (Bool-cases (text_eq r.id id)) [ inl e ↦ rw e e | inr e ↦ rw e e ]

any_set :
    (id : Text) (rows : List TileSetRow)
    → any (has_id id) (map (set_latest id) rows) ≡ any (has_id id) rows
any_set id [] = refl
any_set id (r ∷ rs) =
    ap (λ b. b || any (has_id id) (map (set_latest id) rs)) (set_keeps_id id r)
    ∙ ap (λ b. has_id id r || b) (any_set id rs)

count_any :
    (id : Text) (rows : List TileSetRow)
    → count_where (has_id id) rows ≡ 1
    → any (has_id id) rows ≡ true
count_any id [] h = ground arith
count_any id (r ∷ rs) h = elim (Bool-cases (text_eq r.id id)) [
  | inl e ↦ rw e refl
  | inr e ↦ rw e (count_any id rs (sym (skipped id r rs e) ∙ h))
]
  where
    skipped :
        (id : Text) (r : TileSetRow) (rs : List TileSetRow)
        → text_eq r.id id ≡ false
        → count_where (has_id id) (r ∷ rs) ≡ count_where (has_id id) rs
    skipped id r rs e = rw e refl

pub counted_any :
    (id : Text) (rows : List TileSetRow)
    → (count_where (has_id id) rows == 1) ≡ true
    → any (has_id id) (map (set_latest id) rows) ≡ true
counted_any id rows h =
    any_set id rows ∙ count_any id rows ((==_iff (count_where (has_id id) rows) 1).0 h)

pub map_error_ok :
    {E F A : Type 0} (f : E → F) (r : Result E A) (a : A) → map_error f r ≡ ok a → r ≡ ok a
map_error_ok f (ok b) a e = cc
map_error_ok f (err x) a e = cc
