-- ===== src/Tiles/Paths.antt =====
-- Blob paths of tiles and manifests, and the check of a tile set's id.
use lumen_horizon.Prelude.{
  ◌>>◌, ℕ, sym, ◌∙◌, ◌≡◌, ◌↔◌, arith, leb, ◌==◌, ◌&&◌, ◌||◌, not, if◌then◌else◌, Result, ok, err,
  Text, codes, Bool, true, all, ◌∷◌, ◌++◌, ◌≢◌,
}
use lumen_horizon.Text.{starts_with, contains, starts_with-append, starts_with_elim}
use lumen_horizon.Text.Split.{Lacks, split_unique, contains-Lacks}
use lumen_horizon.Text.Decimal.{decimal, decimal_injective, decimal-Lacks}
use lumen_horizon.Tiles.Coord.{TileCoord, TileMathError, invalid_tile_set_id, validate_tile_coord}
use mathlib.Core.List.{append_assoc}
use mathlib.Core.Path.{subst}

-- `char::is_whitespace`: Unicode's White_Space.
unfoldable pub is_whitespace : ℕ → Bool
is_whitespace c =
    leb 9 c && leb c 13
    || c == 32
    || c == 0x85
    || c == 0xa0
    || c == 0x1680
    || leb 0x2000 c && leb c 0x200a
    || c == 0x2028
    || c == 0x2029
    || c == 0x202f
    || c == 0x205f
    || c == 0x3000

-- `id.trim().is_empty()`
is_blank : Text → Bool
is_blank = all is_whitespace

unfoldable pub validate_tile_set_id : Text → Result TileMathError (Unit {0})
unfolding is_blank is_whitespace contains starts_with
validate_tile_set_id id =
    let valid =
      not (is_blank id)
      && not (contains (codes "/") id)
      && not (contains (codes "\\") id)
      && not (contains (codes "..") id)
      && not (starts_with (codes "processed-tiles") id) in
    if valid then ok tt else err invalid_tile_set_id

-- The prefix under which a tile set's tiles stand.
abbrev pub tiles_of : Text → Text
tiles_of id = codes "tiles/" ++ id ++ codes "/"

abbrev tile_name : TileCoord → Text
tile_name c = decimal c.z ++ b'/' ∷ decimal c.x ++ b'/' ∷ decimal c.y ++ b'.' ∷ codes "png"

unfoldable pub tile_blob_path : Text → TileCoord → Result TileMathError Text
tile_blob_path id coord = do
  validate_tile_set_id id
  validate_tile_coord coord
  ok (
      codes "tiles/"
      ++ (id
          ++ b'/'
            ∷ (decimal coord.z
                ++ b'/' ∷ (decimal coord.x ++ b'/' ∷ (decimal coord.y ++ codes ".png")))))

unfoldable pub manifest_blob_path : Text → Result TileMathError Text
manifest_blob_path id = do validate_tile_set_id id; ok (codes "manifests/" ++ (id ++ codes ".json"))

unfoldable pub latest_manifest_blob_path : Text
latest_manifest_blob_path = codes "manifests/latest.json"

-- What an accepted id promises.
id-Lacks : (id : Text) → validate_tile_set_id id ≡ ok tt → Lacks b'/' id
unfolding validate_tile_set_id
id-Lacks id h = contains-Lacks b'/' id (ground arith)

pub tile_blob_path_elim :
    (id path : Text) (c : TileCoord)
    → tile_blob_path id c ≡ ok path
    → (validate_tile_set_id id ≡ ok tt)
      × (validate_tile_coord c ≡ ok tt)
      × (path
          ≡ codes "tiles/"
            ++ (id
                ++ b'/'
                  ∷ (decimal c.z ++ b'/' ∷ (decimal c.x ++ b'/' ∷ (decimal c.y ++ codes ".png")))))
unfolding tile_blob_path
tile_blob_path_elim id path c h = ground arith

-- A tile's path is no manifest's.
pub t_ne_m : (s t : Text) → (let a : Text = b't' ∷ s in a) ≢ b'm' ∷ t
t_ne_m s t e = ground (arith)

paths_split :
    (n m : ℕ) (s t : Text) → decimal n ++ b'/' ∷ s ≡ decimal m ++ b'/' ∷ t → (n ≡ m) × (s ≡ t)
paths_split n m s t e =
    let (p, q) =
      split_unique b'/' (decimal n) (decimal m) s t (decimal-Lacks b'/' n (omega arith))
        (decimal-Lacks b'/' m (omega arith)) e in
    (decimal_injective n m p, q)

-- No two tiles share a blob: a path gives back the tile set and the tile that it was built from.
pub tile_blob_path_injective :
    (id id' path : Text) (c c' : TileCoord)
    → tile_blob_path id c ≡ ok path
    → tile_blob_path id' c' ≡ ok path
    → (id ≡ id') × (c ≡ c')
tile_blob_path_injective id id' path c c' h h' =
    let (valid, _, e) = tile_blob_path_elim id path c h in
    let (valid', _, e') = tile_blob_path_elim id' path c' h' in
    let (_, p) =
      split_unique b'/' (codes "tiles") (codes "tiles") _ _ (omega arith) (omega arith)
        (sym e ∙ e') in
    let (same_id, q) = split_unique b'/' id id' _ _ (id-Lacks id valid) (id-Lacks id' valid') p in
    let (same_z, r) = paths_split c.z c'.z _ _ q in
    let (same_x, s) = paths_split c.x c'.x _ _ r in
    let (same_y, _) =
      split_unique b'.' (decimal c.y) (decimal c'.y) _ _ (decimal-Lacks b'.' c.y (omega arith))
        (decimal-Lacks b'.' c'.y (omega arith)) s in
    (same_id, λ i. record { z = same_z i; x = same_x i; y = decimal_injective c.y c'.y same_y i })

-- A tile's path stands under the prefix of a tile set exactly when it is a tile of that set, so a
-- listing by prefix never returns the tile of another set.
pub tile_blob_path-starts_with_iff :
    (id id' path : Text) (c : TileCoord)
    → validate_tile_set_id id ≡ ok tt
    → tile_blob_path id' c ≡ ok path
    → (starts_with (tiles_of id) path ≡ true) ↔ (id ≡ id')
tile_blob_path-starts_with_iff id id' path c valid h =
    let (valid', _, e) = tile_blob_path_elim id' path c h in
    let rest = decimal c.z ++ b'/' ∷ (decimal c.x ++ b'/' ∷ (decimal c.y ++ codes ".png")) in
    (
      λ g.
          let (r, q) = starts_with_elim (tiles_of id) path g in
          let (_, p) =
            split_unique b'/' (codes "tiles") (codes "tiles") ((id ++ codes "/") ++ r)
              (id' ++ b'/' ∷ rest) (omega arith) (omega arith) (sym q ∙ e) in
          (split_unique b'/' id id' r rest (id-Lacks id valid) (id-Lacks id' valid')
            (sym (append_assoc id (codes "/") r) ∙ p)).0,
      λ g.
          subst (λ p. starts_with (tiles_of id) p ≡ true) (cc (append_assoc id (codes "/") rest))
            (starts_with-append (tiles_of id) rest),
    )
