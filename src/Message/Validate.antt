-- ===== src/Message/Validate.antt =====
-- `ProcessingMessage::new`, `parse_json` and `product_kind`. The id and the date are opaque: their
-- types are parameters. So is serde's reading of the JSON text.
use lumen_horizon.Prelude.{
  ℕ, ◌≡◌, refl, Bool, if◌then◌else◌, Option, none, some, Result, ok, err, ◌>>=◌, ◌>>◌, bind_elim,
  ok_injective, Text, codes, [], ◌∷◌, true, false, ◌==◌, ◌||◌, arith, ap, sym, ◌∙◌, not, ◌↔◌,
}
use lumen_horizon.Prelude.Int.{ℤ, pos, negsuc}
use lumen_horizon.Text.{starts_with}
use lumen_horizon.Message.Product.{ProcessingProduct, parse_product}
use lumen_horizon.Message.Tile.{parse_first_tile}

pub data ValidationError : Type 0 where
  invalid_blob_path : Text → ValidationError
  invalid_json : Text → ValidationError
  missing_tile_in_blob_path : Text → ValidationError
  tile_mismatch : ℤ → ℤ → ℤ → ℤ → ValidationError
  unsupported_product : Text → ValidationError

-- An i16 is an integer. `RawProcessingMessage` has the same fields.
pub record ProcessingMessage (Uuid Date : Type 0) : Type 0 where
  pub ingest_id : Uuid
  pub blob_path : Text
  pub product : Text
  pub granule_date : Date
  pub tile_h : ℤ
  pub tile_v : ℤ

unfoldable pub is_empty : Text → Bool
is_empty [] = true
is_empty (c ∷ s) = false

unfoldable pub is_bad_path : Text → Bool
unfolding is_empty starts_with
is_bad_path path =
    is_empty path
    || starts_with (codes "/") path
    || starts_with (codes "http://") path
    || starts_with (codes "https://") path
    || starts_with (codes "raw-viirs/") path

unfoldable pub validate_blob_path : Text → Result ValidationError (Unit {0})
validate_blob_path path = if is_bad_path path then err (invalid_blob_path path) else ok tt

product_or_error : Text → Option ProcessingProduct → Result ValidationError ProcessingProduct
product_or_error name none = err (unsupported_product name)
product_or_error name (some p) = ok p

-- `ProcessingProduct::parse` as it is called here
unfoldable pub product_of : Text → Result ValidationError ProcessingProduct
unfolding product_or_error
product_of name = product_or_error name (parse_product name)

unfoldable pub validate_product : Text → Result ValidationError (Unit {0})
unfolding product_of
validate_product name = do p ← product_of name; ok tt

unfoldable pub tile_or_error : Text → Option (ℕ × ℕ) → Result ValidationError (ℕ × ℕ)
tile_or_error path none = err (missing_tile_in_blob_path path)
tile_or_error path (some tile) = ok tile

-- `i16` equality with a parsed number
abbrev pub same_tile : ℕ → ℤ → Bool
same_tile n (pos m) = n == m
same_tile n (negsuc m) = false

path_accepted :
    (path : Text) (u : Unit {0}) → validate_blob_path path ≡ ok u → is_bad_path path ≡ false
unfolding validate_blob_path
path_accepted path u h = ground arith

path_ok : (path : Text) → is_bad_path path ≡ false → validate_blob_path path ≡ ok tt
unfolding validate_blob_path
path_ok path h = ground arith

product_accepted :
    (name : Text) (u : Unit {0})
    → validate_product name ≡ ok u
    → (kind : ProcessingProduct) × (parse_product name ≡ some kind)
unfolding validate_product
product_accepted name u h = ground arith

product_ok :
    (name : Text) (kind : ProcessingProduct)
    → parse_product name ≡ some kind
    → validate_product name ≡ ok tt
unfolding validate_product
product_ok name kind h = ground arith

tile_ok : (path : Text) (tile : ℕ × ℕ) → tile_or_error path (some tile) ≡ ok tile
unfolding tile_or_error
tile_ok path tile = refl

tile_found :
    (path : Text) (o : Option (ℕ × ℕ)) (tile : ℕ × ℕ)
    → tile_or_error path o ≡ ok tile
    → o ≡ some tile
unfolding tile_or_error
tile_found path none tile h = cc
tile_found path (some t) tile h = cc

same_tile_elim : (n : ℕ) (i : ℤ) → same_tile n i ≡ true → i ≡ pos n
same_tile_elim n (pos m) h = ground arith
same_tile_elim n (negsuc m) h = cc

same_tile_refl : (n : ℕ) → same_tile n (pos n) ≡ true
same_tile_refl n = ground arith

module _ {Uuid Date : Type 0} where
  unfoldable pub check_tile :
      ProcessingMessage Uuid Date → ℕ × ℕ → Result ValidationError (ProcessingMessage Uuid Date)
  check_tile m (h, v) =
      if not (same_tile h m.tile_h) || not (same_tile v m.tile_v)
      then err (tile_mismatch (pos h) (pos v) m.tile_h m.tile_v)
      else ok m

  -- The arguments of `ProcessingMessage::new` are the fields of the message.
  unfoldable pub new :
      ProcessingMessage Uuid Date → Result ValidationError (ProcessingMessage Uuid Date)
  new m = do
    validate_blob_path m.blob_path
    validate_product m.product
    tile ← tile_or_error m.blob_path (parse_first_tile m.blob_path)
    check_tile m tile

  -- `serde_json::from_str` reads the fields of a `RawProcessingMessage`, or says what is wrong.
  unfoldable pub parse_json :
      (Text → Result Text (ProcessingMessage Uuid Date))
      → Text
      → Result ValidationError (ProcessingMessage Uuid Date)
  unfolding new
  parse_json from_str json = elim (from_str json) [
    | err e ↦ err (invalid_json e)
    | ok raw ↦ new raw
  ]

  unfoldable pub product_kind :
      ProcessingMessage Uuid Date → Result ValidationError ProcessingProduct
  unfolding product_of
  product_kind m = product_of m.product

  -- What a message promises to those who receive it.
  pub record IsChecked (m : ProcessingMessage Uuid Date) : Type 0 where
    pub path : is_bad_path m.blob_path ≡ false
    pub kind : ProcessingProduct
    pub supported : parse_product m.product ≡ some kind
    pub h : ℕ
    pub v : ℕ
    pub in_path : parse_first_tile m.blob_path ≡ some (h, v)
    pub same_h : m.tile_h ≡ pos h
    pub same_v : m.tile_v ≡ pos v

  accepted :
      (p q : Bool) (m m' : ProcessingMessage Uuid Date) (e : ValidationError)
      → (if not p || not q then err e else ok m) ≡ ok m'
      → (m' ≡ m) × (p ≡ true) × (q ≡ true)
  accepted true true m m' e h = (sym (ok_injective h), refl, refl)
  accepted true false m m' e h = cc
  accepted false q m m' e h = cc

  check_tile_elim :
      (m m' : ProcessingMessage Uuid Date) (h v : ℕ)
      → check_tile m (h, v) ≡ ok m'
      → (m' ≡ m) × (same_tile h m.tile_h ≡ true) × (same_tile v m.tile_v ≡ true)
  unfolding check_tile
  check_tile_elim m m' h v e =
      let (same, p, q) = accepted (same_tile h m.tile_h) (same_tile v m.tile_v) m m' _ e in
      (same, p, q)

  new_sound : (m m' : ProcessingMessage Uuid Date) → new m ≡ ok m' → (m' ≡ m) × IsChecked m
  unfolding new
  new_sound m m' e =
      let (u, path, rest) = bind_elim (validate_blob_path m.blob_path) _ e in
      let (u', supported, rest') = bind_elim (validate_product m.product) _ rest in
      let ((h, v), found, checked) =
        bind_elim (tile_or_error m.blob_path (parse_first_tile m.blob_path)) _ rest' in
      let (kind, parsed) = product_accepted m.product u' supported in
      let (same, p, q) = check_tile_elim m m' h v checked in
      (
        same,
        record {
          path = path_accepted m.blob_path u path;
          kind = kind;
          supported = parsed;
          h = h;
          v = v;
          in_path = tile_found m.blob_path _ (h, v) found;
          same_h = same_tile_elim h m.tile_h p;
          same_v = same_tile_elim v m.tile_v q;
        },
      )

  check_tile_ok :
      (m : ProcessingMessage Uuid Date) (h v : ℕ)
      → m.tile_h ≡ pos h
      → m.tile_v ≡ pos v
      → check_tile m (h, v) ≡ ok m
  unfolding check_tile
  check_tile_ok m h v p q =
      let p' : same_tile h m.tile_h ≡ true = ap (same_tile h) p ∙ same_tile_refl h in
      let q' : same_tile v m.tile_v ≡ true = ap (same_tile v) q ∙ same_tile_refl v in rw (p', q')

  pub new_complete : (m : ProcessingMessage Uuid Date) → IsChecked m → new m ≡ ok m
  unfolding new
  new_complete m t =
      let path = path_ok m.blob_path t.path in
      let product = product_ok m.product t.kind t.supported in
      let tile : tile_or_error m.blob_path (parse_first_tile m.blob_path) ≡ ok (t.h, t.v) =
        rw t.in_path (tile_ok _ _) in
      rw (path, product, tile) (check_tile_ok m t.h t.v t.same_h t.same_v)

  -- `new` returns its arguments, unchanged, exactly when the path is relative to the container, the
  -- product is supported, and the first tile that the path spells is the message's tile.
  pub new_iff : (m m' : ProcessingMessage Uuid Date) → (new m ≡ ok m') ↔ ((m' ≡ m) × IsChecked m)
  new_iff m m' = (new_sound m m', λ (same, t). new_complete m t ∙ ap ok (sym same))
