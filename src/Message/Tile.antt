-- ===== src/Message/Tile.antt =====
-- The first `hXXvYY` in a text: `parse_first_tile`, and `TileCoordinate::parse_from`, its twin in
-- ingest-svc. The six characters of a window are ASCII, so they are bytes and code points alike.
use lumen_horizon.Prelude.{
  ℕ, ◌+◌, ◌-◌, ◌*◌, ◌/◌, ◌%◌, ◌<◌, ◌≡◌, ◌≢◌, refl, Bool, if◌then◌else◌, Option, none, some, Text,
  [], ◌∷◌, ◌++◌, ◌==◌, ◌&&◌, leb, arith, Option-cases, inl, inr, ap, ◌∙◌, ◌⊎◌,
}
use lumen_horizon.Text.Split.{Lacks}
use lumen_horizon.Text.Decimal.{two_digits, two_digits_lem}

abbrev pub is_digit : ℕ → Bool
is_digit c = leb b'0' c && leb c b'9'

abbrev pub parse_two_digits : ℕ → ℕ → ℕ
parse_two_digits tens ones = (tens - b'0') * 10 + (ones - b'0')

-- The test of one window.
tile_at : Text → Option (ℕ × ℕ)
tile_at (a ∷ b ∷ c ∷ d ∷ e ∷ f ∷ rest) =
    if a == b'h' && d == b'v' && is_digit b && is_digit c && is_digit e && is_digit f
    then some (parse_two_digits b c, parse_two_digits e f)
    else none
tile_at _ = none

unfoldable pub parse_first_tile : Text → Option (ℕ × ℕ)
unfolding tile_at
parse_first_tile [] = none
parse_first_tile (c ∷ s) = elim (tile_at (c ∷ s)) [
  | some tile ↦ some tile
  | none ↦ parse_first_tile s
]

-- The window that spells a tile.
abbrev pub tile_window : ℕ → ℕ → Text
tile_window h v =
    b'h' ∷ (b'0' + h / 10) ∷ (b'0' + h % 10) ∷ b'v' ∷ (b'0' + v / 10) ∷ (b'0' + v % 10) ∷ []

-- The text spells the tile somewhere.
pub record Spells (s : Text) (h v : ℕ) : Type 0 where
  pub before : Text
  pub after : Text
  pub split : s ≡ before ++ (tile_window h v ++ after)
  pub small_h : h < 100
  pub small_v : v < 100

tile_at_sound :
    (s : Text) (h v : ℕ)
    → tile_at s ≡ some (h, v)
    → (after : Text) × (s ≡ tile_window h v ++ after) × (h < 100) × (v < 100)
unfolding tile_at
tile_at_sound (a ∷ b ∷ c ∷ d ∷ e ∷ f ∷ rest) h v p =
    (rest, ground arith, ground arith, ground arith)
tile_at_sound (a ∷ b ∷ c ∷ d ∷ e ∷ []) h v p = cc
tile_at_sound (a ∷ b ∷ c ∷ d ∷ []) h v p = cc
tile_at_sound (a ∷ b ∷ c ∷ []) h v p = cc
tile_at_sound (a ∷ b ∷ []) h v p = cc
tile_at_sound (a ∷ []) h v p = cc
tile_at_sound [] h v p = cc

tile_at-window :
    (h v : ℕ) (rest : Text) → h < 100 → v < 100 → tile_at (tile_window h v ++ rest) ≡ some (h, v)
unfolding tile_at
tile_at-window h v rest p q = ground arith

tile_at-ne_h : (c : ℕ) (s : Text) → c ≢ b'h' → tile_at (c ∷ s) ≡ none
unfolding tile_at
tile_at-ne_h a (b ∷ c ∷ d ∷ e ∷ f ∷ rest) n = ground arith
tile_at-ne_h a (b ∷ c ∷ d ∷ e ∷ []) n = refl
tile_at-ne_h a (b ∷ c ∷ d ∷ []) n = refl
tile_at-ne_h a (b ∷ c ∷ []) n = refl
tile_at-ne_h a (b ∷ []) n = refl
tile_at-ne_h a [] n = refl

Spells-cons : (c : ℕ) {s : Text} {h v : ℕ} → Spells s h v → Spells (c ∷ s) h v
Spells-cons c t = record {
  before = c ∷ t.before;
  after = t.after;
  split = ap (◌∷◌ c) t.split;
  small_h = t.small_h;
  small_v = t.small_v;
}

parse_first_tile-Spells : (s : Text) (h v : ℕ) → parse_first_tile s ≡ some (h, v) → Spells s h v
unfolding parse_first_tile
parse_first_tile-Spells [] h v p = cc
parse_first_tile-Spells (c ∷ s) h v p = elim (Option-cases (tile_at (c ∷ s))) [
  | inl e ↦ Spells-cons c (parse_first_tile-Spells s h v (rw (e, parse_first_tile) at p))
  | inr (t, e) ↦
      let (after, split, small_h, small_v) =
        tile_at_sound (c ∷ s) h v (e ∙ (rw (e, parse_first_tile) at p)) in
      record { before = []; after = after; split = split; small_h = small_h; small_v = small_v }
]

finds :
    (before after : Text) (h v : ℕ)
    → h < 100
    → v < 100
    → parse_first_tile (before ++ (tile_window h v ++ after)) ≢ none
unfolding parse_first_tile
finds [] after h v p q = rw (tile_at-window h v after p q, parse_first_tile) (cc)
finds (c ∷ before) after h v p q =
    elim (Option-cases (tile_at (c ∷ (before ++ (tile_window h v ++ after))))) [
      | inl e ↦ rw (e, parse_first_tile) (finds before after h v p q)
      | inr (t, e) ↦ rw (e, parse_first_tile) (cc)
    ]

-- The scan returns a tile that the text spells, or `none` where the text spells no tile at all.
pub parse_first_tile_decides :
    (s : Text)
    → ((h : ℕ) × (v : ℕ) × (parse_first_tile s ≡ some (h, v)) × Spells s h v)
      ⊎ ((parse_first_tile s ≡ none) × ((h v : ℕ) → ¬ Spells s h v))
parse_first_tile_decides s = elim (Option-cases (parse_first_tile s)) [
  | inl e ↦ inr (e, λ h v t. finds t.before t.after h v t.small_h t.small_v (rw (← t.split) e))
  | inr ((h, v), e) ↦ inl (h, v, e, parse_first_tile-Spells s h v e)
]

-- The scan passes over what holds no `h`.
pub parse_first_tile-append :
    (before s : Text) → Lacks b'h' before → parse_first_tile (before ++ s) ≡ parse_first_tile s
unfolding parse_first_tile
parse_first_tile-append [] s l = refl
parse_first_tile-append (c ∷ before) s (n, l) =
    rw (tile_at-ne_h c (before ++ s) n, parse_first_tile) (parse_first_tile-append before s l)

-- `h{:02}v{:02}`
unfoldable pub print_tile : ℕ → ℕ → Text
print_tile h v = b'h' ∷ (two_digits h ++ b'v' ∷ two_digits v)

pub print_tile-eq-window : (h v : ℕ) → h < 100 → v < 100 → print_tile h v ≡ tile_window h v
unfolding print_tile
print_tile-eq-window h v p q = rw (two_digits_lem h p, two_digits_lem v q)

-- A tile that is printed behind a text without an `h` is the tile that is found.
pub parse_first_tile-print :
    (before after : Text) (h v : ℕ)
    → Lacks b'h' before
    → h < 100
    → v < 100
    → parse_first_tile (before ++ (print_tile h v ++ after)) ≡ some (h, v)
unfolding parse_first_tile
parse_first_tile-print before after h v l p q = rw (
  parse_first_tile-append before (print_tile h v ++ after) l,
  print_tile-eq-window h v p q,
  parse_first_tile,
  tile_at-window h v after p q,
)
