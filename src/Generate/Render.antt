-- ===== src/Generate/Render.antt =====
-- backend/processing-svc/src/render.rs: pixels in the colours of the dark-sky classes. The PNG
-- encoder is a parameter.
use lumen_horizon.Prelude.{
  ◌>>=◌, ℕ, ◌+◌, ◌-◌, ◌*◌, ◌≡◌, ◌==◌, ◌&&◌, arith, leb, Bool, true, false, not, if◌then◌else◌, List,
  [], ◌∷◌, ◌++◌, length, length-append, Text, Option, none, some, Option-cases, inl, inr,
  Bool-cases, All, Result, ok, err, refl, ◌||◌, ◌≤◌, ==_iff,
}
use mathlib.Core.Path.{subst}
use lumen_horizon.Float.{Floating}
use lumen_horizon.Science.DarkSky.{
  DarkSkyClass, dark_sky_classes, find_class, contains_radiance, classify_dark_sky,
}
use lumen_horizon.Generate.Types.{
  RenderError, encode_png, invalid_class_color, invalid_tile_size, pixel_count_mismatch,
}

pub record Rgba : Type 0 where
  pub red : ℕ
  pub green : ℕ
  pub blue : ℕ
  pub alpha : ℕ

abbrev pub transparent : Rgba
transparent = record { red = 0; green = 0; blue = 0; alpha = 0 }

-- `char::to_digit(16)`
abbrev hex_digit : ℕ → Option ℕ
hex_digit c =
    if leb b'0' c && leb c b'9'
    then some (c - b'0')
    else if leb b'a' c && leb c b'f'
    then some (c - b'a' + 10)
    else if leb b'A' c && leb c b'F'
    then some (c - b'A' + 10)
    else none

-- `u8::from_str_radix` on two characters, of which the first may be a sign
abbrev two_hex_digits : ℕ → ℕ → Option ℕ
two_hex_digits a b =
    let low = hex_digit b in
    if a == b'+' then low else elim (hex_digit a) [
      | none ↦ none
      | some high ↦ elim low [ none ↦ none | some digit ↦ some (high * 16 + digit) ]
    ]

some_injective : {A : Type 0} {a b : A} → (let o : Option A = some a in o) ≡ some b → a ≡ b
some_injective h = cc

unfoldable pub parse_hex_byte : ℕ → ℕ → Text → Result RenderError ℕ
parse_hex_byte a b color_hex = elim (two_hex_digits a b) [
  | none ↦ err (invalid_class_color color_hex)
  | some n ↦ ok n
]

-- The six characters behind `#`: a length that differs is an error.
unfoldable pub parse_color_digits : Text → Text → Result RenderError (ℕ × ℕ × ℕ)
unfolding parse_hex_byte
parse_color_digits (a ∷ b ∷ c ∷ d ∷ e ∷ f ∷ []) color_hex = do
  red ← parse_hex_byte a b color_hex
  green ← parse_hex_byte c d color_hex
  blue ← parse_hex_byte e f color_hex
  ok (red, green, blue)
parse_color_digits value color_hex = err (invalid_class_color color_hex)

unfoldable pub parse_color_hex : Text → Result RenderError (ℕ × ℕ × ℕ)
unfolding parse_color_digits
parse_color_hex [] = err (invalid_class_color [])
parse_color_hex (c ∷ value) =
    if c == b'#'
    then parse_color_digits value (c ∷ value)
    else err (invalid_class_color (c ∷ value))

module _ (F : Floating) where
  pub record RenderPixel : Type 0 where
    pub radiance : Option F.Num
    pub rejected : Bool

  -- The colour of a class
  unfoldable pub color_of : DarkSkyClass F → Result RenderError Rgba
  unfolding parse_color_hex
  color_of class = do
    color ← parse_color_hex class.color_hex
    let (red, green, blue) = color
    ok (record { red = red; green = green; blue = blue; alpha = 255 })

  abbrev class_color : Option (DarkSkyClass F) → Result RenderError Rgba
  class_color none = ok transparent
  class_color (some class) = color_of class

  abbrev radiance_color : Option F.Num → Result RenderError Rgba
  radiance_color none = ok transparent
  radiance_color (some radiance) = class_color (classify_dark_sky F radiance)

  unfoldable pub render_pixel : RenderPixel → Result RenderError Rgba
  unfolding color_of classify_dark_sky
  render_pixel pixel = if pixel.rejected then ok transparent else radiance_color pixel.radiance

  -- The loop over the pixels, with the bytes so far
  unfoldable pub render_pixels : List RenderPixel → List ℕ → Result RenderError (List ℕ)
  unfolding render_pixel
  render_pixels [] rgba = ok rgba
  render_pixels (pixel ∷ pixels) rgba = do
    color ← render_pixel pixel
    render_pixels pixels (rgba ++ color.red ∷ color.green ∷ color.blue ∷ color.alpha ∷ [])

  -- `write_image(rgba, width, height, Rgba8)` gives the file or fails.
  module _ (write_image : List ℕ → ℕ → ℕ → Option (List ℕ)) where
    abbrev pub encoded : Option (List ℕ) → Result RenderError (List ℕ)
    encoded none = err encode_png
    encoded (some png) = ok png

    unfoldable pub render_png_tile : ℕ → List RenderPixel → Result RenderError (List ℕ)
    unfolding render_pixels
    render_png_tile tile_size pixels =
        let expected = tile_size * tile_size in
        if tile_size == 0
        then err invalid_tile_size
        else if not (length pixels == expected)
        then err (pixel_count_mismatch tile_size expected (length pixels))
        else do rgba ← render_pixels pixels []; encoded (write_image rgba tile_size tile_size)

  -- The class has a colour that parses.
  abbrev HasColor : DarkSkyClass F → Type 0
  HasColor class = (c : Rgba) × (color_of class ≡ ok c)

  table-HasColor : All HasColor (dark_sky_classes F)
  unfolding dark_sky_classes color_of
  table-HasColor = (
    (_, refl),
    (
      (_, refl),
      ((_, refl), ((_, refl), ((_, refl), ((_, refl), ((_, refl), ((_, refl), ((_, refl), tt))))))),
    ),
  )

  find_class-HasColor :
      (radiance : F.Num) (classes : List (DarkSkyClass F)) {class : DarkSkyClass F}
      → All HasColor classes
      → find_class F radiance classes ≡ some class
      → HasColor class
  unfolding find_class
  find_class-HasColor radiance [] _ h = cc
  find_class-HasColor radiance (c ∷ cs) (color, colors) h =
      elim (Bool-cases (contains_radiance F radiance c)) [
        | inl inside ↦ subst HasColor (some_injective (rw inside at h)) color
        | inr outside ↦ find_class-HasColor radiance cs colors (rw outside at h)
      ]

  radiance_color-ok : (radiance : F.Num) → (c : Rgba) × (radiance_color (some radiance) ≡ ok c)
  unfolding classify_dark_sky
  radiance_color-ok radiance =
      elim (Bool-cases (not (F.is_finite radiance) || F.lt radiance (F.literal 0 1))) [
        | inl bad ↦ rw bad (transparent, refl)
        | inr well ↦ elim (Option-cases (find_class F radiance (dark_sky_classes F))) [
          | inl missing ↦ rw (well, missing) (transparent, refl)
          | inr (class, found) ↦
              rw (well, found) (find_class-HasColor radiance _ table-HasColor found)
        ]
      ]

  -- Every pixel has a colour: the colours of the classes parse.
  render_pixel-ok : (pixel : RenderPixel) → (c : Rgba) × (render_pixel pixel ≡ ok c)
  unfolding render_pixel
  render_pixel-ok pixel = elim (Bool-cases pixel.rejected) [
    | inl bad ↦ rw bad (transparent, refl)
    | inr well ↦ elim (Option-cases pixel.radiance) [
      | inl missing ↦ rw (well, missing) (transparent, refl)
      | inr (radiance, some_radiance) ↦ rw (well, some_radiance) (radiance_color-ok radiance)
    ]
  ]

  render_pixels-ok :
      (pixels : List RenderPixel) (rgba : List ℕ)
      → (bytes : List ℕ) × (render_pixels pixels rgba ≡ ok bytes)
        × (length bytes ≡ length rgba + 4 * length pixels)
  unfolding render_pixels
  render_pixels-ok [] rgba = (rgba, refl, omega arith)
  render_pixels-ok (pixel ∷ pixels) rgba =
      let (c, e) = render_pixel-ok pixel in
      let color = c.red ∷ c.green ∷ c.blue ∷ c.alpha ∷ [] in
      let (bytes, f, count) = render_pixels-ok pixels (rgba ++ color) in
      (bytes, rw e f, omega (arith, length-append rgba color))

  -- A tile of the right number of pixels never fails for a colour: what is encoded is an image of
  -- `tile_size` by `tile_size` pixels with four bytes each, and the result is the encoder's.
  pub render_png_tile-encodes :
      (write_image : List ℕ → ℕ → ℕ → Option (List ℕ)) (tile_size : ℕ) (pixels : List RenderPixel)
      → 1 ≤ tile_size
      → length pixels ≡ tile_size * tile_size
      → (rgba : List ℕ) × (length rgba ≡ 4 * (tile_size * tile_size))
        × (render_png_tile write_image tile_size pixels
            ≡ encoded write_image (write_image rgba tile_size tile_size))
  unfolding render_png_tile
  render_png_tile-encodes write_image tile_size pixels some_size same =
      let (rgba, e, count) = render_pixels-ok pixels [] in
      let large : (tile_size == 0) ≡ false = ground arith in
      let full : (length pixels == tile_size * tile_size) ≡ true = (==_iff _ _).1 same in
      (rgba, rw (← same) (omega (arith, count)), rw (large, full, e) refl)

  -- What the guards have found, where a file is returned
  pub render_png_tile-guards :
      (write_image : List ℕ → ℕ → ℕ → Option (List ℕ)) (tile_size : ℕ) (pixels : List RenderPixel)
      {png : List ℕ}
      → render_png_tile write_image tile_size pixels ≡ ok png
      → (1 ≤ tile_size) × (length pixels ≡ tile_size * tile_size)
  unfolding render_png_tile
  render_png_tile-guards write_image tile_size pixels h = elim (Bool-cases (tile_size == 0)) [
    | inl empty ↦ cc (rw empty at h)
    | inr large ↦ elim (Bool-cases (length pixels == tile_size * tile_size)) [
      | inl same ↦ (ground arith, (==_iff _ _).0 same)
      | inr differ ↦ cc (rw (large, differ) at h)
    ]
  ]
