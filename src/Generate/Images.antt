-- ===== src/Generate/Images.antt =====
-- The tiles that are rendered from samples are whole images.
use lumen_horizon.Prelude.{
  ℕ, ◌*◌, ◌≡◌, List, length, Text, Option, none, some, Result, ok, err, refl, sym, ◌∙◌,
  Result-cases, inl, inr,
}
use lumen_horizon.Float.{Floating}
use lumen_horizon.Tiles.Coord.{TileCoord}
use lumen_horizon.Science.Mapping.{DatasetMapping, RasterWindow}
use lumen_horizon.Publish.Types.{RenderedTile}
use lumen_horizon.Generate.Types.{GenerateError}
use lumen_horizon.Generate.Render.{
  RenderPixel, render_png_tile, encoded, render_png_tile-encodes, render_png_tile-guards,
}
use lumen_horizon.Generate.Samples.{
  RasterSample, IsRendered, render_pixels_from_samples-IsRendered, tile_with, map_some,
  render_tile_from_samples, tile_samples, render_tile_window_from_granule,
}

module _ (F : Floating) (write_image : List ℕ → ℕ → ℕ → Option (List ℕ)) where
  -- Not a panic; a tile that is returned is the one that was asked for, and its file is the encoding of a
  -- full image.
  abbrev pub IsTileResult : TileCoord → ℕ → Option (Result (GenerateError F) RenderedTile) → Type 0
  IsTileResult coord tile_size none = ⊥
  IsTileResult coord tile_size (some (err e)) = Unit
  IsTileResult coord tile_size (some (ok t)) =
      (t.coord ≡ coord)
      × ((rgba : List ℕ) × (length rgba ≡ 4 * (tile_size * tile_size))
          × (write_image rgba tile_size tile_size ≡ some t.png_bytes))

  encoded_elim :
      (o : Option (List ℕ)) {png : List ℕ} → encoded F write_image o ≡ ok png → o ≡ some png
  encoded_elim none h = cc
  encoded_elim (some png) h = cc

  tile_with-IsTileResult :
      (coord : TileCoord) (tile_size : ℕ) (pixels : List (RenderPixel F))
      → IsTileResult coord tile_size (some (tile_with F write_image coord tile_size (ok pixels)))
  tile_with-IsTileResult coord tile_size pixels =
      elim (Result-cases (render_png_tile F write_image tile_size pixels)) [
        | inl (e, f) ↦ rw f tt
        | inr (png, f) ↦
            let (some_size, same) = render_png_tile-guards F write_image tile_size pixels f in
            let (rgba, count, g) =
              render_png_tile-encodes F write_image tile_size pixels some_size same in
            rw f (refl, (rgba, count, encoded_elim _ (sym g ∙ f)))
      ]

  render_tile_from_samples-IsTileResult :
      (mapping : DatasetMapping F) (coord : TileCoord) (tile_size : ℕ)
      (radiance quality : List (RasterSample F)) (cloud counts : Option (List (RasterSample F)))
      → IsTileResult coord tile_size (
          render_tile_from_samples F write_image mapping coord tile_size radiance quality cloud
            counts)
  unfolding render_tile_from_samples
  render_tile_from_samples-IsTileResult mapping coord tile_size radiance quality cloud counts =
      after _ (render_pixels_from_samples-IsRendered F mapping quality cloud counts radiance)
    where
      after :
          (r : Option (Result (GenerateError F) (List (RenderPixel F))))
          → IsRendered F mapping quality cloud counts (length radiance) r
          → IsTileResult coord tile_size
              (map_some F write_image (tile_with F write_image coord tile_size) r)
      after none h = h
      after (some (err e)) h = tt
      after (some (ok pixels)) h = tile_with-IsTileResult coord tile_size pixels

  -- Whatever GDAL's tools return: no index is out of bounds, and a tile that is rendered is the one
  -- that was asked for, the encoding of an image of `tile_size` by `tile_size` pixels.
  pub render_tile_window_from_granule-IsTileResult :
      (resized : Text → RasterWindow → ℕ × ℕ → Result Text (List (RasterSample F)))
      (mapping : DatasetMapping F) (coord : TileCoord) (window : RasterWindow) (tile_size : ℕ)
      → IsTileResult coord tile_size
          (render_tile_window_from_granule F write_image resized mapping coord window tile_size)
  unfolding render_tile_window_from_granule
  render_tile_window_from_granule-IsTileResult resized mapping coord window tile_size =
      elim (Result-cases (tile_samples F write_image resized mapping window tile_size)) [
        | inl (e, f) ↦ rw (f, IsTileResult) tt
        | inr ((radiance, quality, cloud, counts), f) ↦
            rw (f, IsTileResult)
              (render_tile_from_samples-IsTileResult mapping coord tile_size radiance quality cloud
                counts)
      ]
