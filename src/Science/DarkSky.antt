-- ===== src/Science/DarkSky.antt =====
-- The dark-sky class of a radiance.
use lumen_horizon.Prelude.{
  ℕ, Text, codes, Bool, true, false, ◌&&◌, ◌||◌, not, Option, none, some, if◌then◌else◌, List, [],
  ◌∷◌, ◌≡◌, All,
}
use lumen_horizon.Float.{Floating}

module _ (F : Floating) where
  pub record DarkSkyClass : Type 0 where
    pub class : ℕ
    pub color_hex : Text
    pub label : Text
    pub min_radiance : F.Num
    pub max_radiance_exclusive : Option F.Num

  abbrev row : ℕ → Text → Text → F.Num → Option F.Num → DarkSkyClass
  row n color label low high = record {
    class = n;
    color_hex = color;
    label = label;
    min_radiance = low;
    max_radiance_exclusive = high;
  }

  -- A threshold in tenths
  abbrev tenths : ℕ → F.Num
  tenths n = F.literal n 1

  unfoldable pub dark_sky_classes : List DarkSkyClass
  dark_sky_classes =
      row 1 (codes "#05070d") (codes "Excellent dark site") (tenths 0) (some (tenths 2))
      ∷ row 2 (codes "#10203f") (codes "Dark site") (tenths 2) (some (tenths 4))
      ∷ row 3 (codes "#1f3f75") (codes "Rural sky") (tenths 4) (some (tenths 10))
      ∷ row 4 (codes "#2f6f73") (codes "Rural/suburban transition") (tenths 10) (some (tenths 30))
      ∷ row 5 (codes "#62a35c") (codes "Suburban edge") (tenths 30) (some (tenths 60))
      ∷ row 6 (codes "#b6b34b") (codes "Bright suburban") (tenths 60) (some (tenths 120))
      ∷ row 7 (codes "#d9822b") (codes "Urban transition") (tenths 120) (some (tenths 250))
      ∷ row 8 (codes "#d64a2f") (codes "City sky") (tenths 250) (some (tenths 500))
      ∷ row 9 (codes "#f2efe8") (codes "Inner-city sky") (tenths 500) none
      ∷ []

  -- `radiance < max`, where the class has one
  abbrev pub below_max : F.Num → Option F.Num → Bool
  below_max radiance none = true
  below_max radiance (some max) = F.lt radiance max

  unfoldable pub contains_radiance : F.Num → DarkSkyClass → Bool
  contains_radiance radiance c =
      F.le c.min_radiance radiance && below_max radiance c.max_radiance_exclusive

  unfoldable pub find_class : F.Num → List DarkSkyClass → Option DarkSkyClass
  find_class radiance [] = none
  find_class radiance (c ∷ cs) =
      if contains_radiance radiance c then some c else find_class radiance cs

  unfoldable pub classify_dark_sky : F.Num → Option DarkSkyClass
  unfolding find_class contains_radiance
  classify_dark_sky radiance =
      if not (F.is_finite radiance) || F.lt radiance (tenths 0)
      then none
      else find_class radiance dark_sky_classes

  -- Each class begins where the one before it ends, at a finite number, and the last has no end.
  IsChain : F.Num → List DarkSkyClass → Type 0
  IsChain low [] = ⊥
  IsChain low (c ∷ cs) = (c.min_radiance ≡ low) × elim c.max_radiance_exclusive [
    | none ↦ Unit {0}
    | some high ↦ (F.is_finite high ≡ true) × IsChain high cs
  ]

  -- The bounds of the classes are finite numbers.
  abbrev pub AreThresholds : Type 0
  AreThresholds =
      All (λ n. F.is_finite (tenths n) ≡ true) (0 ∷ 2 ∷ 4 ∷ 10 ∷ 30 ∷ 60 ∷ 120 ∷ 250 ∷ 500 ∷ [])

  -- What the comparison of two finite numbers promises
  abbrev pub IsTotal : Type 0
  IsTotal =
      (a b : F.Num)
      → F.is_finite a ≡ true
      → F.is_finite b ≡ true
      → F.lt a b ≡ false
      → F.le b a ≡ true
