-- ===== src/Text.antt =====
-- What the program uses of Rust's `str` and of number formatting. A text is its code points; prefixes
-- and separators are found alike in these and in the UTF-8 bytes.
pub mod Decimal
pub mod Split
use lumen_horizon.Prelude.{
  ◌≡◌, ◌↔◌, Bool, true, false, [], ◌∷◌, ◌++◌, arith, Text, ◌==◌, ◌&&◌, ◌||◌, refl,
}

-- `starts_with(p)`, the prefix first.
unfoldable pub starts_with : Text → Text → Bool
starts_with [] s = true
starts_with (p ∷ ps) [] = false
starts_with (p ∷ ps) (c ∷ s) = p == c && starts_with ps s

-- `contains(p)` for a text `p`.
unfoldable pub contains : Text → Text → Bool
unfolding starts_with
contains p [] = starts_with p []
contains p (c ∷ s) = starts_with p (c ∷ s) || contains p s

-- `==`
unfoldable pub text_eq : Text → Text → Bool
text_eq [] [] = true
text_eq (a ∷ s) (b ∷ t) = a == b && text_eq s t
text_eq _ _ = false

pub text_eq_iff : (s t : Text) → (text_eq s t ≡ true) ↔ (s ≡ t)
unfolding text_eq
text_eq_iff [] [] = ground arith
text_eq_iff [] (b ∷ t) = ground arith
text_eq_iff (a ∷ s) [] = ground arith
text_eq_iff (a ∷ s) (b ∷ t) = ground (arith, text_eq_iff s t)

pub starts_with-append : (p s : Text) → starts_with p (p ++ s) ≡ true
unfolding starts_with
starts_with-append [] s = refl
starts_with-append (c ∷ p) s = ground (arith, starts_with-append p s)

pub starts_with_elim : (p s : Text) → starts_with p s ≡ true → (r : Text) × (s ≡ p ++ r)
unfolding starts_with
starts_with_elim [] s h = (s, refl)
starts_with_elim (c ∷ p) [] h = cc
starts_with_elim (c ∷ p) (d ∷ s) h =
    let (r, e) = starts_with_elim p s (ground arith) in (r, ground arith)
