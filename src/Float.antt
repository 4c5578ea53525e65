-- ===== src/Float.antt =====
-- The floating-point numbers that the program computes with, as an interface: a type, its
-- operations, and by name the laws that a theorem may assume of them.
pub mod Fixed
use lumen_horizon.Prelude.{ℕ, ◌≡◌, ◌⊎◌, Bool, true, false, if◌then◌else◌}

-- `f64`, in which the geometry is computed, or `f32`, the type of radiances, with the operations of
-- Rust's standard library that the program uses. A theorem assumes no more than it names: an order of
-- numbers, or that the numbers it uses are finite.
pub record Floating : Type 1 where
  pub Num : Type 0
  -- the literal `m / 10 ^ d`
  pub literal : ℕ → ℕ → Num
  pub of_nat : ℕ → Num
  pub is_finite : Num → Bool
  pub eq : Num → Num → Bool
  pub fract : Num → Num
  pub lt : Num → Num → Bool
  pub le : Num → Num → Bool
  pub add : Num → Num → Num
  pub sub : Num → Num → Num
  pub mul : Num → Num → Num
  pub div : Num → Num → Num
  pub neg : Num → Num
  pub max : Num → Num → Num
  pub min : Num → Num → Num
  -- `x.floor() as u32` and `x.ceil() as usize`: a cast saturates, and stops at 0
  pub floor : Num → ℕ
  pub ceil : Num → ℕ
  pub to_radians : Num → Num
  pub to_degrees : Num → Num
  pub tan : Num → Num
  pub cos : Num → Num
  pub ln : Num → Num
  pub sinh : Num → Num
  pub atan : Num → Num
  pub pi : Num

-- `clamp`
abbrev pub clamp : (F : Floating) → F.Num → F.Num → F.Num → F.Num
clamp F x low high = if F.lt x low then low else if F.lt high x then high else x

-- On numbers that are not NaN the order is total, and `max` and `min` pick one of the two by it.
pub record IsOrdered (F : Floating) (IsNumber : F.Num → Type 0) : Type 0 where
  pub le_refl : (a : F.Num) → IsNumber a → F.le a a ≡ true
  pub lt_irrefl : (a : F.Num) → F.lt a a ≡ false
  pub le_trans : (a b c : F.Num) → F.le a b ≡ true → F.le b c ≡ true → F.le a c ≡ true
  pub lt_le_trans : (a b c : F.Num) → F.lt a b ≡ true → F.le b c ≡ true → F.lt a c ≡ true
  pub le_lt_trans : (a b c : F.Num) → F.le a b ≡ true → F.lt b c ≡ true → F.lt a c ≡ true
  pub le-max_left : (a b : F.Num) → IsNumber a → IsNumber b → F.le a (F.max a b) ≡ true
  pub le-max_right : (a b : F.Num) → IsNumber a → IsNumber b → F.le b (F.max a b) ≡ true
  pub max_pick : (a b : F.Num) → (F.max a b ≡ a) ⊎ (F.max a b ≡ b)
  pub min-le_left : (a b : F.Num) → IsNumber a → IsNumber b → F.le (F.min a b) a ≡ true
  pub min-le_right : (a b : F.Num) → IsNumber a → IsNumber b → F.le (F.min a b) b ≡ true
  pub min_pick : (a b : F.Num) → (F.min a b ≡ a) ⊎ (F.min a b ≡ b)
