-- ===== src/Float/Fixed.antt =====
-- A fixed-point instance of the interface, with eight digits after the point, for runs and
-- examples. The transcendental functions are linear here.
use lumen_horizon.Prelude.{
  ℕ, ◌+◌, ◌-◌, ◌*◌, ◌/◌, ◌^◌, ◌%◌, ◌&&◌, leb, if◌then◌else◌, Bool, not, ◌≡◌, ◌⊎◌, true, refl, inl,
  inr, Bool-cases, arith,
}
use lumen_horizon.Prelude.Int.{ℤ, pos, negsuc, pos_part, neg_part, sub_ℕ, ltb_ℤ}
use lumen_horizon.Float.{Floating, IsOrdered}

abbrev unit : ℕ
unit = 10 ^ 8

-- The number with this sign and absolute value.
abbrev signed : Bool → ℕ → ℤ
signed negative n = if negative then sub_ℕ 0 n else pos n

abbrev is_negative : ℤ → Bool
is_negative (pos n) = Bool.false
is_negative (negsuc n) = Bool.true

abbrev size : ℤ → ℕ
size a = pos_part a + neg_part a

abbrev differ : Bool → Bool → Bool
differ a b = if a then not b else b

abbrev le_ℤ : ℤ → ℤ → Bool
le_ℤ a b = leb (pos_part a + neg_part b) (pos_part b + neg_part a)

abbrev add_ℤ : ℤ → ℤ → ℤ
add_ℤ a b = sub_ℕ (pos_part a + pos_part b) (neg_part a + neg_part b)

abbrev neg_ℤ : ℤ → ℤ
neg_ℤ a = sub_ℕ (neg_part a) (pos_part a)

abbrev mul_ℤ : ℤ → ℤ → ℤ
mul_ℤ a b = signed (differ (is_negative a) (is_negative b)) (size a * size b / unit)

abbrev div_ℤ : ℤ → ℤ → ℤ
div_ℤ a b = signed (differ (is_negative a) (is_negative b)) (size a * unit / size b)

abbrev pub fixed : Floating
fixed = record {
  Num = ℤ;
  literal = λ m d. pos (m * unit / 10 ^ d);
  of_nat = λ n. pos (n * unit);
  is_finite = λ a. Bool.true;
  eq = λ a b. le_ℤ a b && le_ℤ b a;
  fract = λ a. signed (is_negative a) (size a % unit);
  lt = ltb_ℤ;
  le = le_ℤ;
  add = add_ℤ;
  sub = λ a b. add_ℤ a (neg_ℤ b);
  mul = mul_ℤ;
  div = div_ℤ;
  neg = neg_ℤ;
  max = λ a b. if le_ℤ a b then b else a;
  min = λ a b. if le_ℤ a b then a else b;
  floor = λ a. pos_part a / unit;
  ceil = λ a. (pos_part a + unit - 1) / unit;
  to_radians = λ a. a;
  to_degrees = λ a. a;
  tan = λ a. a;
  cos = λ a. pos unit;
  ln = λ a. a;
  sinh = λ a. a;
  atan = λ a. a;
  pi = pos 314_159_265;
}

le_ℤ-max_pick : (a b : ℤ) → ((if le_ℤ a b then b else a) ≡ a) ⊎ ((if le_ℤ a b then b else a) ≡ b)
le_ℤ-max_pick a b = elim (Bool-cases (le_ℤ a b)) [
  | inl h ↦ inr (rw h refl)
  | inr h ↦ inl (rw h refl)
]

le_ℤ-min_pick : (a b : ℤ) → ((if le_ℤ a b then a else b) ≡ a) ⊎ ((if le_ℤ a b then a else b) ≡ b)
le_ℤ-min_pick a b = elim (Bool-cases (le_ℤ a b)) [
  | inl h ↦ inl (rw h refl)
  | inr h ↦ inr (rw h refl)
]

le_ℤ-max :
    (a b : ℤ)
    → (le_ℤ a (if le_ℤ a b then b else a) ≡ true) × (le_ℤ b (if le_ℤ a b then b else a) ≡ true)
le_ℤ-max a b = elim (Bool-cases (le_ℤ a b)) [
  | inl h ↦ rw h (ground arith, ground arith)
  | inr h ↦ rw h (ground arith, ground arith)
]

le_ℤ-min :
    (a b : ℤ)
    → (le_ℤ (if le_ℤ a b then a else b) a ≡ true) × (le_ℤ (if le_ℤ a b then a else b) b ≡ true)
le_ℤ-min a b = elim (Bool-cases (le_ℤ a b)) [
  | inl h ↦ rw h (ground arith, ground arith)
  | inr h ↦ rw h (ground arith, ground arith)
]

-- Every fixed-point number is in order.
abbrev pub Every : ℤ → Type 0
Every a = Unit

pub fixed-IsOrdered : IsOrdered fixed Every
fixed-IsOrdered = record {
  le_refl = λ a _. ground arith;
  lt_irrefl = λ a. ground arith;
  le_trans = λ a b c h k. ground arith;
  lt_le_trans = λ a b c h k. ground arith;
  le_lt_trans = λ a b c h k. ground arith;
  le-max_left = λ a b _ _. (le_ℤ-max a b).0;
  le-max_right = λ a b _ _. (le_ℤ-max a b).1;
  max_pick = le_ℤ-max_pick;
  min-le_left = λ a b _ _. (le_ℤ-min a b).0;
  min-le_right = λ a b _ _. (le_ℤ-min a b).1;
  min_pick = le_ℤ-min_pick;
}
