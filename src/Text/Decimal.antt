-- ===== src/Text/Decimal.antt =====
-- `Display` of an unsigned integer, and the `{:02}` form.
use mathlib.Core.List.{foldl, foldl-append}
use mathlib.Core.Path.{subst}
use lumen_horizon.Prelude.{
  ℕ, zero, suc, ◌+◌, ◌-◌, ◌*◌, ◌/◌, ◌%◌, ◌≤◌, ◌<◌, ◌≡◌, [], ◌∷◌, ◌++◌, arith, Text, All, All-append,
  ltb, if◌then◌else◌, Bool-cases, inl, inr, ◌∙◌, ap, sym,
}
use lumen_horizon.Text.Split.{Lacks}

-- The digits of `n`, with fuel above the count of its digits.
digits : ℕ → ℕ → Text
digits zero n = []
digits (suc f) n =
    let before = digits f (n / 10) in
    if ltb n 10 then (b'0' + n) ∷ [] else before ++ (b'0' + n % 10) ∷ []

unfoldable pub decimal : ℕ → Text
unfolding digits
decimal n = digits (suc n) n

-- `{:02}`
unfoldable pub two_digits : ℕ → Text
unfolding decimal
two_digits n = if ltb n 10 then b'0' ∷ decimal n else decimal n

-- Reading digits back, most significant first.
abbrev pub read : Text → ℕ
read = foldl (λ total digit. total * 10 + (digit - b'0')) 0

read-snoc : (s : Text) (c : ℕ) → read (s ++ c ∷ []) ≡ read s * 10 + (c - b'0')
read-snoc s c = foldl-append _ _ s (c ∷ [])

read-digits : (f n : ℕ) → n < f → read (digits f n) ≡ n
unfolding digits
read-digits zero n h = absurd (omega arith)
read-digits (suc f) n h = elim (Bool-cases (ltb n 10)) [
  | inl small ↦ rw small (omega arith)
  | inr large ↦
      rw
        (
          large,
          read-snoc (digits f (n / 10)) (b'0' + n % 10),
          read-digits f (n / 10) (ground arith),
        )
        (omega arith)
]

pub read-decimal : (n : ℕ) → read (decimal n) ≡ n
unfolding decimal
read-decimal n = read-digits (suc n) n (omega arith)

-- Two numbers that print alike are equal.
pub decimal_injective : (n m : ℕ) → decimal n ≡ decimal m → n ≡ m
decimal_injective n m e = sym (read-decimal n) ∙ ap read e ∙ read-decimal m

abbrev pub IsDecimal : ℕ → Type 0
IsDecimal digit = (b'0' ≤ digit) × (digit < b'0' + 10)

digits-All : (f n : ℕ) → All IsDecimal (digits f n)
unfolding digits
digits-All zero n = tt
digits-All (suc f) n = elim (Bool-cases (ltb n 10)) [
  | inl small ↦ rw small (ground arith)
  | inr large ↦
      rw large (All-append IsDecimal (digits f (n / 10)) _ (digits-All f (n / 10)) (omega arith))
]

digits-Lacks : (b : ℕ) (s : Text) → b < b'0' → All IsDecimal s → Lacks b s
digits-Lacks b [] h d = tt
digits-Lacks b (c ∷ s) h d = (ground arith, digits-Lacks b s h d.1)

-- A printed number has no separator below the digits, such as `/`, `.` or `-`.
pub decimal-Lacks : (b n : ℕ) → b < b'0' → Lacks b (decimal n)
unfolding decimal
decimal-Lacks b n h = digits-Lacks b (decimal n) h (digits-All (suc n) n)

digits_small : (f n : ℕ) → n < 10 → digits (suc f) n ≡ (b'0' + n) ∷ []
unfolding digits
digits_small f n h = ground arith

-- A number below a hundred has two digits in the padded form.
pub two_digits_lem : (n : ℕ) → n < 100 → two_digits n ≡ (b'0' + n / 10) ∷ (b'0' + n % 10) ∷ []
unfolding two_digits
two_digits_lem n h = elim (Bool-cases (ltb n 10)) [
  | inl small ↦
      let tens : n / 10 ≡ 0 = ground arith in
      let ones : n % 10 ≡ n = ground arith in rw (small, tens, ones)
  | inr large ↦ rw large (last_two (ground arith))
]
  where
    last_two :
        10 ≤ n → digits n (n / 10) ++ (b'0' + n % 10) ∷ [] ≡ (b'0' + n / 10) ∷ (b'0' + n % 10) ∷ []
    last_two ten =
        let e : n ≡ suc (n - 1) = omega arith in
        let g : digits n (n / 10) ≡ (b'0' + n / 10) ∷ [] =
          subst (λ k. digits k (n / 10) ≡ (b'0' + n / 10) ∷ []) (sym e)
            (digits_small (n - 1) (n / 10) (omega arith)) in
        ap (λ s. s ++ (b'0' + n % 10) ∷ []) g
