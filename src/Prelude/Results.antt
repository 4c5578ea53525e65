-- ===== src/Prelude/Results.antt =====
-- Rust's `Result<T, E>`, with the `?` operator as bind.
use mathlib.Core.Path.{◌≡◌, refl}
use mathlib.Core.Logic.{◌⊎◌, inl, inr}

pub data Result {ℓ κ} (E : Type κ) (T : Type ℓ) : Type (ℓ ⊔ κ) where
  ok : T → Result E T
  err : E → Result E T

module _ {ℓ} {E T U : Type ℓ} where
  infixl 5 ◌>>=◌ ◌>>◌
  abbrev pub ◌>>=◌ : Result E T → (T → Result E U) → Result E U
  err e >>= next = err e
  ok value >>= next = next value

  abbrev pub ◌>>◌ : Result E T → Result E U → Result E U
  first >> second = first >>= λ _. second

  -- What `?` tells of the code before it, where the code behind it has returned a value.
  pub bind_elim :
      (first : Result E T) (next : T → Result E U) {u : U}
      → (first >>= next) ≡ ok u
      → (value : T) × (first ≡ ok value) × (next value ≡ ok u)
  bind_elim (err e) next done = cc
  bind_elim (ok value) next done = (value, refl, done)

pub ok_injective {ℓ} : {E T : Type ℓ} {t u : T} → (let r : Result E T = ok t in r) ≡ ok u → t ≡ u
ok_injective h = cc

pub Result-cases {ℓ κ} :
    {E : Type ℓ} {T : Type κ} (r : Result E T) → ((e : E) × (r ≡ err e)) ⊎ ((t : T) × (r ≡ ok t))
Result-cases (err e) = inl (e, refl)
Result-cases (ok t) = inr (t, refl)

module _ {ℓ} {E T U : Type ℓ} where
  pub bind_cong :
      (r : Result E T) (f g : T → Result E U) → ((t : T) → f t ≡ g t) → (r >>= f) ≡ (r >>= g)
  bind_cong (ok t) f g h = h t
  bind_cong (err e) f g h = refl

pub bind_assoc {ℓ} :
    {E T U V : Type ℓ} (r : Result E T) (f : T → Result E U) (g : U → Result E V)
    → ((r >>= f) >>= g) ≡ (r >>= λ t. f t >>= g)
bind_assoc (ok t) f g = refl
bind_assoc (err e) f g = refl
