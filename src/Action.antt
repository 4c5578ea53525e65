-- ===== src/Action.antt =====
-- Code that acts on a world and returns a value or an error, with `?` as bind.
use lumen_horizon.Prelude.{
  ◌≡◌, refl, Result, ok, err, List, [], ◌∷◌, All, Bool, true, false, if◌then◌else◌,
}

abbrev pub Action : Type 0 → Type 0 → Type 0 → Type 0
Action W E A = W → Result E A × W

module _ {W E A B : Type 0} where
  -- The code behind `?`
  abbrev pub then_do : (A → Action W E B) → Result E A × W → Result E B × W
  then_do next (ok a, w) = next a w
  then_do next (err e, w) = (err e, w)

  infixl 5 ◌>>=◌ ◌>>◌
  abbrev pub ◌>>=◌ : Action W E A → (A → Action W E B) → Action W E B
  (first >>= next) w = then_do next (first w)

  abbrev pub ◌>>◌ : Action W E A → Action W E B → Action W E B
  first >> next = first >>= λ _. next

module _ {W E A : Type 0} where
  abbrev pub return : A → Action W E A
  return a w = (ok a, w)

  abbrev pub throw : E → Action W E A
  throw e w = (err e, w)

  -- Whatever the action does, `P` stays true of the world.
  abbrev pub Preserves : (W → Type 0) → Action W E A → Type 0
  Preserves P action = (w : W) → P w → P (action w).1

module _ {W E A B : Type 0} (P : W → Type 0) where
  pub then_do-Preserves :
      (next : A → Action W E B)
      → ((a : A) → Preserves P (next a))
      → (r : Result E A × W) → P r.1
      → P (then_do next r).1
  then_do-Preserves next h (ok a, w) p = h a w p
  then_do-Preserves next h (err e, w) p = p

  pub bind-Preserves :
      (first : Action W E A) (next : A → Action W E B)
      → Preserves P first
      → ((a : A) → Preserves P (next a))
      → Preserves P (first >>= next)
  bind-Preserves first next f h w p = then_do-Preserves next h (first w) (f w p)

module _ {W E : Type 0} where
  -- A `Result` without an effect
  abbrev pub lift : {A : Type 0} → Result E A → Action W E A
  lift r w = (r, w)

  -- `for x in xs { body }`, where `?` in the body leaves the loop
  unfoldable pub for_each :
      {A : Type 0} → (A → Action W E (Unit {0})) → List A → Action W E (Unit {0})
  for_each body [] = return tt
  for_each body (x ∷ xs) = do body x; for_each body xs

  pub for_each-Preserves :
      {A : Type 0} (P : W → Type 0) (Q : A → Type 0) (body : A → Action W E (Unit {0}))
      → ((x : A) → Q x → Preserves P (body x))
      → (xs : List A) → All Q xs
      → Preserves P (for_each body xs)
  unfolding for_each
  for_each-Preserves P Q body h [] _ w p = p
  for_each-Preserves P Q body h (x ∷ xs) (q, qs) w p =
      then_do-Preserves P _ (λ _. for_each-Preserves P Q body h xs qs) (body x w) (h x q w p)

  pub branch-Preserves :
      {A : Type 0} (P : W → Type 0) (b : Bool) (f g : Action W E A)
      → Preserves P f
      → Preserves P g
      → Preserves P (if b then f else g)
  branch-Preserves P true f g p q = p
  branch-Preserves P false f g p q = q

module _ {W E A B : Type 0} (P : W → Type 0) where
  then_known :
      (next : A → Action W E B) (r : Result E A × W)
      → ((a : A) → r.0 ≡ ok a → P (next a r.1).1)
      → P r.1
      → P (then_do next r).1
  then_known next (ok a, w) h p = h a refl
  then_known next (err e, w) h p = p

  -- As `bind-Preserves`, with what the first action has returned at hand.
  pub bind_known-Preserves :
      (first : Action W E A) (next : A → Action W E B)
      → Preserves P first
      → ((a : A) (w : W) → (first w).0 ≡ ok a → P (first w).1 → P (next a (first w).1).1)
      → Preserves P (first >>= next)
  bind_known-Preserves first next f h w p =
      then_known next (first w) (λ a e. h a w e (f w p)) (f w p)

  -- The same, from one world.
  pub bind_at-Preserves :
      (first : Action W E A) (next : A → Action W E B) (w : W)
      → P (first w).1
      → ((a : A) → (first w).0 ≡ ok a → P (first w).1 → P (next a (first w).1).1)
      → P ((first >>= next) w).1
  bind_at-Preserves first next w p f = then_known next (first w) (λ a e. f a e p) p
