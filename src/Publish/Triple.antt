-- ===== src/Publish/Triple.antt =====
-- What an action establishes: from worlds with `P`, a value leaves a world with `Q`, an error one with `X`.
use lumen_horizon.Prelude.{Result, ok, err, List, [], ◌∷◌, All, ◌≡◌, refl}
use lumen_horizon.Action.{Action, Preserves, then_do, ◌>>=◌, for_each, for_each-Preserves, lift}

module _ {W E : Type 0} (X : W → Type 0) where
  abbrev pub Outcome : {A : Type 0} → (A → W → Type 0) → Result E A × W → Type 0
  Outcome Q (ok a, w) = Q a w
  Outcome Q (err e, w) = X w

  abbrev pub Triple : {A : Type 0} → (W → Type 0) → Action W E A → (A → W → Type 0) → Type 0
  Triple P action Q = (w : W) → P w → Outcome Q (action w)

  module _ {A B : Type 0} (Q : A → W → Type 0) (T : B → W → Type 0) where
    then_do-Outcome :
        (next : A → Action W E B)
        → ((a : A) → Triple (Q a) (next a) T)
        → (r : Result E A × W) → Outcome Q r
        → Outcome T (then_do next r)
    then_do-Outcome next h (ok a, w) q = h a w q
    then_do-Outcome next h (err e, w) x = x

    pub bind-Triple :
        (P : W → Type 0) (first : Action W E A) (next : A → Action W E B)
        → Triple P first Q
        → ((a : A) → Triple (Q a) (next a) T)
        → Triple P (first >>= next) T
    bind-Triple P first next f h w p = then_do-Outcome next h (first w) (f w p)

  pub weaken :
      {A : Type 0} (Q T : A → W → Type 0)
      → ((a : A) (w : W) → Q a w → T a w)
      → (r : Result E A × W) → Outcome Q r
      → Outcome T r
  weaken Q T f (ok a, w) q = f a w q
  weaken Q T f (err e, w) x = x

  pub lift-Triple :
      {A : Type 0} (P : W → Type 0) (r : Result E A)
      → ((w : W) → P w → X w)
      → (Q : A → W → Type 0) → ((a : A) (w : W) → r ≡ ok a → P w → Q a w)
      → Triple P (lift r) Q
  lift-Triple P (ok a) x Q q w p = q a w refl p
  lift-Triple P (err e) x Q q w p = x w p

  module _ {A : Type 0} (P : W → Type 0) (D : A → W → Type 0)
      (body : A → Action W E (Unit {0})) where
    both :
        (x : A) (xs : List A) (r : Result E (Unit {0}) × W)
        → Outcome (λ u w. P w × All (λ y. D y w) xs) r
        → D x r.1
        → Outcome (λ u w. P w × All (λ y. D y w) (x ∷ xs)) r
    both x xs (ok u, w) (p, ds) d = (p, (d, ds))
    both x xs (err e, w) q d = q

    after_first :
        (x : A) (xs : List A)
        → Triple P (for_each body xs) (λ u w. P w × All (λ y. D y w) xs)
        → Preserves (D x) (for_each body xs)
        → (r : Result E (Unit {0}) × W) → Outcome (λ u w. P w × D x w) r
        → Outcome (λ u w. P w × All (λ y. D y w) (x ∷ xs)) (then_do (λ u. for_each body xs) r)
    after_first x xs h k (ok u, w) (p, d) = both x xs (for_each body xs w) (h w p) (k w d)
    after_first x xs h k (err e, w) q = q

    -- What the body establishes for each element, and keeps for the others, holds for all of them in
    -- the end. Of an element, `M` may be assumed.
    pub for_each-Triple :
        (M : A → Type 0)
        → ((x : A) → M x → Triple P (body x) (λ u w. P w × D x w))
        → ((x y : A) → M x → M y → Preserves (D y) (body x))
        → (xs : List A) → All M xs
        → Triple P (for_each body xs) (λ u w. P w × All (λ y. D y w) xs)
    unfolding for_each
    for_each-Triple M h keep [] _ w p = (p, tt)
    for_each-Triple M h keep (x ∷ xs) (m, ms) w p =
        after_first x xs (for_each-Triple M h keep xs ms)
          (for_each-Preserves (D x) M body (λ y n. keep y x n m) xs ms) (body x w) (h x m w p)
