-- ===== src/Text/Split.antt =====
-- A text is split at a separator in one way only.
use lumen_horizon.Prelude.{ℕ, ◌≡◌, ◌≢◌, [], ◌∷◌, ◌++◌, arith, Text, All, false}
use lumen_horizon.Text.{contains, starts_with}

abbrev pub Lacks : ℕ → Text → Type 0
Lacks b = All (λ c. c ≢ b)

pub split_unique :
    (b : ℕ) (s s' t t' : Text)
    → Lacks b s
    → Lacks b s'
    → s ++ b ∷ t ≡ s' ++ b ∷ t'
    → (s ≡ s') × (t ≡ t')
split_unique b [] [] t t' l l' e = ground arith
split_unique b [] (c ∷ s') t t' l l' e = ground arith
split_unique b (c ∷ s) [] t t' l l' e = ground arith
split_unique b (c ∷ s) (c' ∷ s') t t' l l' e =
    let (p, q) = split_unique b s s' t t' l.1 l'.1 (ground arith) in (ground arith, q)

pub contains-Lacks : (b : ℕ) (s : Text) → contains (b ∷ []) s ≡ false → Lacks b s
unfolding contains starts_with
contains-Lacks b [] h = tt
contains-Lacks b (c ∷ s) h = (ground arith, contains-Lacks b s (ground arith))
