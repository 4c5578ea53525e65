-- ===== src/Ingest/Columns.antt =====
-- What the SQL clauses do to the rows of a table: unique columns, and conditions on every row.
use lumen_horizon.Prelude.{
  ℕ, leb, Bool, true, false, ◌&&◌, ◌||◌, any, List, [], ◌∷◌, ◌++◌, if◌then◌else◌, All, ◌≡◌, refl,
  ap, sym, ◌∙◌, zero, suc, inl, inr, Bool-cases,
}
use lumen_horizon.Ingest.Tables.{update_where, select_where, find_first, insert_by, order_by, take}
use mathlib.Core.Option.{none, some}

pub false_right : (b : Bool) → (b && false) ≡ false
false_right true = refl
false_right false = refl

pub or_false-left : (b c : Bool) → (b || c) ≡ false → b ≡ false
or_false-left true c h = h
or_false-left false c h = refl

pub or_false-right : (b c : Bool) → (b || c) ≡ false → c ≡ false
or_false-right true c h = cc
or_false-right false c h = h

or_true-right : (b c : Bool) → c ≡ true → (b || c) ≡ true
or_true-right true c h = refl
or_true-right false c h = h

pub or_false-both : (b c : Bool) → b ≡ false → c ≡ false → (b || c) ≡ false
or_false-both b c hb hc = ap (λ x. x || c) hb ∙ hc

module _ {A : Type 0} where
  -- No two rows are the same for `same`.
  abbrev pub IsUnique : (A → A → Bool) → List A → Type 0
  IsUnique same [] = Unit {0}
  IsUnique same (x ∷ xs) = (any (λ y. same y x) xs ≡ false) × IsUnique same xs

  -- What `update_where` makes of one row
  abbrev pub updated : (A → Bool) → (A → A) → A → A
  updated p f x = if p x then f x else x

  any_append :
      (q : A → Bool) (xs : List A) (x : A)
      → any q xs ≡ false
      → q x ≡ false
      → any q (xs ++ x ∷ []) ≡ false
  any_append q [] x _ h = or_false-both (q x) false h refl
  any_append q (y ∷ ys) x hs h =
      or_false-both (q y) _ (or_false-left (q y) _ hs)
        (any_append q ys x (or_false-right (q y) _ hs) h)

  -- A row that is the same as none before is appended.
  pub append-IsUnique :
      (same : A → A → Bool) (xs : List A) (x : A)
      → IsUnique same xs
      → any (same x) xs ≡ false
      → IsUnique same (xs ++ x ∷ [])
  append-IsUnique same [] x _ _ = (refl, tt)
  append-IsUnique same (y ∷ ys) x (u, us) h = (
    any_append (λ z. same z y) ys x u (or_false-left (same x y) _ h),
    append-IsUnique same ys x us (or_false-right (same x y) _ h),
  )

  any_update :
      (p : A → Bool) (f : A → A) (q r : A → Bool)
      → ((y : A) → q y ≡ false → r (updated p f y) ≡ false)
      → (xs : List A) → any q xs ≡ false
      → any r (update_where p f xs) ≡ false
  any_update p f q r h [] _ = refl
  any_update p f q r h (x ∷ xs) e =
      or_false-both (r (updated p f x)) _ (h x (or_false-left (q x) _ e))
        (any_update p f q r h xs (or_false-right (q x) _ e))

  update-IsUnique :
      (same : A → A → Bool) (p : A → Bool) (f : A → A)
      → ((x y : A) → same y x ≡ false → same (updated p f y) (updated p f x) ≡ false)
      → (xs : List A) → IsUnique same xs
      → IsUnique same (update_where p f xs)
  update-IsUnique same p f h [] _ = tt
  update-IsUnique same p f h (x ∷ xs) (u, us) = (
    any_update p f (λ y. same y x) (λ y. same y (updated p f x)) (h x) xs u,
    update-IsUnique same p f h xs us,
  )

  -- A condition of one row, kept by `f`, is kept whether the row is updated or not.
  pub updated_kept :
      (P : A → Type 0) (p : A → Bool) (f : A → A) (x : A) → P x → P (f x) → P (updated p f x)
  updated_kept P p f x h k = elim (Bool-cases (p x)) [ inl e ↦ rw e k | inr e ↦ rw e h ]

  -- An update that makes no two rows the same keeps them apart.
  pub update_where-IsUnique :
      (same : A → A → Bool) (p : A → Bool) (f : A → A)
      → ((x y : A) → same y x ≡ false → same (f y) x ≡ false)
      → ((x y : A) → same y x ≡ false → same y (f x) ≡ false)
      → (xs : List A) → IsUnique same xs
      → IsUnique same (update_where p f xs)
  update_where-IsUnique same p f left right = update-IsUnique same p f (λ x y h.
      updated_kept (λ z. same z (updated p f x) ≡ false) p f y
        (updated_kept (λ z. same y z ≡ false) p f x h (right x y h))
        (updated_kept (λ z. same (f y) z ≡ false) p f x (left x y h) (right x (f y) (left x y h))))

  pub update_where-All :
      (P : A → Type 0) (p : A → Bool) (f : A → A)
      → ((x : A) → P x → P (f x))
      → (xs : List A) → All P xs
      → All P (update_where p f xs)
  update_where-All P p f h [] _ = tt
  update_where-All P p f h (x ∷ xs) (q, qs) =
      (updated_kept P p f x q (h x q), update_where-All P p f h xs qs)

  pub any-update_where :
      (p : A → Bool) (f : A → A) (q : A → Bool)
      → ((x : A) → q (f x) ≡ q x)
      → (xs : List A) → any q (update_where p f xs) ≡ any q xs
  any-update_where p f q h [] = refl
  any-update_where p f q h (x ∷ xs) =
      ap (λ b. b || any q (update_where p f xs)) (updated_kept (λ z. q z ≡ q x) p f x refl (h x))
      ∙ ap (λ b. q x || b) (any-update_where p f q h xs)

  -- What is found is there.
  pub find_first-any :
      (p q : A → Bool) (xs : List A) {x : A}
      → find_first p xs ≡ some x
      → (p x ≡ true → q x ≡ true)
      → any q xs ≡ true
  find_first-any p q [] h k = cc
  find_first-any p q (y ∷ ys) {x} h k = elim (Bool-cases (p y)) [
    | inl e ↦
        let same : some y ≡ some x = rw e at h in
        let here : y ≡ x = ap (λ o. elim o [ some z ↦ z | none ↦ y ]) same in
        ap (λ b. b || any q ys) (ap q here ∙ k (sym (ap p here) ∙ e))
    | inr e ↦ or_true-right (q y) _ (find_first-any p q ys (rw e at h) k)
  ]

  pub any_append_true : (q : A → Bool) (xs ys : List A) → any q xs ≡ true → any q (xs ++ ys) ≡ true
  any_append_true q [] ys h = cc
  any_append_true q (x ∷ xs) ys h = elim (Bool-cases (q x)) [
    | inl e ↦ ap (λ b. b || any q (xs ++ ys)) e
    | inr e ↦
        ap (λ b. b || any q (xs ++ ys)) e
        ∙ any_append_true q xs ys (sym (ap (λ b. b || any q xs) e) ∙ h)
  ]

  pub find_first-none : (q : A → Bool) (xs : List A) → find_first q xs ≡ none → any q xs ≡ false
  find_first-none q [] h = refl
  find_first-none q (x ∷ xs) h = elim (Bool-cases (q x)) [
    | inl e ↦ cc
    | inr e ↦
        or_false-both (q x) _ e
          (find_first-none q xs (sym (ap (λ b. if b then some x else find_first q xs) e) ∙ h))
  ]

  pub select_where-All :
      (P : A → Type 0) (p : A → Bool) (xs : List A)
      → All (λ x. p x ≡ true → P x) xs
      → All P (select_where p xs)
  select_where-All P p [] _ = tt
  select_where-All P p (x ∷ xs) (h, hs) = elim (Bool-cases (p x)) [
    | inl e ↦ rw e (h e, select_where-All P p xs hs)
    | inr e ↦ rw e (select_where-All P p xs hs)
  ]

  insert_by-All :
      (P : A → Type 0) (key : A → ℕ) (x : A) (xs : List A)
      → P x
      → All P xs
      → All P (insert_by key x xs)
  insert_by-All P key x [] h _ = (h, tt)
  insert_by-All P key x (y ∷ ys) h (hy, hs) = elim (Bool-cases (leb (key x) (key y))) [
    | inl e ↦ rw e (h, (hy, hs))
    | inr e ↦ rw e (hy, insert_by-All P key x ys h hs)
  ]

  pub order_by-All :
      (P : A → Type 0) (key : A → ℕ) (xs : List A) → All P xs → All P (order_by key xs)
  order_by-All P key [] _ = tt
  order_by-All P key (x ∷ xs) (h, hs) =
      insert_by-All P key x (order_by key xs) h (order_by-All P key xs hs)

  pub take-All : (P : A → Type 0) (n : ℕ) (xs : List A) → All P xs → All P (take n xs)
  take-All P zero xs _ = tt
  take-All P (suc n) [] _ = tt
  take-All P (suc n) (x ∷ xs) (h, hs) = (h, take-All P n xs hs)

  pub All-of : {P : A → Type 0} → ((a : A) → P a) → (xs : List A) → All P xs
  All-of f [] = tt
  All-of f (x ∷ xs) = (f x, All-of f xs)

  pub All-weaken : {P Q : A → Type 0} → ((a : A) → P a → Q a) → (xs : List A) → All P xs → All Q xs
  All-weaken f [] _ = tt
  All-weaken f (x ∷ xs) (p, ps) = (f x p, All-weaken f xs ps)

  find_hit : (q : A → Bool) (x : A) (xs : List A) → q x ≡ true → find_first q (x ∷ xs) ≡ some x
  find_hit q x xs e = rw e refl

  pub find_skip :
      (q : A → Bool) (x : A) (xs : List A) → q x ≡ false → find_first q (x ∷ xs) ≡ find_first q xs
  find_skip q x xs e = rw e refl

  pub find_head :
      (q : A → Bool) (x r : A) (xs : List A) → q x ≡ true → find_first q (x ∷ xs) ≡ some r → x ≡ r
  find_head q x r xs e h = ap (λ o. elim o [ some a ↦ a | none ↦ x ]) (sym (find_hit q x xs e) ∙ h)

  -- An update that passes over the row that `q` finds
  pub find_update :
      (q p : A → Bool) (f : A → A) (r : A)
      → ((x : A) → q (f x) ≡ q x)
      → p r ≡ false
      → (xs : List A) → find_first q xs ≡ some r
      → find_first q (update_where p f xs) ≡ some r
  find_update q p f r kept other [] h = h
  find_update q p f r kept other (x ∷ xs) h = elim (Bool-cases (q x)) [
    | inl e ↦
        rw (ap p (find_head q x r xs e h) ∙ other)
          (find_hit q x (update_where p f xs) e ∙ ap some (find_head q x r xs e h))
    | inr e ↦
        find_skip q (updated p f x) (update_where p f xs)
          (updated_kept (λ z. q z ≡ q x) p f x refl (kept x) ∙ e)
        ∙ find_update q p f r kept other xs (sym (find_skip q x xs e) ∙ h)
  ]

  pub any_find :
      (q p : A → Bool) (xs : List A) (r : A)
      → any p xs ≡ false
      → find_first q xs ≡ some r
      → p r ≡ false
  any_find q p [] r _ h = cc
  any_find q p (x ∷ xs) r none_of h = elim (Bool-cases (q x)) [
    | inl e ↦ sym (ap p (find_head q x r xs e h)) ∙ or_false-left (p x) _ none_of
    | inr e ↦ any_find q p xs r (or_false-right (p x) _ none_of) (sym (find_skip q x xs e) ∙ h)
  ]

  pub find_append :
      (q : A → Bool) (xs ys : List A) (r : A)
      → find_first q xs ≡ some r
      → find_first q (xs ++ ys) ≡ some r
  find_append q [] ys r h = cc
  find_append q (x ∷ xs) ys r h = elim (Bool-cases (q x)) [
    | inl e ↦ find_hit q x (xs ++ ys) e ∙ sym (find_hit q x xs e) ∙ h
    | inr e ↦ find_skip q x (xs ++ ys) e ∙ find_append q xs ys r (sym (find_skip q x xs e) ∙ h)
  ]

  pub any_append_last :
      (q : A → Bool) (xs : List A) (x : A) → q x ≡ true → any q (xs ++ x ∷ []) ≡ true
  any_append_last q [] x h = ap (λ b. b || false) h
  any_append_last q (y ∷ ys) x h = or_true-right (q y) _ (any_append_last q ys x h)
