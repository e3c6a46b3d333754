-- ===== src/Prelude/Sort.antt =====
-- `list.sort`: a stable sort by a total order test, here by insertion.
use mathlib.Core.Path.{◌≡◌, refl, ◌∙◌}
use mathlib.Core.Logic.{inl, inr}
use mathlib.Core.Bool.{Bool, true, false, ◌||◌}
use seasonal_weather.Prelude.Lists.{any}
use mathlib.Core.List.{List, [], ◌∷◌, Perm}
use mathlib.Core.List.Perm
use native.Mathlib.Omega.{arith}
use seasonal_weather.Prelude.Tests.{if◌then◌else◌, Bool-cases}

module _ {ℓ} {A : Type ℓ} where
  insert_by : (A → A → Bool) → A → List A → List A
  insert_by le x [] = x ∷ []
  insert_by le x (y ∷ ys) = if le x y then x ∷ y ∷ ys else y ∷ insert_by le x ys

  unfoldable pub sort_by : (A → A → Bool) → List A → List A
  unfolding insert_by
  sort_by le [] = []
  sort_by le (x ∷ xs) = insert_by le x (sort_by le xs)

  abbrev pub SortedBy : (A → A → Bool) → List A → Type ℓ
  SortedBy le [] = Unit
  SortedBy le (x ∷ []) = Unit
  SortedBy le (x ∷ y ∷ ys) = (le x y ≡ true) × SortedBy le (y ∷ ys)

  insert_by-perm : (le : A → A → Bool) (x : A) (xs : List A) → Perm (insert_by le x xs) (x ∷ xs)
  unfolding insert_by
  insert_by-perm le x [] = Perm.refl (x ∷ [])
  insert_by-perm le x (y ∷ ys) = elim (Bool-cases (le x y)) [
    | inl first ↦ rw first (Perm.refl (x ∷ y ∷ ys))
    | inr later ↦ rw later (Perm.trans (Perm.cons y (insert_by-perm le x ys)) (Perm.swap x y ys))
  ]

  pub sort_by-perm : (le : A → A → Bool) (xs : List A) → Perm (sort_by le xs) xs
  unfolding sort_by
  sort_by-perm le [] = Perm.refl []
  sort_by-perm le (x ∷ xs) =
      Perm.trans (insert_by-perm le x (sort_by le xs)) (Perm.cons x (sort_by-perm le xs))

  module _ (le : A → A → Bool) (total : (x y : A) → le x y ≡ false → le y x ≡ true) where
    insert_by-SortedBy : (x : A) (xs : List A) → SortedBy le xs → SortedBy le (insert_by le x xs)
    unfolding insert_by
    insert_by-SortedBy x [] h = tt
    insert_by-SortedBy x (y ∷ []) h = ground (arith, total x y)
    insert_by-SortedBy x (y ∷ z ∷ zs) h =
        ground (arith, total x y, insert_by-SortedBy x (z ∷ zs) h.1)

    pub sort_by-SortedBy : (xs : List A) → SortedBy le (sort_by le xs)
    unfolding sort_by
    sort_by-SortedBy [] = tt
    sort_by-SortedBy (x ∷ xs) = insert_by-SortedBy x (sort_by le xs) (sort_by-SortedBy xs)

module _ {ℓ} {A : Type ℓ} (le : A → A → Bool) (p : A → Bool) where
  any-insert_by : (x : A) (xs : List A) → any p (insert_by le x xs) ≡ (p x || any p xs)
  unfolding insert_by
  any-insert_by x [] = refl
  any-insert_by x (y ∷ ys) = ground (arith, any-insert_by x ys)

  -- sorting loses nothing and adds nothing
  pub any-sort_by : (xs : List A) → any p (sort_by le xs) ≡ any p xs
  unfolding sort_by
  any-sort_by [] = refl
  any-sort_by (x ∷ xs) = ground (arith, any-insert_by x (sort_by le xs), any-sort_by xs)

-- no two members are the same in the sense of a test
module _ {ℓ} {A : Type ℓ} (same : A → A → Bool) where
  abbrev pub DifferBy : List A → Type 0
  DifferBy [] = Unit
  DifferBy (x ∷ xs) = (any (same x) xs ≡ false) × DifferBy xs

  module _ (le : A → A → Bool) (sym_differ : (x y : A) → same x y ≡ false → same y x ≡ false) where
    insert_by-DifferBy :
        (x : A) (xs : List A) → any (same x) xs ≡ false → DifferBy xs → DifferBy (insert_by le x xs)
    unfolding insert_by
    insert_by-DifferBy x [] h d = (refl, tt)
    insert_by-DifferBy x (y ∷ ys) h d = ground (
      arith,
      h,
      d.0,
      d.1,
      sym_differ x y,
      any-insert_by le (same y) x ys,
      insert_by-DifferBy x ys (ground (arith, h)) d.1,
    )

    pub sort_by-DifferBy : (xs : List A) → DifferBy xs → DifferBy (sort_by le xs)
    unfolding sort_by
    sort_by-DifferBy [] d = tt
    sort_by-DifferBy (x ∷ xs) (fresh, d) =
        insert_by-DifferBy x (sort_by le xs) (any-sort_by le (same x) xs ∙ fresh)
          (sort_by-DifferBy xs d)

pub SortedBy-mono {ℓ} :
    {A : Type ℓ} (le weak : A → A → Bool)
    → ((x y : A) → le x y ≡ true → weak x y ≡ true)
    → (xs : List A) → SortedBy le xs
    → SortedBy weak xs
SortedBy-mono le weak imp [] h = tt
SortedBy-mono le weak imp (x ∷ []) h = tt
SortedBy-mono le weak imp (x ∷ y ∷ ys) (hx, h) = (imp x y hx, SortedBy-mono le weak imp (y ∷ ys) h)
