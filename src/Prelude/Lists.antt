-- ===== src/Prelude/Lists.antt =====
-- Lists measured and filtered by native numbers and Boolean tests.
use Prim.Native.Nat.{ℕ, zero, suc, ◌+◌, ◌≤◌}
use mathlib.Core.Path.{◌≡◌, refl, ap}
use mathlib.Core.Bool.{Bool, true, false, ◌&&◌, ◌||◌}
use mathlib.Core.List.{List, [], ◌∷◌, ◌++◌}
use native.Mathlib.Omega.{arith}
use seasonal_weather.Prelude.Tests.{if◌then◌else◌}

module _ {ℓ} {A : Type ℓ} where
  abbrev pub length : List A → ℕ
  length [] = 0
  length (x ∷ xs) = suc (length xs)

  -- `xs[:n]`
  abbrev pub take : ℕ → List A → List A
  take zero xs = []
  take (suc n) [] = []
  take (suc n) (x ∷ xs) = x ∷ take n xs

  -- `xs[n:]`
  abbrev pub drop : ℕ → List A → List A
  drop zero xs = xs
  drop (suc n) [] = []
  drop (suc n) (x ∷ xs) = drop n xs

  abbrev pub replicate : ℕ → A → List A
  replicate zero a = []
  replicate (suc n) a = a ∷ replicate n a

  -- `[x for x in xs if p(x)]`
  abbrev pub keep : (A → Bool) → List A → List A
  keep p [] = []
  keep p (x ∷ xs) = let rest = keep p xs in if p x then x ∷ rest else rest

  -- `any(p(x) for x in xs)`
  abbrev pub any : (A → Bool) → List A → Bool
  any p [] = false
  any p (x ∷ xs) = p x || any p xs

  -- `bool(xs)`
  abbrev pub nonempty : List A → Bool
  nonempty [] = false
  nonempty (x ∷ xs) = true

  pub length-append : (xs ys : List A) → length (xs ++ ys) ≡ length xs + length ys
  length-append [] ys = omega arith
  length-append (x ∷ xs) ys = omega (arith, length-append xs ys)

  pub length-keep : (p : A → Bool) (xs : List A) → length (keep p xs) ≤ length xs
  length-keep p [] = omega arith
  length-keep p (x ∷ xs) = ground (arith, length-keep p xs)

  pub length-replicate : (n : ℕ) (a : A) → length (replicate n a) ≡ n
  length-replicate zero a = refl
  length-replicate (suc n) a = ground (arith, length-replicate n a)

module _ {ℓ κ} {A : Type ℓ} (P : A → Type κ) where
  abbrev pub All : List A → Type κ
  All [] = Unit
  All (x ∷ xs) = P x × All xs

  pub All-append : (xs ys : List A) → All xs → All ys → All (xs ++ ys)
  All-append [] ys _ hy = hy
  All-append (x ∷ xs) ys (px, hx) hy = (px, All-append xs ys hx hy)

  pub All-take : (n : ℕ) (xs : List A) → All xs → All (take n xs)
  All-take zero xs h = tt
  All-take (suc n) [] h = tt
  All-take (suc n) (x ∷ xs) (px, h) = (px, All-take n xs h)

  pub All-drop : (n : ℕ) (xs : List A) → All xs → All (drop n xs)
  All-drop zero xs h = h
  All-drop (suc n) [] h = h
  All-drop (suc n) (x ∷ xs) (px, h) = All-drop n xs h

-- what a filter keeps passes its test
pub All-keep {ℓ} : {A : Type ℓ} (p : A → Bool) (xs : List A) → All (λ x. p x ≡ true) (keep p xs)
All-keep p [] = tt
All-keep p (x ∷ xs) = ground (arith, All-keep p xs)

-- Of the items that pass `p`, those that pass `q` too are as many as those that pass `r` exactly if
-- every item that passes `r` passes `p`, where `r` says `q` and what `p` needs.
module _ {ℓ} {A : Type ℓ} (p q r : A → Bool)
    (needs : (x : A) → p x && q x ≡ true → r x ≡ true) where
  pub length-keep-keep-le : (xs : List A) → length (keep q (keep p xs)) ≤ length (keep r xs)
  length-keep-keep-le [] = omega arith
  length-keep-keep-le (x ∷ xs) = ground (arith, needs x, length-keep-keep-le xs)

  pub All-of-length-keep :
      ((x : A) → r x ≡ true → q x ≡ true)
      → (xs : List A) → length (keep r xs) ≤ length (keep q (keep p xs))
      → All (λ x. r x ≡ true → p x ≡ true) xs
  All-of-length-keep r_q [] h = tt
  All-of-length-keep r_q (x ∷ xs) h = (
    ground (arith, needs x, r_q x, length-keep-keep-le xs),
    All-of-length-keep r_q xs (ground (arith, needs x, r_q x, length-keep-keep-le xs)),
  )

  pub length-keep-of-All :
      ((x : A) → r x ≡ true → q x ≡ true)
      → (xs : List A) → All (λ x. r x ≡ true → p x ≡ true) xs
      → length (keep r xs) ≤ length (keep q (keep p xs))
  length-keep-of-All r_q [] h = omega arith
  length-keep-of-All r_q (x ∷ xs) (hx, h) = ground (arith, hx, r_q x, length-keep-of-All r_q xs h)

-- a filter finds something exactly if something passes
pub nonempty-keep {ℓ} : {A : Type ℓ} (p : A → Bool) (xs : List A) → nonempty (keep p xs) ≡ any p xs
nonempty-keep p [] = refl
nonempty-keep p (x ∷ xs) = ground (arith, nonempty-keep p xs)

pub nonempty-keep-keep {ℓ} :
    {A : Type ℓ} (p q : A → Bool) (xs : List A)
    → nonempty (keep q (keep p xs)) ≡ any (λ x. p x && q x) xs
nonempty-keep-keep p q [] = refl
nonempty-keep-keep p q (x ∷ xs) = ground (arith, nonempty-keep-keep p q xs)

pub nonempty-of-keep {ℓ} :
    {A : Type ℓ} (p : A → Bool) (xs : List A) → nonempty (keep p xs) ≡ true → nonempty xs ≡ true
nonempty-of-keep p [] h = h
nonempty-of-keep p (x ∷ xs) h = refl

pub keep_of_All {ℓ} :
    {A : Type ℓ} (p : A → Bool) (xs : List A) → All (λ x. p x ≡ true) xs → keep p xs ≡ xs
keep_of_All p [] h = refl
keep_of_All p (x ∷ xs) (hx, h) = rw hx (ap (λ r. x ∷ r) (keep_of_All p xs h))

pub length-take {ℓ} : {A : Type ℓ} (n : ℕ) (xs : List A) → n ≤ length xs → length (take n xs) ≡ n
length-take zero xs h = refl
length-take (suc n) [] h = absurd (omega arith)
length-take (suc n) (x ∷ xs) h = ap suc (length-take n xs (omega arith))

pub All-replicate {ℓ κ} :
    {A : Type ℓ} (P : A → Type κ) (n : ℕ) (a : A) → P a → All P (replicate n a)
All-replicate P zero a h = tt
All-replicate P (suc n) a h = (h, All-replicate P n a h)

pub any-keep {ℓ} :
    {A : Type ℓ} (p q : A → Bool) (xs : List A) → any q (keep p xs) ≡ any (λ x. p x && q x) xs
any-keep p q [] = refl
any-keep p q (x ∷ xs) = ground (arith, any-keep p q xs)

pub keep-keep {ℓ} : {A : Type ℓ} (p : A → Bool) (xs : List A) → keep p (keep p xs) ≡ keep p xs
keep-keep p xs = keep_of_All p (keep p xs) (All-keep p xs)
