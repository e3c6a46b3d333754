-- ===== src/Same/Chunks.antt =====
-- The locations of an alert, cut into headers.
use seasonal_weather.Prelude.{
  ℕ, zero, suc, ◌≤◌, ◌<◌, ◌≡◌, refl, ap, true, List, [], ◌∷◌, ◌++◌, arith, if◌then◌else◌, length,
  take, drop, nonempty, All, Text, text_eq_iff, text_in,
}
use seasonal_weather.Same.{distinct, slices, sorted_locations, chunk_locations}

-- the locations of all chunks in turn
abbrev pub in_turn : List (List Text) → List Text
in_turn [] = []
in_turn (c ∷ cs) = c ++ in_turn cs

take-append-drop : (n : ℕ) (xs : List Text) → take n xs ++ drop n xs ≡ xs
take-append-drop zero xs = refl
take-append-drop (suc n) [] = refl
take-append-drop (suc n) (x ∷ xs) = ap (λ r. x ∷ r) (take-append-drop n xs)

length-take-le : (n : ℕ) (xs : List Text) → length (take n xs) ≤ n
length-take-le zero xs = omega arith
length-take-le (suc n) [] = omega arith
length-take-le (suc n) (x ∷ xs) = omega (arith, length-take-le n xs)

length-drop-le : (n : ℕ) (xs : List Text) → length (drop n xs) ≤ length xs
length-drop-le zero xs = omega arith
length-drop-le (suc n) [] = omega arith
length-drop-le (suc n) (x ∷ xs) = omega (arith, length-drop-le n xs)

in_turn-slices :
    (fuel k : ℕ) (xs : List Text) → length xs ≤ fuel → in_turn (slices fuel (suc k) xs) ≡ xs
unfolding slices
in_turn-slices zero k [] h = refl
in_turn-slices zero k (x ∷ xs) h = absurd (omega arith)
in_turn-slices (suc fuel) k [] h = refl
in_turn-slices (suc fuel) k (x ∷ xs) h =
    rw (in_turn-slices fuel k (drop k xs) (omega (arith, length-drop-le k xs)))
      (ap (λ r. x ∷ r) (take-append-drop k xs))

-- a chunk is neither empty nor too long
abbrev pub Fits : ℕ → List Text → Type 0
Fits k chunk = (0 < length chunk) × (length chunk ≤ k)

slices-Fits : (fuel k : ℕ) (xs : List Text) → All (Fits (suc k)) (slices fuel (suc k) xs)
unfolding slices
slices-Fits zero k xs = tt
slices-Fits (suc fuel) k [] = tt
slices-Fits (suc fuel) k (x ∷ xs) =
    ((omega arith, omega (arith, length-take-le k xs)), slices-Fits fuel k (drop k xs))

-- Where any location is left, the chunks, one after the other, are the sorted locations; none is empty
-- and none is longer than the limit, which is not 0.
pub chunk_locations_partition :
    (locs : List Text) (k : ℕ)
    → nonempty (sorted_locations locs) ≡ true
    → (in_turn (chunk_locations locs (suc k)) ≡ sorted_locations locs)
      × All (Fits (suc k)) (chunk_locations locs (suc k))
unfolding chunk_locations
chunk_locations_partition locs k = go (sorted_locations locs)
  where
    go :
        (xs : List Text)
        → nonempty xs ≡ true
        → (in_turn (if nonempty xs then slices (length xs) (suc k) xs else [] ∷ []) ≡ xs)
          × All (Fits (suc k)) (if nonempty xs then slices (length xs) (suc k) xs else [] ∷ [])
    go [] some_left = cc
    go (x ∷ xs) some_left = (
      in_turn-slices (length (x ∷ xs)) k (x ∷ xs) (omega arith),
      slices-Fits (length (x ∷ xs)) k (x ∷ xs),
    )

pub text_in-distinct : (t : Text) (xs : List Text) → text_in t (distinct xs) ≡ text_in t xs
unfolding distinct text_in
text_in-distinct t [] = refl
text_in-distinct t (x ∷ xs) =
    ground (arith, text_in-distinct t xs, text_in-distinct x xs, text_eq_iff x t)
