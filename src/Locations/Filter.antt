-- ===== src/Locations/Filter.antt =====
-- What the service-area filter lets through.
use seasonal_weather.Prelude.{
  Distinct, ◌≡◌, refl, sym, ◌∙◌, Bool, true, false, not, ◌&&◌, Option, none, some, List, [], ◌∷◌,
  arith, any, nonempty, All, All-keep, keep_of_All, Text, text_eq, text_eq_iff, text_in, is_digit,
  strip_digits, Option-cases, inl, inr, strip,
}
use seasonal_weather.Locations.{
  digits_of, normalize_same_location, AllowSet, set_of, normalized_allow,
  same_location_matches_service_area, same_locations_intersect_service_area, filter_from,
  filter_same_locations_to_service_area, matches_normalized, service_area_has_state,
}

digits_of_digits : (s : Text) → All (λ c. is_digit c ≡ true) s → digits_of s ≡ s
unfolding digits_of
digits_of_digits s h = rw (strip_digits s h) (keep_of_All is_digit s h)

-- A normalized code is its own normal form.
pub normalize_twice :
    (value : Option Text) {code : Text}
    → normalize_same_location value ≡ some code
    → normalize_same_location (some code) ≡ some code
unfolding normalize_same_location
normalize_twice none h = cc
normalize_twice (some value) {code} h = ground (
  arith,
  digits_of_digits (digits_of value) (unfold digits_of in All-keep is_digit (strip value)),
)

text_in_self : (c : Text) (seen : List Text) → text_in c (c ∷ seen) ≡ true
unfolding text_in
text_in_self c seen = ground (arith, text_eq_iff c c)

-- `code` is the normal form of one of the values
abbrev pub received : Text → List (Option Text) → Bool
received code =
    any (λ raw. elim (normalize_same_location raw) [ none ↦ false | some c ↦ text_eq c code ])

module _ (statewide : Bool) (allow : List Text) where
  abbrev matches : Option Text → Bool
  matches = same_location_matches_service_area statewide (set_of allow)

  matches-normalize :
      (raw : Option Text) {code : Text}
      → normalize_same_location raw ≡ some code
      → matches (some code) ≡ matches raw
  unfolding same_location_matches_service_area
  matches-normalize raw {code} e = ground (arith, normalize_twice raw e)

  matches-none : (raw : Option Text) → normalize_same_location raw ≡ none → matches raw ≡ false
  unfolding same_location_matches_service_area
  matches-none raw e = ground arith

  text_in-filter_from :
      (code : Text) (codes : List (Option Text)) (seen : List Text)
      → text_in code (filter_from statewide allow codes seen)
        ≡ (received code codes && (matches (some code) && not (text_in code seen)))
  unfolding filter_from text_in
  text_in-filter_from code [] seen = refl
  text_in-filter_from code (raw ∷ rest) seen = elim (Option-cases (normalize_same_location raw)) [
    | inl bad ↦ ground (arith, bad, text_in-filter_from code rest seen)
    | inr (c, e) ↦ ground (
      arith,
      e,
      text_eq_iff c code,
      text_in-filter_from code rest seen,
      text_in-filter_from code rest (c ∷ seen),
    )
  ]

  nonempty-filter_from :
      (codes : List (Option Text))
      → nonempty (filter_from statewide allow codes []) ≡ any matches codes
  unfolding filter_from text_in
  nonempty-filter_from [] = refl
  nonempty-filter_from (raw ∷ rest) = elim (Option-cases (normalize_same_location raw)) [
    | inl bad ↦ ground (arith, bad, matches-none raw bad, nonempty-filter_from rest)
    | inr (c, e) ↦ ground (arith, e, matches-normalize raw e, nonempty-filter_from rest)
  ]

filter_from-Distinct :
    (statewide : Bool) (allow : List Text) (codes : List (Option Text)) (seen : List Text)
    → Distinct (filter_from statewide allow codes seen)
unfolding filter_from
filter_from-Distinct statewide allow [] seen = tt
filter_from-Distinct statewide allow (raw ∷ rest) seen =
    elim (Option-cases (normalize_same_location raw)) [
      | inl bad ↦ ground (arith, bad, filter_from-Distinct statewide allow rest seen)
      | inr (c, e) ↦ ground (
        arith,
        e,
        text_in_self c seen,
        text_in-filter_from statewide allow c rest (c ∷ seen),
        filter_from-Distinct statewide allow rest seen,
        filter_from-Distinct statewide allow rest (c ∷ seen),
      )
    ]

-- The filter returns a location just when the input has one that normalizes to it and it matches the
-- service area of the normalized list; and it returns none twice.
pub filter_same_locations_exact :
    (statewide : Bool) (allow_set : AllowSet) (codes : List (Option Text))
    → ((code : Text)
        → text_in code (filter_same_locations_to_service_area statewide allow_set codes) ≡ (
            received code codes
            && same_location_matches_service_area statewide
                (set_of (normalized_allow allow_set))
                (some code)))
      × Distinct (filter_same_locations_to_service_area statewide allow_set codes)
unfolding filter_same_locations_to_service_area text_in
filter_same_locations_exact statewide allow_set codes = (
  λ code. ground (arith, text_in-filter_from statewide (normalized_allow allow_set) code codes []),
  filter_from-Distinct statewide (normalized_allow allow_set) codes [],
)

matches_nothing :
    (statewide : Bool) (raw : Option Text)
    → same_location_matches_service_area statewide (set_of []) raw ≡ false
unfolding same_location_matches_service_area normalized_allow matches_normalized
    service_area_has_state text_in
matches_nothing statewide raw = ground arith

any-matches_nothing :
    (statewide : Bool) (codes : List (Option Text))
    → any (same_location_matches_service_area statewide (set_of [])) codes ≡ false
any-matches_nothing statewide [] = refl
any-matches_nothing statewide (raw ∷ rest) =
    ground (arith, matches_nothing statewide raw, any-matches_nothing statewide rest)

-- Some location meets the service area just when the filter leaves one.
pub intersect-eq-filter :
    (statewide : Bool) (allow_set : AllowSet) (codes : List (Option Text))
    → same_locations_intersect_service_area statewide allow_set codes
      ≡ nonempty (filter_same_locations_to_service_area statewide allow_set codes)
unfolding same_locations_intersect_service_area filter_same_locations_to_service_area
intersect-eq-filter statewide allow_set codes = go (normalized_allow allow_set)
  where
    go :
        (allow : List Text)
        → (nonempty allow
            && any (same_location_matches_service_area statewide (set_of allow)) codes)
          ≡ nonempty (filter_from statewide allow codes [])
    go [] =
        sym (any-matches_nothing statewide codes) ∙ sym (nonempty-filter_from statewide [] codes)
    go (a ∷ allow) = sym (nonempty-filter_from statewide (a ∷ allow) codes)
