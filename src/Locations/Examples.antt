-- ===== src/Locations/Examples.antt =====
-- A service area in Maryland, and the theorems at its codes.
use seasonal_weather.Prelude.{
  Distinct, ◌≡◌, refl, true, false, ◌&&◌, Option, none, some, List, [], ◌∷◌, nonempty, Text, codes,
  text_eq, text_in, strip, is_digit,
}
use seasonal_weather.Locations.{
  normalize_same_location, AllowSet, set_of, iterable, normalized_allow, statewide_shape, state_of,
  digits_of, is_national_same_location, same_location_matches_service_area,
  same_locations_intersect_service_area, filter_same_locations_to_service_area, matches_normalized,
  is_statewide_same_location, marine_same_ss, same_state_fips, service_area_has_state, is_county_of,
  is_normal_form, normalize_same_locations, normalize_from, filter_from,
}
use seasonal_weather.Locations.Filter.{received, filter_same_locations_exact, intersect-eq-filter}
use seasonal_weather.Locations.Statewide.{
  NamedCounty, national_never_matches, county_needs_list, wildcard_adds,
}

abbrev maryland : List Text
maryland = codes "024031" ∷ codes "024033" ∷ []

abbrev area : AllowSet
area = iterable (some (codes " 024031") ∷ some (codes "24031") ∷ none ∷ some (codes "024-033") ∷ [])

abbrev incoming : List (Option Text)
incoming =
    some (codes "024000")
    ∷ some (codes "024031")
    ∷ some (codes "051059")
    ∷ some (codes "024031")
    ∷ []

filtered :
    filter_same_locations_to_service_area true area incoming ≡ codes "024000" ∷ codes "024031" ∷ []
unfolding filter_same_locations_to_service_area filter_from normalized_allow
    normalize_same_locations normalize_from normalize_same_location digits_of strip is_digit text_in
    same_location_matches_service_area matches_normalized is_statewide_same_location statewide_shape
    marine_same_ss same_state_fips service_area_has_state is_county_of is_normal_form
filtered = refl

filter_same_locations_exact_example :
    ((code : Text)
      → text_in code (filter_same_locations_to_service_area true area incoming) ≡ (
          received code incoming
          && same_location_matches_service_area true (set_of (normalized_allow area)) (some code)))
    × Distinct (filter_same_locations_to_service_area true area incoming)
filter_same_locations_exact_example = filter_same_locations_exact true area incoming

intersect-eq-filter_example :
    same_locations_intersect_service_area true area incoming
    ≡ nonempty (filter_same_locations_to_service_area true area incoming)
intersect-eq-filter_example = intersect-eq-filter true area incoming

national_never_matches_example :
    same_location_matches_service_area true (set_of (codes "000000" ∷ [])) (some (codes "000000"))
    ≡ false
unfolding is_national_same_location normalize_same_location digits_of strip is_digit text_eq
national_never_matches_example =
    national_never_matches true (set_of (codes "000000" ∷ [])) (some (codes "000000")) refl

county_needs_list_example :
    same_location_matches_service_area true (set_of (codes "024000" ∷ [])) (some (codes "024031"))
    ≡ text_in (codes "024031") (codes "024000" ∷ [])
unfolding normalize_same_location digits_of strip is_digit text_eq
county_needs_list_example = county_needs_list true (codes "024000" ∷ []) (codes "024031") refl refl

wildcard_adds_example :
    (statewide_shape (codes "024000") ≡ true) × NamedCounty maryland (state_of (codes "024000"))
unfolding normalize_same_location digits_of strip is_digit text_eq text_in
    same_location_matches_service_area matches_normalized is_statewide_same_location statewide_shape
    marine_same_ss same_state_fips service_area_has_state is_county_of is_normal_form
    normalized_allow
wildcard_adds_example = wildcard_adds maryland (codes "024000") refl refl refl
