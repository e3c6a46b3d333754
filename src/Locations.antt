-- ===== src/Locations.antt =====
-- seasonalweather/same/locations.py: SAME location codes and the configured service area. A value
-- of type `Any` is none or its `str`.
mod Filter
mod Statewide
mod Examples
use seasonal_weather.Prelude.{
  Bool, true, false, not, ◌&&◌, ◌||◌, Option, none, some, List, [], ◌∷◌, ◌==◌, if◌then◌else◌,
  length, take, drop, keep, any, nonempty, is_some, Text, codes, text_eq, text_in, is_digit, strip,
}

pub marine_same_ss : List Text
marine_same_ss =
    codes "70"
    ∷ codes "71"
    ∷ codes "73"
    ∷ codes "75"
    ∷ codes "76"
    ∷ codes "77"
    ∷ codes "79"
    ∷ codes "81"
    ∷ codes "82"
    ∷ codes "83"
    ∷ []

abbrev pub national_same_location : Text
national_same_location = codes "000000"

pub digits_of : Text → Text
unfolding is_digit strip
digits_of s = keep is_digit (strip s)

pub normalize_same_location : Option Text → Option Text
normalize_same_location none = none
normalize_same_location (some value) =
    let digits = digits_of value in if length digits == 6 then some digits else none

-- the loop of `normalize_same_locations`, with `out` and `seen` one list in reverse order
pub normalize_from : List (Option Text) → List Text → List Text
normalize_from [] seen = []
normalize_from (raw ∷ rest) seen = elim (normalize_same_location raw) [
  | none ↦ normalize_from rest seen
  | some code ↦ elim (text_in code seen) [
    | true ↦ normalize_from rest seen
    | false ↦ code ∷ normalize_from rest (code ∷ seen)
  ]
]

pub normalize_same_locations : List (Option Text) → List Text
normalize_same_locations values = normalize_from values []

-- `code[1:3]`
abbrev pub state_of : Text → Text
state_of code = take 2 (drop 1 code)

pub same_state_fips : Option Text → Option Text
same_state_fips code = elim (normalize_same_location code) [
  | none ↦ none
  | some same6 ↦ some (state_of same6)
]

pub is_national_same_location : Option Text → Bool
is_national_same_location code = elim (normalize_same_location code) [
  | none ↦ false
  | some same6 ↦ text_eq same6 national_same_location
]

-- the last line of `is_statewide_same_location`, below its test for the national code
pub statewide_shape : Text → Bool
statewide_shape same6 =
    text_eq (take 1 same6) (codes "0")
    && not (text_eq (state_of same6) (codes "00"))
    && not (text_in (state_of same6) marine_same_ss)
    && text_eq (drop 3 same6) (codes "000")

pub is_statewide_same_location : Option Text → Bool
is_statewide_same_location code = elim (normalize_same_location code) [
  | none ↦ false
  | some same6 ↦ if text_eq same6 national_same_location then false else statewide_shape same6
]

-- `normalize_same_location(allowed) == allowed`
pub is_normal_form : Text → Bool
is_normal_form allowed = elim (normalize_same_location (some allowed)) [
  | none ↦ false
  | some same6 ↦ text_eq same6 allowed
]

-- the four guards of the loop of `_service_area_has_state`
pub is_county_of : Text → Text → Bool
is_county_of state_fips allowed =
    not (text_eq allowed national_same_location)
    && is_normal_form allowed
    && text_eq (state_of allowed) state_fips
    && not (text_eq (drop 3 allowed) (codes "000"))
    && not (is_statewide_same_location (some allowed))

pub service_area_has_state : List Text → Text → Bool
service_area_has_state allow_set state_fips = any (is_county_of state_fips) allow_set

-- `Iterable[Any] | set[str]`: a set is taken as it is
pub data AllowSet : Type 0 where
  set_of : List Text → AllowSet
  iterable : List (Option Text) → AllowSet

pub normalized_allow : AllowSet → List Text
normalized_allow (set_of codes) = codes
normalized_allow (iterable values) = normalize_same_locations values

-- the tests of `same_location_matches_service_area` on a normalized code
pub matches_normalized : Bool → List Text → Text → Bool
matches_normalized allow_statewide_input allow same6 =
    if text_eq same6 national_same_location
    then false
    else if text_in same6 allow
    then true
    else if not allow_statewide_input || not (is_statewide_same_location (some same6))
    then false
    else elim (same_state_fips (some same6)) [
      | none ↦ false
      | some state ↦ service_area_has_state allow state
    ]

pub same_location_matches_service_area : Bool → AllowSet → Option Text → Bool
same_location_matches_service_area allow_statewide_input allow_set code =
    elim (normalize_same_location code) [
      | none ↦ false
      | some same6 ↦ matches_normalized allow_statewide_input (normalized_allow allow_set) same6
    ]

pub same_locations_intersect_service_area : Bool → AllowSet → List (Option Text) → Bool
same_locations_intersect_service_area allow_statewide_input allow_set codes =
    let allow = normalized_allow allow_set in
    nonempty allow
    && any (same_location_matches_service_area allow_statewide_input (set_of allow)) codes

-- the loop of `filter_same_locations_to_service_area`, with its `seen`
pub filter_from : Bool → List Text → List (Option Text) → List Text → List Text
filter_from statewide allow [] seen = []
filter_from statewide allow (raw ∷ rest) seen = elim (normalize_same_location raw) [
  | none ↦ filter_from statewide allow rest seen
  | some code ↦
      elim (text_in code seen
        || not (same_location_matches_service_area statewide (set_of allow) (some code))) [
          | true ↦ filter_from statewide allow rest seen
          | false ↦ code ∷ filter_from statewide allow rest (code ∷ seen)
        ]
]

pub filter_same_locations_to_service_area : Bool → AllowSet → List (Option Text) → List Text
filter_same_locations_to_service_area allow_statewide_input allow_set codes =
    filter_from allow_statewide_input (normalized_allow allow_set) codes []
