-- ===== src/Locations/Statewide.antt =====
-- What the state-wide wildcard adds to the exact matches.
use seasonal_weather.Prelude.{
  ◌≡◌, Bool, true, false, Option, some, List, [], ◌∷◌, arith, drop, Text, codes, text_eq,
  text_eq_iff, text_eq_refl, Bool-cases, text_in, Option-cases, inl, inr,
}
use seasonal_weather.Locations.{
  national_same_location, normalize_same_location, state_of, statewide_shape,
  is_statewide_same_location, is_county_of, service_area_has_state, AllowSet, set_of,
  is_normal_form, normalized_allow, matches_normalized, same_location_matches_service_area,
  same_state_fips, is_national_same_location,
}

-- The national code matches no service area, whatever the list holds.
pub national_never_matches :
    (statewide : Bool) (allow_set : AllowSet) (code : Option Text)
    → is_national_same_location code ≡ true
    → same_location_matches_service_area statewide allow_set code ≡ false
unfolding is_national_same_location same_location_matches_service_area matches_normalized
national_never_matches statewide allow_set code h = ground arith

national_ending :
    (code : Text)
    → text_eq code national_same_location ≡ true
    → text_eq (drop 3 code) (codes "000") ≡ true
national_ending code h =
    rw ((text_eq_iff code national_same_location).0 h) (text_eq_refl (codes "000"))

statewide_ending :
    (code : Text) → statewide_shape code ≡ true → text_eq (drop 3 code) (codes "000") ≡ true
unfolding statewide_shape
statewide_ending code h = ground arith

-- A six-digit code that does not end in 000 matches a set just when it is in it, with the wildcard and
-- without.
pub county_needs_list :
    (statewide : Bool) (allow : List Text) (code : Text)
    → normalize_same_location (some code) ≡ some code
    → text_eq (drop 3 code) (codes "000") ≡ false
    → same_location_matches_service_area statewide (set_of allow) (some code) ≡ text_in code allow
unfolding same_location_matches_service_area matches_normalized is_statewide_same_location
    normalized_allow
county_needs_list statewide allow code e h =
    ground (arith, national_ending code, statewide_ending code)

-- a county that the list names
abbrev pub NamedCounty : List Text → Text → Type 0
NamedCounty allow state =
    (county : Text) × (text_in county allow ≡ true)
    × (normalize_same_location (some county) ≡ some county)
    × (text_eq (state_of county) state ≡ true)
    × (text_eq (drop 3 county) (codes "000") ≡ false)

county_facts :
    (state county : Text)
    → is_county_of state county ≡ true
    → (normalize_same_location (some county) ≡ some county)
      × (text_eq (state_of county) state ≡ true)
      × (text_eq (drop 3 county) (codes "000") ≡ false)
unfolding is_county_of
county_facts state county h = (normal_form county (ground arith), ground arith, ground arith)
  where
    normal_form : (c : Text) → is_normal_form c ≡ true → normalize_same_location (some c) ≡ some c
    normal_form c e = elim (Option-cases (normalize_same_location (some c))) [
      | inl bad ↦ unfold is_normal_form in ground arith
      | inr (same6, ok) ↦ unfold is_normal_form in ground (arith, ok, text_eq_iff same6 c)
    ]

has_state-NamedCounty :
    (allow : List Text) (state : Text)
    → service_area_has_state allow state ≡ true
    → NamedCounty allow state
unfolding service_area_has_state text_in
has_state-NamedCounty [] state h = cc
has_state-NamedCounty (a ∷ allow) state h = elim (Bool-cases (is_county_of state a)) [
  | inl here ↦
      let (form, same, ending) = county_facts state a here in
      (a, rw (text_eq_refl a), form, same, ending)
  | inr there ↦
      let (county, found, form, same, ending) =
        has_state-NamedCounty allow state (ground (arith, there)) in
      (county, ground (arith, found), form, same, ending)
]

-- A six-digit code that matches a set only with the wildcard is a state-wide code, of no marine area,
-- and the set holds a county of its state.
pub wildcard_adds :
    (allow : List Text) (code : Text)
    → normalize_same_location (some code) ≡ some code
    → same_location_matches_service_area true (set_of allow) (some code) ≡ true
    → same_location_matches_service_area false (set_of allow) (some code) ≡ false
    → (statewide_shape code ≡ true) × NamedCounty allow (state_of code)
unfolding same_location_matches_service_area matches_normalized is_statewide_same_location
    normalized_allow same_state_fips
wildcard_adds allow code e on off =
    (ground arith, has_state-NamedCounty allow (state_of code) (ground arith))
